-- ===== src/Examples/Offers.antt =====
-- Offers.
use gp_connect_server.Common.{◌≡◌, refl, some, arith, ◌≢◌, [], ◌∷◌}
use gp_connect_server.Schema.{Mission, MessageOffer, OfferStatus}
use gp_connect_server.Prisma.{World}
use gp_connect_server.Prisma.InMemory.{in_memory}
use gp_connect_server.Handler.{Exception, Reason, ok, err}
use gp_connect_server.Offers.{
  LoadedOffer, accept, commit_acceptance, apply_acceptance, load_pending_offer, acceptance_guards,
  notify_offer_accepted, commit_rejection,
}
use gp_connect_server.Offers.Accept.{
  IsAcceptance, accept-ok, accept-err, commit_acceptance-once, commit_acceptance-stale_price,
}
use gp_connect_server.Examples.Data.{conversation, offer, negotiation}

abbrev loaded : LoadedOffer
loaded = record { offer = offer; author_id = 1; conversation = conversation }

abbrev pub settled_offer : MessageOffer
settled_offer = record offer { mission_id = some 20; status = OfferStatus.accepted }

pub accept-runs : (accept 70 40 2 negotiation).0 ≡ ok (some settled_offer)
unfolding accept load_pending_offer acceptance_guards commit_acceptance apply_acceptance
    notify_offer_accepted
accept-runs = refl

accept-ok_example : IsAcceptance 70 40 2 negotiation (accept 70 40 2 negotiation).1
accept-ok_example = accept-ok 70 40 2 negotiation accept-runs

accept_own : (accept 70 40 1 negotiation).0 ≡ err (Exception.forbidden Reason.own_offer)
unfolding accept load_pending_offer acceptance_guards
accept_own = refl

accept-err_example : (accept 70 40 1 negotiation).1 ≡ negotiation
accept-err_example = accept-err 70 40 1 negotiation accept_own

commit-runs : (commit_acceptance 70 loaded 20 negotiation).0 ≡ ok (some settled_offer)
unfolding commit_acceptance apply_acceptance notify_offer_accepted
commit-runs = refl

commit_acceptance-once_example :
    let w' = (commit_acceptance 70 loaded 20 negotiation).1 in
    commit_acceptance 71 loaded 20 w' ≡ (err (Exception.bad_request Reason.already_accepted), w')
commit_acceptance-once_example =
    commit_acceptance-once 70 71 loaded loaded 20 negotiation commit-runs

-- The author has raised the price to 900 in the meantime.
abbrev raised : World in_memory
raised = record negotiation { offers = record offer { price = 900 } ∷ [] }

raised-runs :
    (commit_acceptance 70 loaded 20 raised).0
    ≡ ok (some (record offer { price = 900; mission_id = some 20; status = OfferStatus.accepted }))
unfolding commit_acceptance apply_acceptance notify_offer_accepted
raised-runs = refl

commit_acceptance-stale_price_example :
    (m : Mission) × (o' : MessageOffer) × (in_memory.mission.find_unique 20
        (commit_acceptance 70 loaded 20 raised).1.missions
      ≡ some m)
    × (in_memory.message_offer.find_unique 40 (commit_acceptance 70 loaded 20 raised).1.offers
        ≡ some o')
    × (o'.status ≡ OfferStatus.accepted)
    × (o'.price ≡ 900)
    × (m.negotiated_price ≢ o'.price)
commit_acceptance-stale_price_example =
    commit_acceptance-stale_price 70 loaded 20 raised (record offer { price = 900 }) refl
      (λ e. omega arith) raised-runs

reject-runs :
    (commit_rejection 40 OfferStatus.rejected 30 negotiation).0
    ≡ ok (some (record offer { status = OfferStatus.rejected }))
unfolding commit_rejection
reject-runs = refl
