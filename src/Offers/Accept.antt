-- ===== src/Offers/Accept.antt =====
-- `accept` of src/offers/offers.service.ts as a whole, and the writes that race with it.
use gp_connect_server.Common.{
  ℕ, ◌≡◌, refl, ◌≢◌, Option, some, arith, nat_eq, inl, inr, ◌∙◌, sym, ap, subst,
}
use gp_connect_server.Schema.{Mission, MissionStatus, MessageOffer, OfferStatus}
use gp_connect_server.Prisma.{Prisma, World}
use gp_connect_server.Handler.{Exception, Reason, Result-cases, ok, err, ◌>>=◌}
use gp_connect_server.Handler.Inversion.{read-ok, read-err}
use gp_connect_server.Offers.Service.{
  LoadedOffer, Deal, deal_of, engaged, settled, load_pending_offer, acceptance_guards,
  apply_acceptance, commit_acceptance, accept, notify_offer_accepted,
}
use gp_connect_server.Offers.Acceptance.{apply_acceptance-ok}
use gp_connect_server.Offers.Rows.{IsAccepted, accepted_world-IsAccepted}
use gp_connect_server.Offers.Guards.{
  IsLoaded, MayAccept, load_pending_offer-world, load_pending_offer-ok, acceptance_guards-world,
  acceptance_guards-MayAccept,
}

module _ {P : Prisma} where
  -- The tables after a run, whatever was emitted.
  abbrev pub SameTables : World P → World P → Type 0
  SameTables w w' = w' ≡ record w { effects = w'.effects }

  notify_offer_accepted-ok :
      (author price mission_id : ℕ) (w : World P)
      → ((notify_offer_accepted author price mission_id w).0 ≡ ok tt)
        × SameTables w (notify_offer_accepted author price mission_id w).1
  unfolding notify_offer_accepted
  notify_offer_accepted-ok author price mission_id w = ground arith

  -- The commit of an acceptance throws what its transaction throws, and then writes nothing.
  pub commit_acceptance-err :
      (new_id : ℕ) (l : LoadedOffer) (mission_id : ℕ) (w : World P) {e : Exception}
      → (apply_acceptance (deal_of new_id l mission_id) w).0 ≡ err e
      → commit_acceptance new_id l mission_id w ≡ (err e, w)
  unfolding commit_acceptance
  commit_acceptance-err new_id l mission_id w h = ground arith

  pub commit_acceptance-ok :
      (new_id : ℕ) (l : LoadedOffer) (mission_id : ℕ) (w : World P) {r : Option MessageOffer}
      → (apply_acceptance (deal_of new_id l mission_id) w).0 ≡ ok r
      → ((commit_acceptance new_id l mission_id w).0 ≡ ok r)
        × SameTables
            (apply_acceptance (deal_of new_id l mission_id) w).1
            (commit_acceptance new_id l mission_id w).1
  unfolding commit_acceptance
  commit_acceptance-ok new_id l mission_id w h = grind (arith, notify_offer_accepted-ok)

  IsAccepted-effects :
      {d : Deal} {m : Mission} {w x y : World P}
      → IsAccepted d m w x
      → SameTables x y
      → IsAccepted d m w y
  IsAccepted-effects {d} {m} {w} {x} {y} a e = subst (IsAccepted d m w) (sym e) (record {
    mission = a.mission;
    rival_missions = a.rival_missions;
    advertisement = a.advertisement;
    offer = a.offer;
    rival_offers = a.rival_offers;
    transaction = a.transaction;
    rival_conversations = a.rival_conversations;
  })

  -- The commit of an acceptance succeeds only on a pending mission, and then writes every row that
  -- an acceptance concerns.
  pub commit_acceptance-IsAccepted :
      (new_id : ℕ) (l : LoadedOffer) (mission_id : ℕ) (w : World P) {r : Option MessageOffer}
      → (commit_acceptance new_id l mission_id w).0 ≡ ok r
      → (m : Mission) × (P.mission.find_unique mission_id w.missions ≡ some m)
        × (m.status ≡ MissionStatus.pending)
        × IsAccepted (deal_of new_id l mission_id) m w (commit_acceptance new_id l mission_id w).1
  commit_acceptance-IsAccepted new_id l mission_id w {r} h =
      let d = deal_of new_id l mission_id in
      elim (Result-cases (apply_acceptance d w).0) [
        | inl (q, e) ↦
            let (m, f, s, eq) = apply_acceptance-ok d w e in
            let (_, same) = commit_acceptance-ok new_id l mission_id w e in
            (
              m,
              f,
              s,
              IsAccepted-effects
                  (subst (IsAccepted d m w) (sym eq) (accepted_world-IsAccepted d m w f s)) same,
            )
        | inr (x, e) ↦
            let q = commit_acceptance-err new_id l mission_id w e in absurd (ground arith)
      ]

  -- A mission that is not pending is not accepted again.
  apply_acceptance-not_pending :
      (d : Deal) (w : World P) (m : Mission)
      → P.mission.find_unique d.mission_id w.missions ≡ some m
      → m.status ≢ MissionStatus.pending
      → apply_acceptance d w ≡ (err (Exception.bad_request Reason.already_accepted), w)
  unfolding apply_acceptance
  apply_acceptance-not_pending d w m f ne = ground arith

  commit_acceptance_err :
      (new_id : ℕ) (l : LoadedOffer) (mission_id : ℕ) (w : World P) {e : Exception}
      → (commit_acceptance new_id l mission_id w).0 ≡ err e
      → (commit_acceptance new_id l mission_id w).1 ≡ w
  commit_acceptance_err new_id l mission_id w {e} h =
      elim (Result-cases (apply_acceptance (deal_of new_id l mission_id) w).0) [
        | inl (r, q) ↦
            let (k, _) = commit_acceptance-ok new_id l mission_id w q in absurd (ground arith)
        | inr (x, q) ↦ ap (λ p. p.1) (commit_acceptance-err new_id l mission_id w q)
      ]

  -- What a whole acceptance did.
  pub record IsAcceptance (new_id offer_id user_id : ℕ) (w w' : World P) : Type 0 where
    pub loaded : LoadedOffer
    pub mission_id : ℕ
    pub mission : Mission
    pub is_loaded : IsLoaded offer_id loaded w
    pub offer_pending : loaded.offer.status ≡ OfferStatus.pending
    pub may_accept : MayAccept user_id loaded mission_id w
    pub mission_found : P.mission.find_unique mission_id w.missions ≡ some mission
    pub mission_pending : mission.status ≡ MissionStatus.pending
    pub accepted :
        IsAccepted
          (record {
            new_id = new_id;
            offer_id = loaded.offer.id;
            price = loaded.offer.price;
            carrier_id = loaded.conversation.carrier_id;
            mission_id = mission_id;
            conversation_id = loaded.conversation.id;
          })
          mission
          w
          w'

  -- A whole acceptance that succeeds: the offer was pending, the user is a party and not its author,
  -- the carrier has a verified identity, the mission was pending, and every row that an acceptance
  -- concerns is written: the mission, its rivals, the advertisement, the offer, its rivals, the
  -- payment and the other conversations.
  pub accept-ok :
      (new_id offer_id user_id : ℕ) (w : World P) {r : Option MessageOffer}
      → (accept new_id offer_id user_id w).0 ≡ ok r
      → IsAcceptance new_id offer_id user_id w (accept new_id offer_id user_id w).1
  unfolding accept
  accept-ok new_id offer_id user_id w h =
      let guarded =
        λ (l : LoadedOffer). acceptance_guards user_id l >>= commit_acceptance new_id l in
      let (l, loaded, q, h') =
        read-ok (load_pending_offer offer_id) guarded w (load_pending_offer-world offer_id w) h in
      let (mission_id, passed, q', h'') =
        read-ok (acceptance_guards user_id l) (commit_acceptance new_id l) w
          (acceptance_guards-world user_id l w) h' in
      let (m, f, s, a) = commit_acceptance-IsAccepted new_id l mission_id w h'' in
      let (is_loaded, pending) = load_pending_offer-ok offer_id w loaded in
      record {
        loaded = l;
        mission_id = mission_id;
        mission = m;
        is_loaded = is_loaded;
        offer_pending = pending;
        may_accept = acceptance_guards-MayAccept user_id l w passed;
        mission_found = f;
        mission_pending = s;
        accepted = rw (q, q') a;
      }

  -- An acceptance that throws, for whatever reason, leaves the whole database as it was.
  pub accept-err :
      (new_id offer_id user_id : ℕ) (w : World P) {e : Exception}
      → (accept new_id offer_id user_id w).0 ≡ err e
      → (accept new_id offer_id user_id w).1 ≡ w
  unfolding accept
  accept-err new_id offer_id user_id w {e} h =
      let guarded =
        λ (l : LoadedOffer). acceptance_guards user_id l >>= commit_acceptance new_id l in
      elim (read-err (load_pending_offer offer_id) guarded w (load_pending_offer-world offer_id w)
        h) [
          | inl q ↦ ap (λ p. p.1) q
          | inr (l, _, q, h') ↦
              elim (read-err (acceptance_guards user_id l) (commit_acceptance new_id l) w
                (acceptance_guards-world user_id l w) h') [
                  | inl q' ↦ ap (λ p. p.1) (q ∙ q')
                  | inr (mission_id, _, q', h'') ↦
                      ap (λ p. p.1) (q ∙ q') ∙ commit_acceptance_err new_id l mission_id w h''
                ]
        ]

  -- Once an acceptance has committed, no other acceptance for the same mission commits, whatever
  -- offer it loaded and checked beforehand: it is refused and writes nothing.
  pub commit_acceptance-once :
      (new_id new_id' : ℕ) (l l' : LoadedOffer) (mission_id : ℕ) (w : World P)
      {r : Option MessageOffer}
      → (commit_acceptance new_id l mission_id w).0 ≡ ok r
      → let w' = (commit_acceptance new_id l mission_id w).1 in
        commit_acceptance new_id' l' mission_id w'
        ≡ (err (Exception.bad_request Reason.already_accepted), w')
  commit_acceptance-once new_id new_id' l l' mission_id w h =
      let (m, _, _, a) = commit_acceptance-IsAccepted new_id l mission_id w h in
      let w' = (commit_acceptance new_id l mission_id w).1 in
      commit_acceptance-err new_id' l' mission_id w' (
        ap (λ p. p.0)
          (apply_acceptance-not_pending (deal_of new_id' l' mission_id) w'
            (engaged (deal_of new_id l mission_id) m) a.mission (λ e. cc)))

  -- The price is the one that was read with the offer: if the author changes it before the commit,
  -- the mission is engaged at the old price while the accepted offer shows the new one.
  pub commit_acceptance-stale_price :
      (new_id : ℕ) (l : LoadedOffer) (mission_id : ℕ) (w : World P) {r : Option MessageOffer}
      (o : MessageOffer)
      → P.message_offer.find_unique l.offer.id w.offers ≡ some o
      → o.price ≢ l.offer.price
      → (commit_acceptance new_id l mission_id w).0 ≡ ok r
      → (m : Mission) × (o' : MessageOffer) × (P.mission.find_unique mission_id
            (commit_acceptance new_id l mission_id w).1.missions
          ≡ some m)
        × (P.message_offer.find_unique l.offer.id (commit_acceptance new_id l mission_id w).1.offers
            ≡ some o')
        × (o'.status ≡ OfferStatus.accepted)
        × (o'.price ≡ o.price)
        × (m.negotiated_price ≢ o'.price)
  commit_acceptance-stale_price new_id l mission_id w o f ne h =
      let (m, _, _, a) = commit_acceptance-IsAccepted new_id l mission_id w h in
      let d = deal_of new_id l mission_id in
      (engaged d m, settled d o, a.mission, a.offer o f, refl, refl, λ e. ne (sym e))
