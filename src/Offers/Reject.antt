-- ===== src/Offers/Reject.antt =====
-- Rejecting an offer, and how it excludes accepting it: `update` of src/offers/offers.service.ts.
use gp_connect_server.Common.{
  ℕ, ◌≡◌, refl, sym, subst, ◌≢◌, inl, inr, Option, some, arith, ◌==◌, nat_eq, ◌&&◌,
}
use gp_connect_server.Schema.{MessageOffer, OfferStatus, offer_status_eq, offer_status_beq_iff}
use gp_connect_server.Prisma.{Prisma, World, lock-cases, find_unique-locked}
use gp_connect_server.Handler.{Exception, Reason, Result-cases, ok, err}
use gp_connect_server.Offers.Service.{deal_of, settled, accept, commit_rejection}
use gp_connect_server.Offers.Accept.{accept-ok, accept-err}

abbrev with_offer_status : OfferStatus → MessageOffer → MessageOffer
with_offer_status s o = record o { status = s }

module _ {P : Prisma} where
  -- A decision that is written found the offer pending.
  commit_rejection-ok :
      (id conversation_id : ℕ) (s : OfferStatus) (w : World P) {r : Option MessageOffer}
      → (commit_rejection id s conversation_id w).0 ≡ ok r
      → (o : MessageOffer) × (P.message_offer.find_unique id w.offers ≡ some o)
        × (o.status ≡ OfferStatus.pending)
        × (P.message_offer.find_unique id (commit_rejection id s conversation_id w).1.offers
            ≡ some (with_offer_status s o))
  unfolding commit_rejection
  commit_rejection-ok id conversation_id s w h =
      let q = λ (x : MessageOffer). x.status == OfferStatus.pending in
      elim (lock-cases P.message_offer id q w.offers) [
        | inl z ↦ absurd (ground arith)
        | inr (n, (o, f, k, p)) ↦
            let f' =
              find_unique-locked P.message_offer id q (with_offer_status s) w.offers o (λ b. refl) f
                p in
            (o, f, (offer_status_beq_iff o.status OfferStatus.pending).0 p, ground (arith, f'))
      ]

  commit_rejection-closed :
      (id conversation_id : ℕ) (s : OfferStatus) (w : World P) (o : MessageOffer)
      → P.message_offer.find_unique id w.offers ≡ some o
      → o.status ≢ OfferStatus.pending
      → commit_rejection id s conversation_id w
        ≡ (err (Exception.bad_request Reason.offer_not_pending), w)
  unfolding commit_rejection
  commit_rejection-closed id conversation_id s w o f ne =
      let q = λ (x : MessageOffer). x.status == OfferStatus.pending in
      elim (lock-cases P.message_offer id q w.offers) [
        | inl z ↦
            let same =
              P.message_offer.update_many-none (λ x. x.id == id && q x) (with_offer_status s)
                w.offers z in
            ground arith
        | inr (n, (y, f', k, p)) ↦
            absurd (ground (arith, offer_status_beq_iff y.status OfferStatus.pending))
      ]

  -- An accepted offer is not rejected: a rejection that was checked before the acceptance is refused
  -- and writes nothing.
  pub accept-commit_rejection :
      (new_id id user_id conversation_id : ℕ) (s : OfferStatus) (w : World P)
      {r : Option MessageOffer}
      → (accept new_id id user_id w).0 ≡ ok r
      → let w' = (accept new_id id user_id w).1 in
        commit_rejection id s conversation_id w'
        ≡ (err (Exception.bad_request Reason.offer_not_pending), w')
  accept-commit_rejection new_id id user_id conversation_id s w h =
      let a = accept-ok new_id id user_id w h in
      let o = a.loaded.offer in
      let k = P.message_offer.key-find_unique id w.offers o a.is_loaded.offer in
      let w' = (accept new_id id user_id w).1 in
      let d = deal_of new_id a.loaded a.mission_id in
      let stored =
        a.accepted.offer o (
          subst (λ j. P.message_offer.find_unique j w.offers ≡ some o) (sym k) a.is_loaded.offer) in
      commit_rejection-closed id conversation_id s w' (settled d o)
        (subst (λ j. P.message_offer.find_unique j w'.offers ≡ some (settled d o)) k stored)
        (λ e. cc)

  -- An offer that the commit of a rejection gave another status than PENDING is not accepted: an
  -- acceptance throws, and nothing is written.
  pub commit_rejection-accept :
      (new_id id user_id conversation_id : ℕ) (s : OfferStatus) (w : World P)
      {r : Option MessageOffer}
      → s ≢ OfferStatus.pending
      → (commit_rejection id s conversation_id w).0 ≡ ok r
      → let w' = (commit_rejection id s conversation_id w).1 in
        (x : Exception) × (accept new_id id user_id w' ≡ (err x, w'))
  commit_rejection-accept new_id id user_id conversation_id s w ne h =
      let w' = (commit_rejection id s conversation_id w).1 in
      let (o, f, p, f') = commit_rejection-ok id conversation_id s w h in
      elim (Result-cases (accept new_id id user_id w').0) [
        | inl (y, e) ↦
            let a = accept-ok new_id id user_id w' e in
            let g = a.is_loaded.offer in let pending = a.offer_pending in absurd (ground arith)
        | inr (x, e) ↦ let same = accept-err new_id id user_id w' e in (x, ground arith)
      ]
