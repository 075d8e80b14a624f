-- ===== src/Offers/Acceptance.antt =====
-- What an acceptance writes: `applyAcceptance` of src/offers/offers.service.ts.
use gp_connect_server.Common.{
  ℕ, ◌≡◌, inl, inr, ◌&&◌, Option, some, arith, ◌==◌, nat_eq, Option-cases,
}
use gp_connect_server.Schema.{
  Mission, MissionStatus, mission_status_eq, AdvertisementStatus, ConversationStatus,
  conversation_status_eq, MessageOffer, OfferStatus, offer_status_eq,
}
use gp_connect_server.Prisma.{Prisma, World}
use gp_connect_server.Handler.{ok}
use gp_connect_server.Offers.Service.{
  Deal, engaged, settled, payment, is_rival_mission, is_rival_offer, is_rival_conversation,
  apply_acceptance,
}

module _ {P : Prisma} where
  -- The tables that a successful acceptance leaves, for the advertisement `ad_id`.
  abbrev pub accepted_world : Deal → ℕ → World P → World P
  accepted_world d ad_id w = record w {
    missions =
        P.mission.update_many (is_rival_mission d ad_id)
          (λ m. record m { status = MissionStatus.cancelled })
          (P.mission.update_many (λ m. m.id == d.mission_id && m.status == MissionStatus.pending)
            (engaged d) w.missions);
    advertisements =
        P.advertisement.update_many (λ a. a.id == ad_id)
          (λ a. record a { status = AdvertisementStatus.in_progress }) w.advertisements;
    offers =
        P.message_offer.update_many (is_rival_offer P w.messages d)
          (λ o. record o { status = OfferStatus.rejected })
          (P.message_offer.update_many (λ o. o.id == d.offer_id) (settled d) w.offers);
    transactions = P.transaction.insert (payment d) w.transactions;
    conversations =
        P.conversation.update_many (is_rival_conversation d ad_id)
          (λ c. record c { status = ConversationStatus.archived }) w.conversations;
  }

  -- An acceptance that succeeds found its mission pending, and wrote just those tables.
  pub apply_acceptance-ok :
      (d : Deal) (w : World P) {r : Option MessageOffer}
      → (apply_acceptance d w).0 ≡ ok r
      → (m : Mission) × (P.mission.find_unique d.mission_id w.missions ≡ some m)
        × (m.status ≡ MissionStatus.pending)
        × ((apply_acceptance d w).1 ≡ accepted_world d m.advertisement_id w)
  unfolding apply_acceptance
  apply_acceptance-ok d w h = elim (Option-cases (P.mission.find_unique d.mission_id w.missions)) [
    | inl gone ↦ absurd (ground arith)
    | inr (m, f) ↦ (m, f, ground arith, ground arith)
  ]
