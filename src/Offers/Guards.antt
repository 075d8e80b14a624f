-- ===== src/Offers/Guards.antt =====
-- What the reads and the guards of `accept` and `update` (src/offers/offers.service.ts) establish.
use gp_connect_server.Common.{
  ℕ, ◌≡◌, ◌≢◌, ◌⊎◌, inl, inr, true, some, arith, nat_eq, is_set, Option-cases,
}
use gp_connect_server.Schema.{User, Message, OfferStatus, offer_status_eq}
use gp_connect_server.Prisma.{Prisma, World}
use gp_connect_server.Handler.{ok}
use gp_connect_server.Offers.Service.{
  LoadedOffer, load_offer, load_pending_offer, acceptance_guards,
}

module _ {P : Prisma} where
  -- The offer, its author and its conversation are those of the database.
  pub record IsLoaded (offer_id : ℕ) (l : LoadedOffer) (w : World P) : Type 0 where
    pub offer : P.message_offer.find_unique offer_id w.offers ≡ some l.offer
    pub carrier_message :
        (m : Message) × (P.message.find_unique l.offer.id w.messages ≡ some m)
        × (m.author_id ≡ l.author_id)
        × (P.conversation.find_unique m.conversation_id w.conversations ≡ some l.conversation)

  pub load_offer-world : (id : ℕ) (w : World P) → (load_offer id w).1 ≡ w
  unfolding load_offer
  load_offer-world id w = ground arith

  pub load_offer-IsLoaded :
      (id : ℕ) (w : World P) {l : LoadedOffer} → (load_offer id w).0 ≡ ok l → IsLoaded id l w
  unfolding load_offer
  load_offer-IsLoaded id w {l} h =
      elim (Option-cases (P.message.find_unique l.offer.id w.messages)) [
        | inl gone ↦ absurd (ground arith)
        | inr (m, f) ↦ record {
          offer = ground arith;
          carrier_message = (m, f, ground arith, ground arith);
        }
      ]

  pub load_pending_offer-world : (id : ℕ) (w : World P) → (load_pending_offer id w).1 ≡ w
  unfolding load_pending_offer
  load_pending_offer-world id w = ground arith

  pub load_pending_offer-ok :
      (id : ℕ) (w : World P) {l : LoadedOffer}
      → (load_pending_offer id w).0 ≡ ok l
      → IsLoaded id l w × (l.offer.status ≡ OfferStatus.pending)
  unfolding load_pending_offer
  load_pending_offer-ok id w {l} h = (load_offer-IsLoaded id w (ground arith), ground arith)

  -- Who may accept: a party other than the author, once the carrier has proved an identity.
  pub record MayAccept (user_id : ℕ) (l : LoadedOffer) (mission_id : ℕ) (w : World P) : Type 0 where
    pub party : (user_id ≡ l.conversation.shipper_id) ⊎ (user_id ≡ l.conversation.carrier_id)
    pub not_author : l.author_id ≢ user_id
    pub about : l.conversation.mission_id ≡ some mission_id
    pub kyc :
        (u : User) × (P.user.find_unique l.conversation.carrier_id w.users ≡ some u)
        × (is_set u.id_card_verified_at ≡ true)

  pub acceptance_guards-world :
      (user_id : ℕ) (l : LoadedOffer) (w : World P) → (acceptance_guards user_id l w).1 ≡ w
  unfolding acceptance_guards
  acceptance_guards-world user_id l w = ground arith

  pub acceptance_guards-MayAccept :
      (user_id : ℕ) (l : LoadedOffer) (w : World P) {mission_id : ℕ}
      → (acceptance_guards user_id l w).0 ≡ ok mission_id
      → MayAccept user_id l mission_id w
  unfolding acceptance_guards
  acceptance_guards-MayAccept user_id l w h =
      elim (Option-cases (P.user.find_unique l.conversation.carrier_id w.users)) [
        | inl gone ↦ absurd (ground arith)
        | inr (u, f) ↦ record {
          party = ground arith;
          not_author = ground arith;
          about = ground arith;
          kyc = (u, f, ground arith);
        }
      ]
