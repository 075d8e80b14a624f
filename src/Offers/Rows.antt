-- ===== src/Offers/Rows.antt =====
-- What an acceptance does to each row: `applyAcceptance` of src/offers/offers.service.ts.
use gp_connect_server.Common.{
  ◌∙◌, ℕ, ◌≡◌, refl, ◌≢◌, ◌&&◌, none, some, arith, ◌==◌, nat_eq, if◌then◌else◌,
}
use gp_connect_server.Schema.{
  TransactionMethod, TransactionStatus, Mission, MissionStatus, mission_status_eq,
  AdvertisementStatus, Advertisement, Conversation, ConversationStatus, conversation_status_eq,
  MessageOffer, OfferStatus, offer_status_eq,
}
use gp_connect_server.Prisma.{
  Prisma, World, find_unique-locked, find_unique-locked_ne, find_unique-updated,
  find_unique-updated_ne, row-written,
}
use gp_connect_server.Offers.Acceptance.{accepted_world}
use gp_connect_server.Offers.Service.{Deal, engaged, settled, payment, in_conversation}

module _ {P : Prisma} where
  -- What an acceptance of the deal `d` does, row by row; `m` is the mission as it was.
  pub record IsAccepted (d : Deal) (m : Mission) (w w' : World P) : Type 0 where
    pub mission :
        P.mission.find_unique d.mission_id w'.missions
        ≡ some (record m {
          carrier_id = some d.carrier_id;
          negotiated_price = d.price;
          status = MissionStatus.accepted;
        })
    pub rival_missions :
        (j : ℕ) (x : Mission)
        → j ≢ d.mission_id
        → P.mission.find_unique j w.missions ≡ some x
        → P.mission.find_unique j w'.missions
          ≡ some (
              if x.advertisement_id == m.advertisement_id && x.status == MissionStatus.pending
              then record x { status = MissionStatus.cancelled }
              else x)
    pub advertisement :
        (a : Advertisement)
        → P.advertisement.find_unique m.advertisement_id w.advertisements ≡ some a
        → P.advertisement.find_unique m.advertisement_id w'.advertisements
          ≡ some (record a { status = AdvertisementStatus.in_progress })
    pub offer :
        (o : MessageOffer)
        → P.message_offer.find_unique d.offer_id w.offers ≡ some o
        → P.message_offer.find_unique d.offer_id w'.offers
          ≡ some (record o { mission_id = some d.mission_id; status = OfferStatus.accepted })
    pub rival_offers :
        (j : ℕ) (o : MessageOffer)
        → j ≢ d.offer_id
        → P.message_offer.find_unique j w.offers ≡ some o
        → P.message_offer.find_unique j w'.offers
          ≡ some (
              if o.status == OfferStatus.pending && in_conversation P w.messages d.conversation_id o
              then record o { status = OfferStatus.rejected }
              else o)
    pub transaction :
        P.transaction.find_unique d.new_id w.transactions ≡ none
        → P.transaction.find_unique d.new_id w'.transactions
          ≡ some (record {
            id = d.new_id;
            amount = d.price;
            method = TransactionMethod.cash;
            status = TransactionStatus.pending;
            mission_id = d.mission_id;
          })
    pub rival_conversations :
        (j : ℕ) (c : Conversation)
        → j ≢ d.conversation_id
        → P.conversation.find_unique j w.conversations ≡ some c
        → P.conversation.find_unique j w'.conversations
          ≡ some (
              if c.advertisement_id == m.advertisement_id && c.status == ConversationStatus.active
              then record c { status = ConversationStatus.archived }
              else c)

  module _ (d : Deal) (m : Mission) (w : World P) where
    accepted_mission :
        P.mission.find_unique d.mission_id w.missions ≡ some m
        → m.status ≡ MissionStatus.pending
        → P.mission.find_unique d.mission_id (accepted_world d m.advertisement_id w).missions
          ≡ some (engaged d m)
    accepted_mission f s =
        row-written P.mission d.mission_id _ _ _ (engaged d m) (engaged d m) (λ b. refl)
          (find_unique-locked P.mission d.mission_id (λ x. x.status == MissionStatus.pending)
            (engaged d) w.missions m (λ b. refl) f (rw s))
          (ground arith)

    accepted_rival_mission :
        (j : ℕ) (x : Mission)
        → j ≢ d.mission_id
        → P.mission.find_unique j w.missions ≡ some x
        → P.mission.find_unique j (accepted_world d m.advertisement_id w).missions
          ≡ some (
              if x.advertisement_id == m.advertisement_id && x.status == MissionStatus.pending
              then record x { status = MissionStatus.cancelled }
              else x)
    accepted_rival_mission j x ne f =
        row-written P.mission j _ _ _ x _ (λ b. refl)
          (find_unique-locked_ne P.mission j d.mission_id (λ y. y.status == MissionStatus.pending)
              (engaged d) w.missions (λ b. refl) ne
            ∙ f)
          (ground (arith, P.mission.key-find_unique j w.missions x f))

    accepted_rival_offer :
        (j : ℕ) (o : MessageOffer)
        → j ≢ d.offer_id
        → P.message_offer.find_unique j w.offers ≡ some o
        → P.message_offer.find_unique j (accepted_world d m.advertisement_id w).offers
          ≡ some (
              if o.status == OfferStatus.pending && in_conversation P w.messages d.conversation_id o
              then record o { status = OfferStatus.rejected }
              else o)
    accepted_rival_offer j o ne f =
        row-written P.message_offer j _ _ _ o _ (λ b. refl)
          (find_unique-updated_ne P.message_offer j d.offer_id (settled d) w.offers (λ b. refl) ne
            ∙ f)
          (ground (arith, P.message_offer.key-find_unique j w.offers o f))

    accepted_offer :
        (o : MessageOffer)
        → P.message_offer.find_unique d.offer_id w.offers ≡ some o
        → P.message_offer.find_unique d.offer_id (accepted_world d m.advertisement_id w).offers
          ≡ some (settled d o)
    accepted_offer o f =
        row-written P.message_offer d.offer_id _ _ _ (settled d o) _ (λ b. refl)
          (find_unique-updated P.message_offer d.offer_id (settled d) w.offers o (λ b. refl) f)
          (ground (arith, P.message_offer.key-find_unique d.offer_id w.offers o f))

    accepted_rival_conversation :
        (j : ℕ) (c : Conversation)
        → j ≢ d.conversation_id
        → P.conversation.find_unique j w.conversations ≡ some c
        → P.conversation.find_unique j (accepted_world d m.advertisement_id w).conversations
          ≡ some (
              if c.advertisement_id == m.advertisement_id && c.status == ConversationStatus.active
              then record c { status = ConversationStatus.archived }
              else c)
    accepted_rival_conversation j c ne f =
        row-written P.conversation j _ _ _ c _ (λ b. refl) f
          (ground (arith, P.conversation.key-find_unique j w.conversations c f))

  pub accepted_world-IsAccepted :
      (d : Deal) (m : Mission) (w : World P)
      → P.mission.find_unique d.mission_id w.missions ≡ some m
      → m.status ≡ MissionStatus.pending
      → IsAccepted d m w (accepted_world d m.advertisement_id w)
  accepted_world-IsAccepted d m w f s = record {
    mission = accepted_mission d m w f s;
    rival_missions = accepted_rival_mission d m w;
    advertisement = λ a fa.
        find_unique-updated P.advertisement m.advertisement_id _ w.advertisements a (λ b. refl) fa;
    offer = accepted_offer d m w;
    rival_offers = accepted_rival_offer d m w;
    transaction = P.transaction.find_unique-insert_self (payment d) w.transactions;
    rival_conversations = accepted_rival_conversation d m w;
  }
