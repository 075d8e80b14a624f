-- ===== src/Offers/Service.antt =====
-- The operations of `OffersService` (src/offers/offers.service.ts).
use gp_connect_server.Common.{
  ℕ, Bool, true, false, not, ◌&&◌, ◌||◌, Option, none, some, [], ◌∷◌, ◌==◌, nat_eq, String, is_set,
  if◌then◌else◌,
}
use gp_connect_server.Schema.{
  User, MissionStatus, mission_status_eq, AdvertisementStatus, Conversation, ConversationStatus,
  conversation_status_eq, MessageOffer, OfferStatus, offer_status_eq, Mission, Transaction,
  TransactionMethod, TransactionStatus,
}
use gp_connect_server.Prisma.{Prisma, Effect}
use gp_connect_server.Handler.{
  Handler, Exception, Reason, ◌>>=◌, ◌>>◌, pure, gets, or_throw, throw_if, when, emit, transaction,
  find_unique, create, update, update_many, users, missions, advertisements, transactions,
  conversations, messages, offers,
}

-- What `loadPendingOffer` returns: the offer with its message's author and conversation.
pub record LoadedOffer : Type 0 where
  pub offer : MessageOffer
  pub author_id : ℕ
  pub conversation : Conversation

-- The arguments of `applyAcceptance`, with the id that the row of the transaction draws.
pub record Deal : Type 0 where
  pub new_id : ℕ
  pub offer_id : ℕ
  pub price : ℕ
  pub carrier_id : ℕ
  pub mission_id : ℕ
  pub conversation_id : ℕ

abbrev pub deal_of : ℕ → LoadedOffer → ℕ → Deal
deal_of new_id l mission_id = record {
  new_id = new_id;
  offer_id = l.offer.id;
  price = l.offer.price;
  carrier_id = l.conversation.carrier_id;
  mission_id = mission_id;
  conversation_id = l.conversation.id;
}

-- The columns that an acceptance sets on the mission and on the chosen offer.
abbrev pub engaged : Deal → Mission → Mission
engaged d m = record m {
  carrier_id = some d.carrier_id;
  negotiated_price = d.price;
  status = MissionStatus.accepted;
}

abbrev pub settled : Deal → MessageOffer → MessageOffer
settled d o = record o { mission_id = some d.mission_id; status = OfferStatus.accepted }

abbrev pub payment : Deal → Transaction
payment d = record {
  id = d.new_id;
  amount = d.price;
  method = TransactionMethod.cash;
  status = TransactionStatus.pending;
  mission_id = d.mission_id;
}

-- The filter `message: { conversationId }` on an offer.
abbrev pub in_conversation : (P : Prisma) → P.message.Table → ℕ → MessageOffer → Bool
in_conversation P t conversation_id o = elim (P.message.find_unique o.id t) [
  | none ↦ false
  | some m ↦ m.conversation_id == conversation_id
]

-- The other rows that an acceptance writes.
abbrev pub is_rival_offer : (P : Prisma) → P.message.Table → Deal → MessageOffer → Bool
is_rival_offer P t d o =
    not (o.id == d.offer_id)
    && (o.status == OfferStatus.pending && in_conversation P t d.conversation_id o)

abbrev pub is_rival_mission : Deal → ℕ → Mission → Bool
is_rival_mission d advertisement_id m =
    m.advertisement_id == advertisement_id
    && (not (m.id == d.mission_id) && m.status == MissionStatus.pending)

abbrev pub is_rival_conversation : Deal → ℕ → Conversation → Bool
is_rival_conversation d advertisement_id c =
    c.advertisement_id == advertisement_id
    && (not (c.id == d.conversation_id) && c.status == ConversationStatus.active)

abbrev pub is_party : ℕ → Conversation → Bool
is_party user_id c = user_id == c.shipper_id || user_id == c.carrier_id

-- A mail is sent to a user with an address who has not switched mails off.
abbrev pub non_empty : String → Bool
non_empty String.[] = false
non_empty (String.◌∷◌ _ _) = true

abbrev pub muted : Option Bool → Bool
muted (some false) = true
muted _ = false

abbrev pub takes_mail : User → Bool
takes_mail u = non_empty u.email && not (muted u.notify_email)

abbrev pub kyc_verified : Option User → Bool
kyc_verified none = false
kyc_verified (some u) = is_set u.id_card_verified_at

module _ {P : Prisma} where
  -- `offers.findUnique` with the message and its conversation, which the foreign keys provide.
  unfoldable pub load_offer : ℕ → Handler P LoadedOffer
  load_offer offer_id = do
    found ← find_unique offers offer_id
    offer ← or_throw (Exception.not_found Reason.offer_not_found) found
    carried ← find_unique messages offer.id
    message ← or_throw Exception.record_not_found carried
    holds ← find_unique conversations message.conversation_id
    conversation ← or_throw Exception.record_not_found holds
    pure (record { offer = offer; author_id = message.author_id; conversation = conversation })

  unfoldable pub load_pending_offer : ℕ → Handler P LoadedOffer
  unfolding load_offer
  load_pending_offer offer_id = do
    loaded ← load_offer offer_id
    throw_if (not (loaded.offer.status == OfferStatus.pending))
        (Exception.bad_request Reason.offer_not_pending)
    pure loaded

  unfoldable pub assert_carrier_kyc_verified : ℕ → Handler P (Unit {0})
  assert_carrier_kyc_verified carrier_id = do
    carrier ← find_unique users carrier_id
    throw_if (not (kyc_verified carrier)) (Exception.forbidden Reason.kyc_missing)

  unfoldable pub settle_conversation_offers : Deal → Handler P (Unit {0})
  settle_conversation_offers d = do
    update offers d.offer_id (settled d)
    t ← gets (λ w. w.messages)
    update_many offers (is_rival_offer P t d) (λ o. record o { status = OfferStatus.rejected })
    pure tt

  unfoldable pub close_competing_missions : Deal → ℕ → Handler P (Unit {0})
  close_competing_missions d advertisement_id = do
    update_many missions (is_rival_mission d advertisement_id)
        (λ m. record m { status = MissionStatus.cancelled })
    update_many conversations (is_rival_conversation d advertisement_id)
        (λ c. record c { status = ConversationStatus.archived })
    pure tt

  -- The cascade of an acceptance.
  unfoldable pub apply_acceptance : Deal → Handler P (Option MessageOffer)
  unfolding settle_conversation_offers close_competing_missions
  apply_acceptance d = do
    found ← find_unique missions d.mission_id
    mission ← or_throw (Exception.not_found Reason.mission_not_found) found
    throw_if (not (mission.status == MissionStatus.pending))
        (Exception.bad_request Reason.already_accepted)
    n ←
        update_many missions (λ m. m.id == d.mission_id && m.status == MissionStatus.pending)
          (engaged d)
    throw_if (n == 0) (Exception.bad_request Reason.already_accepted)
    update advertisements mission.advertisement_id
        (λ a. record a { status = AdvertisementStatus.in_progress })
    settle_conversation_offers d
    create transactions (λ t. t.id == d.new_id || t.mission_id == d.mission_id) (payment d)
    close_competing_missions d mission.advertisement_id
    find_unique offers d.offer_id

  unfoldable pub notify_offer_accepted : ℕ → ℕ → ℕ → Handler P (Unit {0})
  notify_offer_accepted author_id price mission_id = do
    found ← find_unique users author_id
    elim found [
      | none ↦ pure tt
      | some u ↦ when (takes_mail u) (emit (Effect.offer_accepted_mail u.email price mission_id))
    ]

  -- The guards of `accept` on who accepts; returns the mission that the conversation is about.
  unfoldable pub acceptance_guards : ℕ → LoadedOffer → Handler P ℕ
  unfolding assert_carrier_kyc_verified
  acceptance_guards user_id l = do
    throw_if (not (is_party user_id l.conversation)) (Exception.forbidden Reason.unspecified)
    throw_if (l.author_id == user_id) (Exception.forbidden Reason.own_offer)
    mission_id ← or_throw (Exception.bad_request Reason.no_mission) l.conversation.mission_id
    assert_carrier_kyc_verified l.conversation.carrier_id
    pure mission_id

  -- The rest of `accept`, once the offer is loaded and the guards have passed.
  unfoldable pub commit_acceptance : ℕ → LoadedOffer → ℕ → Handler P (Option MessageOffer)
  commit_acceptance new_id l mission_id = do
    result ← transaction (apply_acceptance (deal_of new_id l mission_id))
    emit (Effect.offer_updated result l.conversation.id)
    emit (Effect.mission_status_changed mission_id MissionStatus.accepted (l.conversation.id ∷ []))
    notify_offer_accepted l.author_id l.offer.price mission_id
    pure result

  unfoldable pub accept : ℕ → ℕ → ℕ → Handler P (Option MessageOffer)
  accept new_id offer_id user_id = do
    loaded ← load_pending_offer offer_id
    mission_id ← acceptance_guards user_id loaded
    commit_acceptance new_id loaded mission_id

  -- The guards of `update` where the status is not ACCEPTED.
  unfoldable pub rejection_guards : ℕ → LoadedOffer → Handler P (Unit {0})
  rejection_guards user_id l = do
    throw_if (not (l.offer.status == OfferStatus.pending))
        (Exception.bad_request Reason.offer_not_pending)
    throw_if (not (is_party user_id l.conversation)) (Exception.forbidden Reason.unspecified)
    throw_if (l.author_id == user_id) (Exception.forbidden Reason.own_offer)

  unfoldable pub commit_rejection : ℕ → OfferStatus → ℕ → Handler P (Option MessageOffer)
  commit_rejection offer_id status conversation_id = do
    n ←
        update_many offers (λ o. o.id == offer_id && o.status == OfferStatus.pending)
          (λ o. record o { status = status })
    throw_if (n == 0) (Exception.bad_request Reason.offer_not_pending)
    updated ← find_unique offers offer_id
    emit (Effect.offer_updated updated conversation_id)
    pure updated

  -- `update` of PATCH /offers/:id.
  unfoldable pub update_offer_status : ℕ → ℕ → ℕ → OfferStatus → Handler P (Option MessageOffer)
  update_offer_status new_id offer_id user_id status =
      if status == OfferStatus.accepted then accept new_id offer_id user_id else (do
        loaded ← load_offer offer_id
        rejection_guards user_id loaded
        commit_rejection offer_id status loaded.conversation.id)
