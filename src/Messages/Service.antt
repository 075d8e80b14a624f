-- ===== src/Messages/Service.antt =====
-- The operations of `MessagesService` (src/messages/messages.service.ts) that change state, and
-- their routes (src/messages/messages.controller.ts), without the media messages.
use gp_connect_server.Common.{ℕ, Option, none, some, String, ◌==◌, nat_eq, leb, not, ◌&&◌}
use gp_connect_server.Schema.{
  Conversation, ConversationStatus, conversation_status_eq, Message, MessageType, MessageOffer,
  OfferStatus, offer_status_eq, MessageAppointment, AppointmentType, AppointmentStatus,
}
use gp_connect_server.Prisma.{Prisma, Effect}
use gp_connect_server.Handler.{
  Handler, Exception, Reason, ◌>>=◌, ◌>>◌, pure, or_throw, throw_if, emit, transaction, find_unique,
  create, update, update_many, delete, delete_many, conversations, messages, offers, appointments,
  users,
}
use gp_connect_server.Missions.{given}
use gp_connect_server.Conversations.{is_participant, assert_not_blocked, assert_offer_allowed}

-- `CreateOfferDto` and its partial `UpdateOfferDto`.
pub record OfferTerms : Type 0 where
  pub price : Option ℕ
  pub weight : Option ℕ

pub record CreateAppointmentDto : Type 0 where
  pub type : AppointmentType
  pub scheduled_at : ℕ

-- `CreateMessageDto`, with the id that the new row draws. The default of the type is TEXT; the
-- nested terms may be absent, whatever the type.
pub record CreateMessageDto : Type 0 where
  pub new_id : ℕ
  pub content : Option String
  pub conversation_id : ℕ
  pub type : MessageType
  pub offer : Option OfferTerms
  pub appointment : Option CreateAppointmentDto

abbrev pub new_message : (now : ℕ) → ℕ → CreateMessageDto → Message
new_message now author_id d = record {
  id = d.new_id;
  content = d.content;
  conversation_id = d.conversation_id;
  type = d.type;
  author_id = author_id;
  created_at = now;
}

-- The columns of the model that the terms leave out take their defaults.
abbrev pub new_offer : ℕ → ℕ → Option ℕ → MessageOffer
new_offer id price weight = record {
  id = id;
  price = price;
  weight = given weight 0;
  mission_id = none;
  status = OfferStatus.pending;
}

abbrev pub new_appointment : ℕ → CreateAppointmentDto → MessageAppointment
new_appointment id d = record {
  id = id;
  type = d.type;
  scheduled_at = d.scheduled_at;
  status = AppointmentStatus.pending;
}

abbrev pub with_terms : OfferTerms → MessageOffer → MessageOffer
with_terms d o = record o { price = given d.price o.price; weight = given d.weight o.weight }

abbrev pub awake : (now : ℕ) → Conversation → Conversation
awake now c = record c {
  last_message_at = some now;
  shipper_deleted_at = none;
  carrier_deleted_at = none;
}

module _ {P : Prisma} where
  unfoldable pub touch_conversation : ℕ → ℕ → Handler P (Unit {0})
  touch_conversation conversation_id last_message_at = do
    update conversations conversation_id (awake last_message_at)
    update_many conversations
        (λ c. c.id == conversation_id && c.status == ConversationStatus.deleted)
        (λ c. record c { status = ConversationStatus.active })
    pure tt

  -- The nested rows of a message, which share its id.
  abbrev pub create_terms : ℕ → OfferTerms → Handler P (Unit {0})
  create_terms id d = do
    price ← or_throw Exception.missing_argument d.price
    create offers (λ o. o.id == id) (new_offer id price d.weight)
    pure tt

  abbrev pub create_nested : MessageType → CreateMessageDto → Handler P (Unit {0})
  create_nested MessageType.offer d = elim d.offer [
    | none ↦ pure tt
    | some terms ↦ create_terms d.new_id terms
  ]
  create_nested MessageType.appointment d = elim d.appointment [
    | none ↦ pure tt
    | some a ↦ do create appointments (λ x. x.id == d.new_id) (new_appointment d.new_id a); pure tt
  ]
  create_nested _ d = pure tt

  -- `messages.create` with its nested rows; the conversation and the author are foreign keys.
  unfoldable pub store_message : (now : ℕ) → ℕ → CreateMessageDto → Handler P Message
  store_message now author_id d = transaction (do
    holds ← find_unique conversations d.conversation_id
    or_throw Exception.foreign_key_violation holds
    author ← find_unique users author_id
    or_throw Exception.foreign_key_violation author
    message ← create messages (λ m. m.id == d.new_id) (new_message now author_id d)
    create_nested d.type d
    pure message)

  unfoldable pub create_message : (now : ℕ) → ℕ → CreateMessageDto → Handler P Message
  create_message now author_id d = do
    message ← store_message now author_id d
    touch_conversation d.conversation_id message.created_at
    emit (Effect.message_created message d.conversation_id)
    pure message

  unfoldable pub update_offer : ℕ → OfferTerms → Handler P (Option MessageOffer)
  update_offer id d = do
    found ← find_unique offers id
    offer ← or_throw (Exception.not_found Reason.unspecified) found
    throw_if (not (offer.status == OfferStatus.pending))
        (Exception.bad_request Reason.offer_not_pending)
    n ← update_many offers (λ o. o.id == id && o.status == OfferStatus.pending) (with_terms d)
    throw_if (n == 0) (Exception.bad_request Reason.offer_not_pending)
    find_unique offers id

  -- `message.delete`; its offer and its appointment go with it (onDelete: Cascade).
  unfoldable pub delete_message : ℕ → Handler P Message
  delete_message id = do
    message ← delete messages id
    delete_many offers (λ o. o.id == id)
    delete_many appointments (λ a. a.id == id)
    pure message

  -- The guards of `POST /messages` on the terms that the message carries.
  abbrev pub nested_guards : (now : ℕ) → ℕ → MessageType → CreateMessageDto → Handler P (Unit {0})
  nested_guards now author_id MessageType.offer d =
      assert_offer_allowed now d.conversation_id author_id
        (elim d.offer [ none ↦ none | some terms ↦ terms.weight ])
  nested_guards now author_id MessageType.appointment d = do
    a ← or_throw Exception.type_error d.appointment
    throw_if (leb a.scheduled_at now) (Exception.bad_request Reason.appointment_in_past)
  nested_guards now author_id _ d = pure tt

  unfoldable pub message_guards : (now : ℕ) → ℕ → CreateMessageDto → Handler P (Unit {0})
  message_guards now author_id d = do
    allowed ← is_participant d.conversation_id author_id
    throw_if (not allowed) (Exception.forbidden Reason.unspecified)
    assert_not_blocked d.conversation_id author_id
    nested_guards now author_id d.type d

  unfoldable pub create_message_route : (now : ℕ) → ℕ → CreateMessageDto → Handler P Message
  create_message_route now author_id d = do
    message_guards now author_id d
    create_message now author_id d

  -- `findById`, and a 403 unless the user is the author.
  abbrev pub own_message : ℕ → ℕ → Handler P (Unit {0})
  own_message user_id id = do
    found ← find_unique messages id
    m ← or_throw (Exception.forbidden Reason.unspecified) found
    throw_if (not (m.author_id == user_id)) (Exception.forbidden Reason.unspecified)

  unfoldable pub update_offer_route : ℕ → ℕ → OfferTerms → Handler P (Option MessageOffer)
  update_offer_route user_id id terms = do own_message user_id id; update_offer id terms

  unfoldable pub update_content_route : ℕ → ℕ → Option String → Handler P Message
  update_content_route user_id id content = do
    own_message user_id id
    update messages id
        (λ m. record m { content = elim content [ none ↦ m.content | some s ↦ some s ] })

  unfoldable pub delete_message_route : ℕ → ℕ → Handler P Message
  delete_message_route user_id id = do own_message user_id id; delete_message id
