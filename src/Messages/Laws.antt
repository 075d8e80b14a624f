-- ===== src/Messages/Laws.antt =====
-- What a new message does to its conversation, and what an edit of an offer may change.
use gp_connect_server.Common.{
  ℕ, ◌≡◌, refl, sym, ap, subst, ◌≢◌, inl, inr, Option, Option-cases, some, arith, ◌==◌, nat_eq,
  ◌&&◌, if◌then◌else◌,
}
use gp_connect_server.Schema.{
  Conversation, ConversationStatus, MessageType, conversation_status_eq, Message, MessageOffer,
  OfferStatus, offer_status_eq, offer_status_beq_iff,
}
use gp_connect_server.Prisma.{
  Prisma, World, Effect, find_unique-updated, row-written, zero-cases, unused_id, lock-cases,
  find_unique-locked,
}
use gp_connect_server.Handler.{Exception, Reason, Result-cases, Handler, emit, pure, ok, err, ◌>>◌}
use gp_connect_server.Handler.Inversion.{>>=-ok}
use gp_connect_server.Offers.{accept, settled, deal_of}
use gp_connect_server.Offers.Accept.{accept-ok}
use gp_connect_server.Messages.Service.{
  OfferTerms, CreateMessageDto, new_message, with_terms, awake, touch_conversation, create_nested,
  store_message, create_message, update_offer,
}

-- What a message turns its conversation into.
abbrev pub woken : ℕ → Conversation → Conversation
woken now c =
    if c.status == ConversationStatus.deleted
    then record (awake now c) { status = ConversationStatus.active }
    else awake now c

module _ {P : Prisma} where
  create_nested-frame :
      (type : MessageType) (d : CreateMessageDto) (w : World P)
      → ((create_nested type d w).1.messages ≡ w.messages)
        × ((create_nested type d w).1.conversations ≡ w.conversations)
  create_nested-frame MessageType.offer d w = elim (Option-cases d.offer) [
    | inl z ↦ ground arith
    | inr (o, e) ↦ elim (Option-cases o.price) [ inl z ↦ ground arith | inr (x, f) ↦ ground arith ]
  ]
  create_nested-frame MessageType.appointment d w = elim (Option-cases d.appointment) [
    | inl z ↦ ground arith
    | inr (a, e) ↦ ground arith
  ]
  create_nested-frame MessageType.media d w = (refl, refl)
  create_nested-frame MessageType.text d w = (refl, refl)

  touch_conversation-ok :
      (id now : ℕ) (w : World P) (c : Conversation)
      → P.conversation.find_unique id w.conversations ≡ some c
      → ((touch_conversation id now w).0 ≡ ok tt)
        × (P.conversation.find_unique id (touch_conversation id now w).1.conversations
            ≡ some (woken now c))
        × ((touch_conversation id now w).1.messages ≡ w.messages)
  unfolding touch_conversation
  touch_conversation-ok id now w c f =
      let u = find_unique-updated P.conversation id (awake now) w.conversations c (λ b. refl) f in
      let t = P.conversation.update_many (λ x. x.id == id) (awake now) w.conversations in
      let v =
        row-written P.conversation id (λ x. x.id == id && x.status == ConversationStatus.deleted)
          (λ x. record x { status = ConversationStatus.active }) t (awake now c) (woken now c)
          (λ b. refl) u (ground (arith, P.conversation.key-find_unique id w.conversations c f)) in
      (ground arith, ground arith, ground arith)

  -- An edit of an offer that succeeds found it pending and changes its price and its weight only.
  update_offer-ok :
      (id : ℕ) (d : OfferTerms) (w : World P) {r : Option MessageOffer}
      → (update_offer id d w).0 ≡ ok r
      → (o : MessageOffer) × (P.message_offer.find_unique id w.offers ≡ some o)
        × (o.status ≡ OfferStatus.pending)
        × (P.message_offer.find_unique id (update_offer id d w).1.offers ≡ some (with_terms d o))
        × (r ≡ some (with_terms d o))
  unfolding update_offer
  update_offer-ok id d w h =
      let q = λ (x : MessageOffer). x.status == OfferStatus.pending in
      elim (lock-cases P.message_offer id q w.offers) [
        | inl z ↦ absurd (ground arith)
        | inr (n, (o, f, k, p)) ↦
            let f' =
              find_unique-locked P.message_offer id q (with_terms d) w.offers o (λ b. refl) f p in
            (
              o,
              f,
              (offer_status_beq_iff o.status OfferStatus.pending).0 p,
              ground (arith, f'),
              ground (arith, f'),
            )
      ]

  -- An offer that is decided is not edited.
  update_offer-closed :
      (id : ℕ) (d : OfferTerms) (w : World P) (o : MessageOffer)
      → P.message_offer.find_unique id w.offers ≡ some o
      → o.status ≢ OfferStatus.pending
      → update_offer id d w ≡ (err (Exception.bad_request Reason.offer_not_pending), w)
  unfolding update_offer
  update_offer-closed id d w o f ne =
      let i = offer_status_beq_iff o.status OfferStatus.pending in ground arith

  store_message-ok :
      (now author_id : ℕ) (d : CreateMessageDto) (w : World P) {r : Message}
      → (store_message now author_id d w).0 ≡ ok r
      → let w' = (store_message now author_id d w).1 in
        (r ≡ new_message now author_id d)
        × ((c : Conversation) × (P.conversation.find_unique d.conversation_id w.conversations
              ≡ some c))
        × (w'.conversations ≡ w.conversations)
        × (P.message.find_unique d.new_id w'.messages ≡ some (new_message now author_id d))
  unfolding store_message
  store_message-ok now author_id d w h =
      let q = λ (m : Message). m.id == d.new_id in
      elim (Option-cases (P.conversation.find_unique d.conversation_id w.conversations)) [
        | inl z ↦ absurd (ground arith)
        | inr (c, f) ↦ elim (Option-cases (P.user.find_unique author_id w.users)) [
          | inl z ↦ absurd (ground arith)
          | inr (u, g) ↦ elim (zero-cases (P.message.count q w.messages)) [
            | inr n ↦ absurd (ground arith)
            | inl z ↦
                let m = new_message now author_id d in
                let w1 = record w { messages = P.message.insert m w.messages } in
                let (fm, fc) = create_nested-frame d.type d w1 in
                elim (Result-cases (create_nested d.type d w1).0) [
                  | inr (x, e) ↦ absurd (ground arith)
                  | inl (t, e) ↦
                      let new =
                        P.message.find_unique-insert_self m w.messages
                          (unused_id P.message d.new_id w.messages z) in
                      (ground arith, (c, f), ground arith, ground arith)
                ]
          ]
        ]
      ]

  -- What happens after the row of a message is written.
  abbrev after_storing : CreateMessageDto → Message → Handler P Message
  after_storing d message = do
    touch_conversation d.conversation_id message.created_at
    emit (Effect.message_created message d.conversation_id)
    pure message

  after_storing-ok :
      (d : CreateMessageDto) (x : Message) (w : World P) (c : Conversation)
      → P.conversation.find_unique d.conversation_id w.conversations ≡ some c
      → (P.conversation.find_unique d.conversation_id (after_storing d x w).1.conversations
          ≡ some (woken x.created_at c))
        × ((after_storing d x w).1.messages ≡ w.messages)
  after_storing-ok d x w c f =
      let t = touch_conversation-ok d.conversation_id x.created_at w c f in
      (ground arith, ground arith)

  -- What a new message did.
  pub record IsPosted (now author_id : ℕ) (d : CreateMessageDto) (w w' : World P) : Type 0 where
    pub conversation : Conversation
    pub found : P.conversation.find_unique d.conversation_id w.conversations ≡ some conversation
    pub stored : P.message.find_unique d.new_id w'.messages ≡ some (new_message now author_id d)
    pub woken_up :
        P.conversation.find_unique d.conversation_id w'.conversations
        ≡ some (woken now conversation)

  -- A message that is created is stored, and its conversation is visible to both parties again, with
  -- the time of the message; if both had deleted it, it is active again.
  pub create_message-ok :
      (now author_id : ℕ) (d : CreateMessageDto) (w : World P) {r : Message}
      → (create_message now author_id d w).0 ≡ ok r
      → IsPosted now author_id d w (create_message now author_id d w).1
  unfolding create_message
  create_message-ok now author_id d w h =
      let (x, stored, q, h') = >>=-ok (store_message now author_id d) (after_storing d) w h in
      let (same, (c, f), cs, s) = store_message-ok now author_id d w stored in
      let (wake, ms) = after_storing-ok d x (store_message now author_id d w).1 c (rw cs f) in
      record {
        conversation = c;
        found = f;
        stored = rw (q, ms) s;
        woken_up = rw q (
            subst
              (λ t.
                P.conversation.find_unique d.conversation_id
                  (after_storing d x (store_message now author_id d w).1).1.conversations
                ≡ some (woken t c))
              (ap (λ (y : Message). y.created_at) same) wake);
      }

  -- An edit that lands after the offer was accepted is refused: the terms of a deal stay.
  pub accept-update_offer :
      (new_id offer_id user_id : ℕ) (d : OfferTerms) (w : World P) {r : Option MessageOffer}
      → (accept new_id offer_id user_id w).0 ≡ ok r
      → let w' = (accept new_id offer_id user_id w).1 in
        update_offer offer_id d w' ≡ (err (Exception.bad_request Reason.offer_not_pending), w')
  accept-update_offer new_id offer_id user_id d w h =
      let a = accept-ok new_id offer_id user_id w h in
      let o = a.loaded.offer in
      let k = P.message_offer.key-find_unique offer_id w.offers o a.is_loaded.offer in
      let w' = (accept new_id offer_id user_id w).1 in
      let stored =
        a.accepted.offer o (
          subst (λ j. P.message_offer.find_unique j w.offers ≡ some o) (sym k) a.is_loaded.offer) in
      update_offer-closed offer_id d w' (settled (deal_of new_id a.loaded a.mission_id) o)
        (subst
          (λ j.
            P.message_offer.find_unique j w'.offers
            ≡ some (settled (deal_of new_id a.loaded a.mission_id) o))
          k stored)
        (λ e. cc)
