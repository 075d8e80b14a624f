-- ===== src/Messages/Guards.antt =====
-- Who may send a message, and which offers a conversation takes.
use gp_connect_server.Common.{
  ℕ, ◌≡◌, refl, sym, subst, ◌⊎◌, inl, inr, true, false, Option, Option-cases, Bool-cases, none,
  some, arith, ◌==◌, nat_eq, nat_beq_iff, ◌≤◌, ◌&&◌,
}
use gp_connect_server.Schema.{
  Conversation, MessageType, Message, UserBlock, Advertisement, AdvertisementStatus,
  advertisement_status_eq, advertisement_status_beq_iff,
}
use gp_connect_server.Prisma.{Prisma, World, lock_matches, and_parts}
use gp_connect_server.Handler.{Exception, Reason, Result-cases, ok, err}
use gp_connect_server.Handler.Inversion.{>>=-ok}
use gp_connect_server.Blocks.{block, is_blocked_between}
use gp_connect_server.Blocks.Laws.{block-is_blocked_between}
use gp_connect_server.Conversations.{
  participates, correspondent, is_participant, assert_not_blocked, assert_offer_allowed,
}
use gp_connect_server.Messages.Service.{
  CreateMessageDto, nested_guards, message_guards, create_message, create_message_route,
}

-- The weight that an offer names.
abbrev pub offered_weight : CreateMessageDto → Option ℕ
offered_weight d = elim d.offer [ none ↦ none | some terms ↦ terms.weight ]

-- The two ends of a conversation.
abbrev pub Connects : ℕ → ℕ → Conversation → Type 0
Connects a b c =
    ((c.shipper_id ≡ a) × (c.carrier_id ≡ b)) ⊎ ((c.shipper_id ≡ b) × (c.carrier_id ≡ a))

Connects-correspondent :
    (a b : ℕ) (c : Conversation)
    → Connects a b c
    → (participates a c ≡ true) × (correspondent a c ≡ b)
Connects-correspondent a b c (inl (s, k)) =
    let i = nat_beq_iff c.shipper_id a in (ground arith, ground arith)
Connects-correspondent a b c (inr (s, k)) =
    let i = nat_beq_iff c.shipper_id a in
    let j = nat_beq_iff c.carrier_id a in (ground arith, ground arith)

Connects-flip : (a b : ℕ) (c : Conversation) → Connects a b c → Connects b a c
Connects-flip a b c (inl e) = inr e
Connects-flip a b c (inr e) = inl e

module _ {P : Prisma} where
  is_participant-true :
      (id user_id : ℕ) (w : World P) (c : Conversation)
      → P.conversation.find_unique id w.conversations ≡ some c
      → participates user_id c ≡ true
      → is_participant id user_id w ≡ (ok true, w)
  unfolding is_participant
  is_participant-true id user_id w c f p =
      let n = lock_matches P.conversation id (participates user_id) w.conversations c f p in
      ground arith

  assert_not_blocked-err :
      (id user_id : ℕ) (w : World P) (c : Conversation)
      → P.conversation.find_unique id w.conversations ≡ some c
      → is_blocked_between user_id (correspondent user_id c) w ≡ (ok true, w)
      → assert_not_blocked id user_id w
        ≡ (err (Exception.forbidden Reason.interaction_unavailable), w)
  unfolding assert_not_blocked
  assert_not_blocked-err id user_id w c f b = ground arith

  -- A message to someone between whom and the author there is a block.
  create_message_route-blocked :
      (now user_id : ℕ) (d : CreateMessageDto) (w : World P) (c : Conversation)
      → P.conversation.find_unique d.conversation_id w.conversations ≡ some c
      → participates user_id c ≡ true
      → is_blocked_between user_id (correspondent user_id c) w ≡ (ok true, w)
      → create_message_route now user_id d w
        ≡ (err (Exception.forbidden Reason.interaction_unavailable), w)
  unfolding create_message_route message_guards
  create_message_route-blocked now user_id d w c f p b = ground (
    arith,
    is_participant-true d.conversation_id user_id w c f p,
    assert_not_blocked-err d.conversation_id user_id w c f b,
  )

  -- After a block neither of the two users reaches the other in a conversation that they have.
  pub block-create_message_route :
      (a b now : ℕ) (d : CreateMessageDto) (w : World P) {r : Option UserBlock} (c : Conversation)
      → (block a b w).0 ≡ ok r
      → let w' = (block a b w).1 in
        P.conversation.find_unique d.conversation_id w'.conversations ≡ some c
        → Connects a b c
        → (create_message_route now a d w'
            ≡ (err (Exception.forbidden Reason.interaction_unavailable), w'))
          × (create_message_route now b d w'
              ≡ (err (Exception.forbidden Reason.interaction_unavailable), w'))
  block-create_message_route a b now d w c h f k =
      let w' = (block a b w).1 in
      let (x, y) = block-is_blocked_between a b w h in
      let (p, e) = Connects-correspondent a b c k in
      let (p', e') = Connects-correspondent b a c (Connects-flip a b c k) in
      (
        create_message_route-blocked now a d w' c f p
            (subst (λ o. is_blocked_between a o w' ≡ (ok true, w')) (sym e) x),
        create_message_route-blocked now b d w' c f p'
            (subst (λ o. is_blocked_between b o w' ≡ (ok true, w')) (sym e') y),
      )

  -- What the guards on an offer make sure of.
  assert_offer_allowed-ok :
      (now id user_id : ℕ) (weight : Option ℕ) (w : World P)
      → (assert_offer_allowed now id user_id weight w).0 ≡ ok tt
      → (c : Conversation) × (ad : Advertisement) × (participates user_id c ≡ true)
        × (P.conversation.find_unique id w.conversations ≡ some c)
        × (P.advertisement.find_unique c.advertisement_id w.advertisements ≡ some ad)
        × (now ≤ ad.arrival_date)
        × ((ad.status ≡ AdvertisementStatus.open_) ⊎ (ad.status ≡ AdvertisementStatus.in_progress))
        × ((x : ℕ) → weight ≡ some x → x ≤ ad.max_weight)
  unfolding assert_offer_allowed
  assert_offer_allowed-ok now id user_id weight w h =
      let q = λ (c : Conversation). c.id == id && participates user_id c in
      elim (Option-cases (P.conversation.find_first q w.conversations)) [
        | inl z ↦ absurd (ground arith)
        | inr (c, e) ↦
            elim (Option-cases (P.advertisement.find_unique c.advertisement_id w.advertisements)) [
              | inl z ↦ absurd (ground arith)
              | inr (ad, f) ↦
                  let (m, g) = P.conversation.find_first-some q w.conversations c e in
                  let (k, p) = and_parts (c.id == id) (participates user_id c) m in
                  let i = advertisement_status_beq_iff ad.status AdvertisementStatus.open_ in
                  let j = advertisement_status_beq_iff ad.status AdvertisementStatus.in_progress in
                  (
                    c,
                    ad,
                    p,
                    subst (λ l. P.conversation.find_unique l w.conversations ≡ some c)
                        ((nat_beq_iff c.id id).0 k) g,
                    f,
                    ground arith,
                    elim (Bool-cases (ad.status == AdvertisementStatus.open_)) [
                      | inl t ↦ inl (i.0 t)
                      | inr t ↦ inr (ground arith)
                    ],
                    λ x o. ground arith,
                  )
            ]
      ]

  is_participant-world : (id user_id : ℕ) (w : World P) → (is_participant id user_id w).1 ≡ w
  unfolding is_participant
  is_participant-world id user_id w = refl

  assert_not_blocked-ok :
      (id user_id : ℕ) (w : World P)
      → (assert_not_blocked id user_id w).0 ≡ ok tt
      → ((assert_not_blocked id user_id w).1 ≡ w)
        × ((c : Conversation)
            → P.conversation.find_unique id w.conversations ≡ some c
            → is_blocked_between user_id (correspondent user_id c) w ≡ (ok false, w))
  unfolding assert_not_blocked is_blocked_between
  assert_not_blocked-ok id user_id w h = (ground arith, λ c f. ground arith)

  message_guards-offer :
      (now author_id : ℕ) (d : CreateMessageDto) (w : World P)
      → d.type ≡ MessageType.offer
      → (message_guards now author_id d w).0 ≡ ok tt
      → ((assert_not_blocked d.conversation_id author_id w).0 ≡ ok tt)
        × ((assert_offer_allowed now d.conversation_id author_id (offered_weight d) w).0 ≡ ok tt)
  unfolding message_guards
  message_guards-offer now author_id d w t h =
      elim (Result-cases (is_participant d.conversation_id author_id w).0) [
        | inr (x, e) ↦ absurd (ground arith)
        | inl (a, e) ↦ elim (Result-cases (assert_not_blocked d.conversation_id author_id w).0) [
          | inr (x, e') ↦
              absurd (ground (arith, is_participant-world d.conversation_id author_id w))
          | inl (u, e') ↦
              let pw = is_participant-world d.conversation_id author_id w in
              let (same, _) = assert_not_blocked-ok d.conversation_id author_id w e' in
              let nested : (nested_guards now author_id d.type d w).0 ≡ ok tt = ground arith in
              (e', subst (λ y. (nested_guards now author_id y d w).0 ≡ ok tt) t nested)
        ]
      ]

  -- What it took to send an offer.
  pub record IsOffered (now author_id : ℕ) (d : CreateMessageDto) (w : World P) : Type 0 where
    pub conversation : Conversation
    pub advertisement : Advertisement
    pub party : participates author_id conversation ≡ true
    pub found : P.conversation.find_unique d.conversation_id w.conversations ≡ some conversation
    pub about :
        P.advertisement.find_unique conversation.advertisement_id w.advertisements
        ≡ some advertisement
    pub not_expired : now ≤ advertisement.arrival_date
    pub available :
        (advertisement.status ≡ AdvertisementStatus.open_)
        ⊎ (advertisement.status ≡ AdvertisementStatus.in_progress)
    pub fits : (x : ℕ) → offered_weight d ≡ some x → x ≤ advertisement.max_weight
    pub not_blocked :
        is_blocked_between author_id (correspondent author_id conversation) w ≡ (ok false, w)

  -- An offer that is sent comes from a party that no block separates from the other one, on an
  -- advertisement that has not expired and is open or in progress, and weighs at most its maximum.
  pub create_message_route-IsOffered :
      (now author_id : ℕ) (d : CreateMessageDto) (w : World P) {r : Message}
      → d.type ≡ MessageType.offer
      → (create_message_route now author_id d w).0 ≡ ok r
      → IsOffered now author_id d w
  unfolding create_message_route
  create_message_route-IsOffered now author_id d w t h =
      let (u, guarded, _, _) =
        >>=-ok (message_guards now author_id d) (λ _. create_message now author_id d) w h in
      let (b, o) = message_guards-offer now author_id d w t guarded in
      let (_, free) = assert_not_blocked-ok d.conversation_id author_id w b in
      let (c, ad, p, f, g, e, s, x) =
        assert_offer_allowed-ok now d.conversation_id author_id (offered_weight d) w o in
      record {
        conversation = c;
        advertisement = ad;
        party = p;
        found = f;
        about = g;
        not_expired = e;
        available = s;
        fits = x;
        not_blocked = free c f;
      }
