-- ===== src/Conversations/Laws.antt =====
-- Deleting a conversation: hidden for one party, gone for both, and kept while a mission is under
-- way.
use gp_connect_server.Common.{
  ℕ, ◌≡◌, refl, sym, subst, ◌∙◌, ◌≢◌, inl, inr, Bool, true, false, Option, Option-cases, Bool-cases,
  none, some, arith, ◌==◌, nat_eq, nat_beq_iff, ◌&&◌,
}
use gp_connect_server.Schema.{Conversation, ConversationStatus, Mission, Message}
use gp_connect_server.Prisma.{Prisma, World, and_parts, find_unique-updated, find_first_unique}
use gp_connect_server.Handler.{Exception, Reason, Result, ok, err}
use gp_connect_server.Conversations.Service.{
  participates, other_deleted_at, with_side_deleted, engages, linked_mission, remove_side,
  delete_conversation, remove_for_user,
}

-- The conversation of which a user takes part, by its id.
abbrev seen_by : ℕ → ℕ → Conversation → Bool
seen_by id user_id c = c.id == id && participates user_id c

-- The mission of a conversation in a database.
abbrev pub mission_of : (P : Prisma) → P.mission.Table → Conversation → Option Mission
mission_of P t c = elim c.mission_id [ none ↦ none | some k ↦ P.mission.find_unique k t ]

-- The side that the first removal leaves for the second one.
side-other :
    (now first second : ℕ) (c : Conversation)
    → participates first c ≡ true
    → participates second c ≡ true
    → first ≢ second
    → let c' = with_side_deleted (c.shipper_id == first) now c in
      (participates second c' ≡ true)
      × (other_deleted_at second c' ≡ some now)
      × (c'.mission_id ≡ c.mission_id)
side-other now first second c p p' ne = elim (Bool-cases (c.shipper_id == first)) [
  | inl t ↦
      let i = nat_beq_iff c.shipper_id first in
      let j = nat_beq_iff c.shipper_id second in (ground arith, ground arith, ground arith)
  | inr n ↦
      let i = nat_beq_iff c.carrier_id first in
      let j = nat_beq_iff c.carrier_id second in (ground arith, ground arith, ground arith)
]

side-mission_id :
    (b : Bool) (now : ℕ) (c : Conversation) → (with_side_deleted b now c).mission_id ≡ c.mission_id
side-mission_id true now c = refl
side-mission_id false now c = refl

side-id : (b : Bool) (now : ℕ) (c : Conversation) → (with_side_deleted b now c).id ≡ c.id
side-id true now c = refl
side-id false now c = refl

mission_of-same :
    (P : Prisma) (t t' : P.mission.Table) (c c' : Conversation)
    → t' ≡ t
    → c'.mission_id ≡ c.mission_id
    → mission_of P t' c' ≡ mission_of P t c
mission_of-same P t t' c c' e same = rw (e, same) refl

module _ {P : Prisma} where
  seen-found :
      (id user_id : ℕ) (w : World P) (c : Conversation)
      → P.conversation.find_first (seen_by id user_id) w.conversations ≡ some c
      → (P.conversation.find_unique id w.conversations ≡ some c) × (participates user_id c ≡ true)
  seen-found id user_id w c e =
      let (m, f) = P.conversation.find_first-some (seen_by id user_id) w.conversations c e in
      let (k, p) = and_parts (c.id == id) (participates user_id c) m in
      (
        subst (λ j. P.conversation.find_unique j w.conversations ≡ some c)
            ((nat_beq_iff c.id id).0 k) f,
        p,
      )

  found-seen :
      (id user_id : ℕ) (w : World P) (c : Conversation)
      → P.conversation.find_unique id w.conversations ≡ some c
      → participates user_id c ≡ true
      → P.conversation.find_first (seen_by id user_id) w.conversations ≡ some c
  found-seen id user_id w c f p =
      let k = P.conversation.key-find_unique id w.conversations c f in
      find_first_unique P.conversation (seen_by id user_id) w.conversations c
        (λ a b fa fb ma mb.
          (nat_beq_iff a.id id).0 ((and_parts (a.id == id) (participates user_id a) ma).0)
          ∙ sym ((nat_beq_iff b.id id).0 ((and_parts (b.id == id) (participates user_id b) mb).0)))
        (subst (λ j. P.conversation.find_unique j w.conversations ≡ some c) (sym k) f)
        (ground (arith, nat_beq_iff c.id id))

  linked_mission-runs :
      (c : Conversation) (w : World P) → linked_mission c w ≡ (ok (mission_of P w.missions c), w)
  linked_mission-runs c w = elim (Option-cases c.mission_id) [
    | inl z ↦ ground arith
    | inr (k, e) ↦ ground arith
  ]

  -- What a removal by a party of the conversation does.
  remove_for_user-runs :
      (now id user_id : ℕ) (w : World P) (c : Conversation)
      → P.conversation.find_unique id w.conversations ≡ some c
      → participates user_id c ≡ true
      → remove_for_user now id user_id w
        ≡ remove_side now id user_id c (mission_of P w.missions c) w
  unfolding remove_for_user
  remove_for_user-runs now id user_id w c f p =
      ground (arith, found-seen id user_id w c f p, linked_mission-runs c w)

  -- The first removal hides the conversation for one party.
  remove_side-first :
      (now id user_id : ℕ) (c : Conversation) (m : Option Mission) (w : World P)
      → P.conversation.find_unique id w.conversations ≡ some c
      → other_deleted_at user_id c ≡ none
      → remove_side now id user_id c m w ≡ (
        ok tt,
        record w {
          conversations =
              P.conversation.update_many
                (λ x. x.id == id)
                (with_side_deleted (c.shipper_id == user_id) now)
                w.conversations;
        },
      )
  remove_side-first now id user_id c m w f o = ground arith

  remove_side-last :
      (now id user_id : ℕ) (c : Conversation) (m : Option Mission) (t : ℕ) (w : World P)
      → other_deleted_at user_id c ≡ some t
      → engages m ≡ false
      → remove_side now id user_id c m w ≡ delete_conversation id w
  remove_side-last now id user_id c m t w o g = ground arith

  -- The second removal of a conversation about a mission under way.
  remove_side-engaged :
      (now id user_id : ℕ) (c : Conversation) (m : Option Mission) (t : ℕ) (w : World P)
      → P.conversation.find_unique id w.conversations ≡ some c
      → other_deleted_at user_id c ≡ some t
      → engages m ≡ true
      → remove_side now id user_id c m w ≡ (
        ok tt,
        record w {
          conversations =
              P.conversation.update_many
                (λ x. x.id == id)
                (λ x.
                  with_side_deleted
                    (c.shipper_id == user_id)
                    now
                    (record x { status = ConversationStatus.deleted }))
                w.conversations;
        },
      )
  remove_side-engaged now id user_id c m t w f o g = ground arith

  remove_for_user-unseen :
      (now id user_id : ℕ) (w : World P) (c : Conversation)
      → P.conversation.find_unique id w.conversations ≡ some c
      → participates user_id c ≡ false
      → remove_for_user now id user_id w ≡ (err (Exception.forbidden Reason.unspecified), w)
  unfolding remove_for_user
  remove_for_user-unseen now id user_id w c f n =
      elim (Option-cases (P.conversation.find_first (seen_by id user_id) w.conversations)) [
        | inl z ↦ ground arith
        | inr (x, e) ↦ let (g, p) = seen-found id user_id w x e in absurd (ground arith)
      ]

  delete_conversation-gone :
      (id : ℕ) (w : World P) (c : Conversation)
      → P.conversation.find_unique id w.conversations ≡ some c
      → let w' = (delete_conversation id w).1 in
        ((delete_conversation id w).0 ≡ ok tt)
        × (P.conversation.find_unique id w'.conversations ≡ none)
        × ((k : ℕ) (x : Message)
            → P.message.find_unique k w'.messages ≡ some x
            → x.conversation_id ≢ id)
  unfolding delete_conversation
  delete_conversation-gone id w c f = (
    ground arith,
    ground (
      arith,
      P.conversation.find_unique-delete_many id (λ x. x.id == id) w.conversations,
      P.conversation.key-find_unique id w.conversations c f,
    ),
    λ k x e same.
        let law = P.message.find_unique-delete_many k (λ m. m.conversation_id == id) w.messages in
        elim (Option-cases (P.message.find_unique k w.messages)) [
          | inl z ↦ absurd (ground arith)
          | inr (y, g) ↦ elim (Bool-cases (y.conversation_id == id)) [
            | inl t ↦ absurd (ground arith)
            | inr t ↦ absurd (ground (arith, nat_beq_iff y.conversation_id id))
          ]
        ],
  )

  -- Once both parties have removed a conversation that no mission under way refers to, it is gone,
  -- with all of its messages.
  pub remove_for_user-both :
      (now now' id first second : ℕ) (w : World P) (c : Conversation)
      → P.conversation.find_unique id w.conversations ≡ some c
      → participates first c ≡ true
      → participates second c ≡ true
      → first ≢ second
      → other_deleted_at first c ≡ none
      → engages (mission_of P w.missions c) ≡ false
      → let w1 = (remove_for_user now id first w).1 in
        let w2 = (remove_for_user now' id second w1).1 in
        ((remove_for_user now' id second w1).0 ≡ ok tt)
        × (P.conversation.find_unique id w2.conversations ≡ none)
        × ((k : ℕ) (x : Message)
            → P.message.find_unique k w2.messages ≡ some x
            → x.conversation_id ≢ id)
  remove_for_user-both now now' id first second w c f p p' ne o g =
      let m = mission_of P w.missions c in
      let b = c.shipper_id == first in
      let side = with_side_deleted b now in
      let w1 = (remove_for_user now id first w).1 in
      let r1 =
        remove_for_user-runs now id first w c f p ∙ remove_side-first now id first c m w f o in
      let (seen, other, same) = side-other now first second c p p' ne in
      let u =
        find_unique-updated P.conversation id side w.conversations c (λ x. side-id b now x) f in
      let f1 : P.conversation.find_unique id w1.conversations ≡ some (side c) = rw r1 u in
      let r2 = remove_for_user-runs now' id second w1 (side c) f1 seen in
      let m1 : mission_of P w1.missions (side c) ≡ m =
        mission_of-same P w.missions w1.missions c (side c) (rw r1 refl) same in
      let last =
        remove_side-last now' id second (side c) (mission_of P w1.missions (side c)) now w1 other
          (rw m1 g) in
      subst
        (λ (z : Result (Unit {0}) × World P).
          (z.0 ≡ ok tt)
          × (P.conversation.find_unique id z.1.conversations ≡ none)
          × ((k : ℕ) (x : Message)
              → P.message.find_unique k z.1.messages ≡ some x
              → x.conversation_id ≢ id))
        (sym (r2 ∙ last)) (delete_conversation-gone id w1 (side c) f1)

  -- A conversation about a mission under way outlives every removal, with all that was said in it.
  pub remove_for_user-engaged :
      (now id user_id : ℕ) (w : World P) (c : Conversation)
      → P.conversation.find_unique id w.conversations ≡ some c
      → engages (mission_of P w.missions c) ≡ true
      → let w' = (remove_for_user now id user_id w).1 in
        ((c' : Conversation) × (P.conversation.find_unique id w'.conversations ≡ some c')
          × (c'.mission_id ≡ c.mission_id))
        × (w'.messages ≡ w.messages)
        × (w'.offers ≡ w.offers)
        × (w'.appointments ≡ w.appointments)
  remove_for_user-engaged now id user_id w c f g = elim (Bool-cases (participates user_id c)) [
    | inr n ↦
        let r = remove_for_user-unseen now id user_id w c f n in
        rw r ((c, f, refl), refl, refl, refl)
    | inl p ↦
        let r = remove_for_user-runs now id user_id w c f p in
        let b = c.shipper_id == user_id in
        elim (Option-cases (other_deleted_at user_id c)) [
          | inl o ↦
              let side = with_side_deleted b now in
              let u =
                find_unique-updated P.conversation id side w.conversations c (λ x. side-id b now x)
                  f in
              rw (r ∙ remove_side-first now id user_id c (mission_of P w.missions c) w f o)
                ((side c, u, side-mission_id b now c), refl, refl, refl)
          | inr (t, o) ↦
              let side = λ (x : Conversation).
                with_side_deleted b now (record x { status = ConversationStatus.deleted }) in
              let u =
                find_unique-updated P.conversation id side w.conversations c
                  (λ x. side-id b now (record x { status = ConversationStatus.deleted })) f in
              rw (r ∙ remove_side-engaged now id user_id c (mission_of P w.missions c) t w f o g) (
                (
                  side c,
                  u,
                  side-mission_id b now (record c { status = ConversationStatus.deleted }),
                ),
                refl,
                refl,
                refl,
              )
        ]
  ]
