-- ===== src/Conversations/Opening.antt =====
-- Opening a conversation: never across a block, and once for each advertisement, shipper and
-- carrier.
use gp_connect_server.Common.{
  ℕ, ◌≡◌, refl, subst, ap, ◌∙◌, ◌⊎◌, inl, inr, Bool, true, Option, Option-cases, none, some, List,
  map, [], ◌∷◌, arith, ◌==◌, nat_eq, ◌||◌,
}
use gp_connect_server.Schema.{Conversation, MissionPackage, UserBlock}
use gp_connect_server.Prisma.{Prisma, World, fresh_id}
use gp_connect_server.Handler.{
  Exception, Reason, ok, err, ◌>>=◌, throw_if, create_many, mission_packages,
}
use gp_connect_server.Handler.Inversion.{
  >>=-ok, read-ok, transaction-ok, transaction-err, catch_unique-ok,
}
use gp_connect_server.Missions.{same_package}
use gp_connect_server.Blocks.{block, is_blocked_between}
use gp_connect_server.Blocks.Laws.{block-is_blocked_between}
use gp_connect_server.Conversations.Service.{
  CreateConversationDto, of_trio, new_conversation, new_dossier, connect_rows, insert_conversation,
  build_mission_relation, store_conversation, existing, store_or_existing, assert_packages_owned_by,
  create_conversation,
}

of_trio-new : (d : CreateConversationDto) (k : ℕ) → of_trio d (new_conversation d k) ≡ true
of_trio-new d k = ground arith

module _ {P : Prisma} where
  create_conversation-blocked :
      (d : CreateConversationDto) (w : World P)
      → is_blocked_between d.shipper_id d.carrier_id w ≡ (ok true, w)
      → create_conversation d w ≡ (err (Exception.forbidden Reason.interaction_unavailable), w)
  unfolding create_conversation
  create_conversation-blocked d w b = ground arith

  -- After a block no conversation is opened between the two users.
  pub block-create_conversation :
      (a b : ℕ) (d : CreateConversationDto) (w : World P) {r : Option UserBlock}
      → (block a b w).0 ≡ ok r
      → ((d.shipper_id ≡ a) × (d.carrier_id ≡ b)) ⊎ ((d.shipper_id ≡ b) × (d.carrier_id ≡ a))
      → create_conversation d (block a b w).1
        ≡ (err (Exception.forbidden Reason.interaction_unavailable), (block a b w).1)
  block-create_conversation a b d w h k =
      let w' = (block a b w).1 in
      let (x, y) = block-is_blocked_between a b w h in
      create_conversation-blocked d w'
        (elim k [ inl (s, c) ↦ rw (s, c) x | inr (s, c) ↦ rw (s, c) y ])

  create_many-conversations :
      (rows : List MissionPackage) (w : World P)
      → (create_many mission_packages same_package rows w).1.conversations ≡ w.conversations
  unfolding create_many
  create_many-conversations [] w = refl
  create_many-conversations (a ∷ rows) w =
      let w1 = record w { mission_packages = P.mission_package.insert a w.mission_packages } in
      ground (arith, create_many-conversations rows w1)

  build-conversations :
      (d : CreateConversationDto) (o : Option ℕ) (w : World P)
      → (build_mission_relation d o w).1.conversations ≡ w.conversations
  unfolding build_mission_relation
  build-conversations d (some mission_id) w = ground arith
  build-conversations d none w =
      let w1 = record w { missions = P.mission.insert (new_dossier d) w.missions } in
      let rows : List MissionPackage =
        map (λ p. record { mission_id = d.new_mission_id; package_id = p }) d.package_ids in
      ground (arith, create_many-conversations rows w1)

  connect_rows-world : (d : CreateConversationDto) (w : World P) → (connect_rows d w).1 ≡ w
  unfolding connect_rows
  connect_rows-world d w = ground arith

  insert_conversation-ok :
      (d : CreateConversationDto) (k : ℕ) (w : World P) {x : Conversation}
      → (insert_conversation d k w).0 ≡ ok x
      → (P.conversation.count (λ c. c.id == d.new_id || of_trio d c) w.conversations ≡ 0)
        × (x ≡ new_conversation d k)
        × ((insert_conversation d k w).1.conversations
            ≡ P.conversation.insert (new_conversation d k) w.conversations)
  insert_conversation-ok d k w h = ground arith

  -- A conversation that is stored is the first of its trio, under a fresh id.
  store_conversation-ok :
      (d : CreateConversationDto) (w : World P) {x : Conversation}
      → (store_conversation d w).0 ≡ ok x
      → (P.conversation.count (λ c. c.id == d.new_id || of_trio d c) w.conversations ≡ 0)
        × (of_trio d x ≡ true)
        × (P.conversation.find_unique x.id (store_conversation d w).1.conversations ≡ some x)
  unfolding store_conversation
  store_conversation-ok d w h =
      let rest =
        λ (u : Unit {0}). build_mission_relation d d.mission_id >>= insert_conversation d in
      let (h1, t) = transaction-ok (connect_rows d >>= rest) w h in
      let (u, _, q, h2) = read-ok (connect_rows d) rest w (connect_rows-world d w) h1 in
      let (k, built, q', h3) =
        >>=-ok (build_mission_relation d d.mission_id) (insert_conversation d) w h2 in
      let w1 = (build_mission_relation d d.mission_id w).1 in
      let same = build-conversations d d.mission_id w in
      let (z, e, wrote) = insert_conversation-ok d k w1 h3 in
      let new = new_conversation d k in
      let free = fresh_id P.conversation d.new_id (of_trio d) w1.conversations z in
      let stored = P.conversation.find_unique-insert_self new w1.conversations free in
      (
        subst (λ t. P.conversation.count (λ c. c.id == d.new_id || of_trio d c) t ≡ 0) same z,
        rw e (of_trio-new d k),
        rw (e, t, q, q', wrote) stored,
      )

  store_conversation-err :
      (d : CreateConversationDto) (w : World P) {e : Exception}
      → (store_conversation d w).0 ≡ err e
      → (store_conversation d w).1 ≡ w
  unfolding store_conversation
  store_conversation-err d w h =
      transaction-err
        (connect_rows d >>= λ _. build_mission_relation d d.mission_id >>= insert_conversation d) w
        h

  existing-ok :
      (d : CreateConversationDto) (w : World P) {x : Conversation}
      → (existing d w).0 ≡ ok x
      → (of_trio d x ≡ true)
        × (P.conversation.find_unique x.id w.conversations ≡ some x)
        × ((existing d w).1 ≡ w)
  existing-ok d w {x} h =
      elim (Option-cases (P.conversation.find_first (of_trio d) w.conversations)) [
        | inl z ↦ absurd (ground arith)
        | inr (c, e) ↦
            let (o, f) = P.conversation.find_first-some (of_trio d) w.conversations c e in
            let same : c ≡ x = ground arith in
            (
              subst (λ y. of_trio d y ≡ true) same o,
              subst (λ y. P.conversation.find_unique y.id w.conversations ≡ some y) same f,
              ground arith,
            )
      ]

  -- The packages are only read.
  assert_packages_owned_by-world :
      (package_ids : List ℕ) (shipper_id : ℕ) (w : World P)
      → (assert_packages_owned_by package_ids shipper_id w).1 ≡ w
  unfolding assert_packages_owned_by
  assert_packages_owned_by-world [] shipper_id w = refl
  assert_packages_owned_by-world (p ∷ ps) shipper_id w = ground arith

  is_blocked_between-world : (a b : ℕ) (w : World P) → (is_blocked_between a b w).1 ≡ w
  unfolding is_blocked_between
  is_blocked_between-world a b w = refl

  -- The insertion, or the conversation of the trio that is there.
  store_or_existing-ok :
      (d : CreateConversationDto) (w : World P) {x : Conversation}
      → (store_or_existing d w).0 ≡ ok x
      → (of_trio d x ≡ true)
        × (P.conversation.find_unique x.id (store_or_existing d w).1.conversations ≡ some x)
  store_or_existing-ok d w h = elim (catch_unique-ok (store_conversation d) (existing d) w h) [
    | inl (e, q) ↦ let (z, o, f) = store_conversation-ok d w e in (o, rw q f)
    | inr (x, e, q, g) ↦
        let (o, f, same) = existing-ok d (store_conversation d w).1 g in (o, rw (q, same) f)
  ]

  -- Where the trio has a conversation, nothing is written.
  store_or_existing-again :
      (d : CreateConversationDto) (w : World P) {x : Conversation} (c : Conversation)
      → P.conversation.find_unique c.id w.conversations ≡ some c
      → of_trio d c ≡ true
      → (store_or_existing d w).0 ≡ ok x
      → (of_trio d x ≡ true) × ((store_or_existing d w).1 ≡ w)
  store_or_existing-again d w c f o h =
      elim (catch_unique-ok (store_conversation d) (existing d) w h) [
        | inl (e, q) ↦
            let (z, o', f') = store_conversation-ok d w e in
            let no = P.conversation.count-zero _ w.conversations c.id c z f in absurd (ground arith)
        | inr (x, e, q, g) ↦
            let (o', f', same) = existing-ok d (store_conversation d w).1 g in
            (o', ap (λ z. z.1) q ∙ (same ∙ store_conversation-err d w e))
      ]

  -- How a creation that succeeds ended: its guards only read.
  create_conversation-store :
      (d : CreateConversationDto) (w : World P) {x : Conversation}
      → (create_conversation d w).0 ≡ ok x
      → ((store_or_existing d w).0 ≡ ok x) × (create_conversation d w ≡ store_or_existing d w)
  unfolding create_conversation
  create_conversation-store d w h =
      let packages = assert_packages_owned_by d.package_ids d.shipper_id in
      let checked =
        λ (b : Bool). throw_if {P = P} b (Exception.forbidden Reason.interaction_unavailable) in
      let rest = λ (b : Bool). checked b >>= λ _. packages >>= λ _. store_or_existing d in
      let (b, _, q, h1) =
        read-ok (is_blocked_between d.shipper_id d.carrier_id) rest w
          (is_blocked_between-world d.shipper_id d.carrier_id w) h in
      let (u, _, q', h2) =
        read-ok (checked b) (λ _. packages >>= λ _. store_or_existing d) w refl h1 in
      let (u', _, q'', h3) =
        read-ok packages (λ _. store_or_existing d) w
          (assert_packages_owned_by-world d.package_ids d.shipper_id w) h2 in
      (h3, q ∙ (q' ∙ q''))

  -- Two requests for one advertisement, shipper and carrier, each with ids of its own: if both succeed
  -- the second returns a conversation of the same three and writes nothing.
  pub create_conversation-twice :
      (d d' : CreateConversationDto) (w : World P) {x y : Conversation}
      → d'.advertisement_id ≡ d.advertisement_id
      → d'.shipper_id ≡ d.shipper_id
      → d'.carrier_id ≡ d.carrier_id
      → (create_conversation d w).0 ≡ ok x
      → let w' = (create_conversation d w).1 in
        (create_conversation d' w').0 ≡ ok y
        → (of_trio d y ≡ true) × ((create_conversation d' w').1 ≡ w')
  create_conversation-twice d d' w {x} a s c h h' =
      let w' = (create_conversation d w).1 in
      let (g, q) = create_conversation-store d w h in
      let (o, f) = store_or_existing-ok d w g in
      let (g', q') = create_conversation-store d' w' h' in
      let f' : P.conversation.find_unique x.id w'.conversations ≡ some x = rw q f in
      let (o', same) = store_or_existing-again d' w' x f' (rw (a, s, c) o) g' in
      (rw (a, s, c) at o', ap (λ z. z.1) q' ∙ same)
