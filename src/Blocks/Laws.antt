-- ===== src/Blocks/Laws.antt =====
-- What blocking and unblocking mean to the test that the other services make.
use gp_connect_server.Common.{
  ℕ, is_set, ◌≡◌, refl, ap, subst, inl, inr, true, false, Option, Option-cases, Bool-cases, none,
  some, arith, ◌==◌, nat_eq, nat_beq_iff, ◌||◌, ◌&&◌,
}
use gp_connect_server.Schema.{UserBlock}
use gp_connect_server.Prisma.{Prisma, Delegate, World, user_block_key, zero-cases, and_parts}
use gp_connect_server.Handler.{ok}
use gp_connect_server.Blocks.Service.{blocks_user, block, unblock, is_blocked_between}

abbrev pub block_row : ℕ → ℕ → UserBlock
block_row a b = record { blocker_id = a; blocked_id = b }

blocks_user_iff : (a b : ℕ) (x : UserBlock) → blocks_user a b x ≡ true → x ≡ block_row a b
blocks_user_iff a b x h =
    let (p, q) = and_parts (x.blocker_id == a) (x.blocked_id == b) h in
    let p' = (nat_beq_iff x.blocker_id a).0 p in let q' = (nat_beq_iff x.blocked_id b).0 q in cc

user_block_key-blocks_user :
    (a b : ℕ) (x : UserBlock) → user_block_key x ≡ (a, b) → blocks_user a b x ≡ true
user_block_key-blocks_user a b x k =
    let p = ap (λ (u : ℕ × ℕ). u.0) k in let q = ap (λ (u : ℕ × ℕ). u.1) k in ground arith

-- A row that a count found, under the key that it is known to have.
row-found :
    (D : Delegate UserBlock (ℕ × ℕ) user_block_key) (a b : ℕ) (t : D.Table) (x : UserBlock)
    → blocks_user a b x ≡ true
    → D.find_unique (user_block_key x) t ≡ some x
    → D.find_unique (a, b) t ≡ some (block_row a b)
row-found D a b t x h e =
    subst (λ y. D.find_unique (user_block_key y) t ≡ some y) (blocks_user_iff a b x h) e

module _ {P : Prisma} where
  -- The test is symmetric and tells whether one of the two rows is there.
  is_blocked_between-true :
      (a b : ℕ) (w : World P)
      → P.user_block.find_unique (a, b) w.blocks ≡ some (block_row a b)
      → ((is_blocked_between a b w) ≡ (ok true, w)) × (is_blocked_between b a w ≡ (ok true, w))
  unfolding is_blocked_between
  is_blocked_between-true a b w f =
      let c = λ (p q : ℕ).
        zero-cases (P.user_block.count (λ x. blocks_user p q x || blocks_user q p x) w.blocks) in
      (
        elim (c a b) [
          | inl z ↦
              let no = P.user_block.count-zero _ w.blocks (a, b) (block_row a b) z f in
              absurd (ground arith)
          | inr n ↦ ground arith
        ],
        elim (c b a) [
          | inl z ↦
              let no = P.user_block.count-zero _ w.blocks (a, b) (block_row a b) z f in
              absurd (ground arith)
          | inr n ↦ ground arith
        ],
      )

  is_blocked_between-false :
      (a b : ℕ) (w : World P)
      → P.user_block.find_unique (a, b) w.blocks ≡ none
      → P.user_block.find_unique (b, a) w.blocks ≡ none
      → is_blocked_between a b w ≡ (ok false, w)
  unfolding is_blocked_between
  is_blocked_between-false a b w f g =
      elim (zero-cases
        (P.user_block.count (λ x. blocks_user a b x || blocks_user b a x) w.blocks)) [
          | inl z ↦ ground arith
          | inr n ↦
              let (x, m, e) = P.user_block.count-pos _ w.blocks n in
              elim (Bool-cases (blocks_user a b x)) [
                | inl t ↦ let s = row-found P.user_block a b w.blocks x t e in absurd (ground arith)
                | inr t ↦
                    let s = row-found P.user_block b a w.blocks x (ground arith) e in
                    absurd (ground arith)
              ]
        ]

  -- A block that succeeds leaves the row of the two users.
  block-stored :
      (a b : ℕ) (w : World P) {r : Option UserBlock}
      → (block a b w).0 ≡ ok r
      → P.user_block.find_unique (a, b) (block a b w).1.blocks ≡ some (block_row a b)
  unfolding block
  block-stored a b w h = elim (zero-cases (P.user_block.count (blocks_user a b) w.blocks)) [
    | inl z ↦ elim (Option-cases (P.user_block.find_unique (a, b) w.blocks)) [
      | inl e ↦
          let f = P.user_block.find_unique-insert_self (block_row a b) w.blocks e in ground arith
      | inr (x, e) ↦
          let no = P.user_block.count-zero _ w.blocks (a, b) x z e in
          let k =
            user_block_key-blocks_user a b x (P.user_block.key-find_unique (a, b) w.blocks x e) in
          absurd (ground arith)
    ]
    | inr n ↦
        let (x, m, e) = P.user_block.count-pos _ w.blocks n in
        let s = row-found P.user_block a b w.blocks x m e in ground arith
  ]

  -- Once one of two users has blocked the other, the test finds them blocked, whoever asks.
  pub block-is_blocked_between :
      (a b : ℕ) (w : World P) {r : Option UserBlock}
      → (block a b w).0 ≡ ok r
      → let w' = (block a b w).1 in
        (is_blocked_between a b w' ≡ (ok true, w')) × (is_blocked_between b a w' ≡ (ok true, w'))
  block-is_blocked_between a b w h =
      is_blocked_between-true a b (block a b w).1 (block-stored a b w h)

  block-guards :
      (a b : ℕ) (w : World P) {r : Option UserBlock}
      → (block a b w).0 ≡ ok r
      → ((a == b) ≡ false)
        × ((is_set (P.user.find_unique a w.users) && is_set (P.user.find_unique b w.users)) ≡ true)
        × ((block a b w).1.users ≡ w.users)
  unfolding block
  block-guards a b w h = ground arith

  -- A block where the row is there.
  block-present :
      (a b : ℕ) (w : World P)
      → (a == b) ≡ false
      → (is_set (P.user.find_unique a w.users) && is_set (P.user.find_unique b w.users)) ≡ true
      → P.user_block.find_unique (a, b) w.blocks ≡ some (block_row a b)
      → block a b w ≡ (ok (some (block_row a b)), w)
  unfolding block
  block-present a b w ne there f =
      elim (Option-cases (P.user_block.find_first (blocks_user a b) w.blocks)) [
        | inl z ↦
            let no = P.user_block.find_first-none _ w.blocks (a, b) (block_row a b) z f in
            absurd (ground arith)
        | inr (x, e) ↦
            let (m, _) = P.user_block.find_first-some _ w.blocks x e in
            let s = blocks_user_iff a b x m in
            elim (zero-cases (P.user_block.count (blocks_user a b) w.blocks)) [
              | inl z ↦
                  let no = P.user_block.count-zero _ w.blocks (a, b) (block_row a b) z f in
                  absurd (ground arith)
              | inr n ↦ ground arith
            ]
      ]

  -- Blocking is idempotent: a second block returns the row that is there and writes nothing.
  pub block-twice :
      (a b : ℕ) (w : World P) {r : Option UserBlock}
      → (block a b w).0 ≡ ok r
      → block a b (block a b w).1 ≡ (ok (some (block_row a b)), (block a b w).1)
  block-twice a b w h =
      let (ne, there, same) = block-guards a b w h in
      block-present a b (block a b w).1 ne (rw same there) (block-stored a b w h)

  -- After an unblock the two users are free of each other, unless the other one blocks too.
  pub unblock-is_blocked_between :
      (a b : ℕ) (w : World P)
      → P.user_block.find_unique (b, a) w.blocks ≡ none
      → is_blocked_between a b (unblock a b w).1 ≡ (ok false, (unblock a b w).1)
  unfolding unblock
  unblock-is_blocked_between a b w free =
      let gone =
        λ (p q : ℕ). P.user_block.find_unique-delete_many (p, q) (blocks_user a b) w.blocks in
      is_blocked_between-false a b (unblock a b w).1
        (elim (Option-cases (P.user_block.find_unique (a, b) w.blocks)) [
          | inl z ↦ rw (gone a b, z) refl
          | inr (x, e) ↦
              let k = P.user_block.key-find_unique (a, b) w.blocks x e in
              rw (gone a b, e, user_block_key-blocks_user a b x k) refl
        ])
        (rw (gone b a, free) refl)
