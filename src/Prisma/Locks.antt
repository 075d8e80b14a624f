-- ===== src/Prisma/Locks.antt =====
-- Facts about any delegate that follow from its documented behaviour: the optimistic locks of the
-- services are `updateMany` with a key and a test in the `where`.
use gp_connect_server.Common.{
  ℕ, zero, suc, ◌≡◌, refl, subst, ◌≢◌, ◌⊎◌, inl, inr, Bool, true, ◌&&◌, ◌||◌, none, some, ◌==◌,
  nat_eq, arith, if◌then◌else◌, Option-cases, nat_beq_iff,
}
use gp_connect_server.Prisma.Interface.{Delegate}

pub zero-cases : (n : ℕ) → (n ≡ 0) ⊎ (n ≢ 0)
zero-cases zero = inl refl
zero-cases (suc n) = inr (λ h. omega arith)

pub and_parts : (a b : Bool) → (a && b) ≡ true → (a ≡ true) × (b ≡ true)
and_parts a b h = ground arith

module _ {A K : Type 0} {key : A → K} (D : Delegate A K key) where
  -- A row after `updateMany`, by what the write does to it.
  pub row-written :
      (k : K) (w : A → Bool) (f : A → A) (t : D.Table) (a b : A)
      → ((x : A) → key (f x) ≡ key x)
      → D.find_unique k t ≡ some a
      → (if w a then f a else a) ≡ b
      → D.find_unique k (D.update_many w f t) ≡ some b
  row-written k w f t a b pres fa e = rw (D.find_unique-update_many k w f t pres, fa, e)

module _ {A : Type 0} {key : A → ℕ} (D : Delegate A ℕ key) where
  -- A lock on one row: nothing matched, or the row is there and satisfies the test.
  pub lock-cases :
      (k : ℕ) (q : A → Bool) (t : D.Table)
      → (D.count (λ a. key a == k && q a) t ≡ 0)
        ⊎ ((D.count (λ a. key a == k && q a) t ≢ 0)
            × ((a : A) × (D.find_unique k t ≡ some a) × (key a ≡ k) × (q a ≡ true)))
  lock-cases k q t = elim (zero-cases (D.count (λ a. key a == k && q a) t)) [
    | inl z ↦ inl z
    | inr p ↦
        let (a, m, f) = D.count-pos (λ a. key a == k && q a) t p in
        let (e, qa) = and_parts (key a == k) (q a) m in
        let e' = (nat_beq_iff (key a) k).0 e in
        inr (p, (a, subst (λ j. D.find_unique j t ≡ some a) e' f, e', qa))
  ]

  -- A row that is there and satisfies the test is matched.
  pub lock_matches :
      (k : ℕ) (q : A → Bool) (t : D.Table) (a : A)
      → D.find_unique k t ≡ some a
      → q a ≡ true
      → D.count (λ b. key b == k && q b) t ≢ 0
  lock_matches k q t a f qa z =
      ground (arith, D.key-find_unique k t a f, D.count-zero (λ b. key b == k && q b) t k a z f)

  -- An insertion that nothing clashes with draws an id that is not in use.
  pub fresh_id :
      (k : ℕ) (q : A → Bool) (t : D.Table)
      → D.count (λ a. key a == k || q a) t ≡ 0
      → D.find_unique k t ≡ none
  fresh_id k q t z = elim (Option-cases (D.find_unique k t)) [
    | inl e ↦ e
    | inr (a, e) ↦
        let free = D.count-zero (λ a. key a == k || q a) t k a z e in
        let same = D.key-find_unique k t a e in absurd (ground arith)
  ]

  pub unused_id : (k : ℕ) (t : D.Table) → D.count (λ a. key a == k) t ≡ 0 → D.find_unique k t ≡ none
  unused_id k t z = elim (Option-cases (D.find_unique k t)) [
    | inl e ↦ e
    | inr (a, e) ↦
        let free = D.count-zero (λ a. key a == k) t k a z e in
        let same = D.key-find_unique k t a e in absurd (ground arith)
  ]

  -- The row under a lock that matched carries the write; the others are as before.
  pub find_unique-locked :
      (k : ℕ) (q : A → Bool) (f : A → A) (t : D.Table) (a : A)
      → ((b : A) → key (f b) ≡ key b)
      → D.find_unique k t ≡ some a
      → q a ≡ true
      → D.find_unique k (D.update_many (λ b. key b == k && q b) f t) ≡ some (f a)
  find_unique-locked k q f t a pres fa qa =
      rw (D.find_unique-update_many k _ f t pres, fa) (ground (arith, D.key-find_unique k t a fa))

  pub find_unique-locked_ne :
      (j k : ℕ) (q : A → Bool) (f : A → A) (t : D.Table)
      → ((b : A) → key (f b) ≡ key b)
      → j ≢ k
      → D.find_unique j (D.update_many (λ b. key b == k && q b) f t) ≡ D.find_unique j t
  find_unique-locked_ne j k q f t pres ne = elim (Option-cases (D.find_unique j t)) [
    | inl e ↦ rw (D.find_unique-update_many j _ f t pres, e)
    | inr (a, e) ↦
        rw (D.find_unique-update_many j _ f t pres, e) (ground (arith, D.key-find_unique j t a e))
  ]

  -- The same for `update` with a unique `where`.
  pub find_unique-updated :
      (k : ℕ) (f : A → A) (t : D.Table) (a : A)
      → ((b : A) → key (f b) ≡ key b)
      → D.find_unique k t ≡ some a
      → D.find_unique k (D.update_many (λ b. key b == k) f t) ≡ some (f a)
  find_unique-updated k f t a pres fa =
      rw (D.find_unique-update_many k _ f t pres, fa) (ground (arith, D.key-find_unique k t a fa))

  pub find_unique-updated_ne :
      (j k : ℕ) (f : A → A) (t : D.Table)
      → ((b : A) → key (f b) ≡ key b)
      → j ≢ k
      → D.find_unique j (D.update_many (λ b. key b == k) f t) ≡ D.find_unique j t
  find_unique-updated_ne j k f t pres ne = elim (Option-cases (D.find_unique j t)) [
    | inl e ↦ rw (D.find_unique-update_many j _ f t pres, e)
    | inr (a, e) ↦
        rw (D.find_unique-update_many j _ f t pres, e) (ground (arith, D.key-find_unique j t a e))
  ]
