-- ===== src/Prisma/Absence.antt =====
-- No row of a table satisfies a test, after deletions, counts and writes.
use gp_connect_server.Common.{
  ℕ, ◌≡◌, ◌≢◌, inl, inr, Bool, false, none, some, arith, Bool-cases, Option-cases, ◌==◌, nat_eq,
}
use gp_connect_server.Prisma.Interface.{Delegate}
use gp_connect_server.Prisma.Unique.{row-before}
use gp_connect_server.Prisma.Replace.{row-kept}

-- No row of the table satisfies the test.
abbrev pub Nowhere :
    {A K : Type 0} {key : A → K} → (D : Delegate A K key) → (A → Bool) → D.Table → Type 0
Nowhere {A} {K} D refers t = (k : K) (a : A) → D.find_unique k t ≡ some a → refers a ≡ false

module _ {A K : Type 0} {key : A → K} (D : Delegate A K key) where
  pub Nowhere-delete_many : (w : A → Bool) (t : D.Table) → Nowhere D w (D.delete_many w t)
  Nowhere-delete_many w t k a f = (row-kept D k w t a f).1

  pub Nowhere-count : (w : A → Bool) (t : D.Table) → D.count w t ≡ 0 → Nowhere D w t
  Nowhere-count w t z k a f = D.count-zero w t k a z f

  -- A write that clears the reference where it is.
  pub Nowhere-cleared :
      (w : A → Bool) (f : A → A) (t : D.Table)
      → ((a : A) → key (f a) ≡ key a)
      → ((a : A) → w (f a) ≡ false)
      → Nowhere D w (D.update_many w f t)
  Nowhere-cleared w f t pres clear k b h =
      let (a, e, g) = row-before D k w f t b pres h in
      elim (Bool-cases (w a)) [ inl y ↦ ground (arith, clear a) | inr n ↦ ground arith ]

  -- A write that does not touch the reference.
  pub Nowhere-untouched :
      (w q : A → Bool) (f : A → A) (t : D.Table)
      → ((a : A) → key (f a) ≡ key a)
      → ((a : A) → w (f a) ≡ w a)
      → Nowhere D w t
      → Nowhere D w (D.update_many q f t)
  Nowhere-untouched w q f t pres same none_before k b h =
      let (a, e, g) = row-before D k q f t b pres h in
      let clear = none_before k a e in ground (arith, same a)

-- The deletion of one row.
module _ {A : Type 0} {key : A → ℕ} (D : Delegate A ℕ key) where
  pub deleted_self :
      (k : ℕ) (t : D.Table) → D.find_unique k (D.delete_many (λ a. key a == k) t) ≡ none
  deleted_self k t =
      let law = D.find_unique-delete_many k (λ a. key a == k) t in
      elim (Option-cases (D.find_unique k t)) [
        | inl z ↦ ground arith
        | inr (a, e) ↦ ground (arith, D.key-find_unique k t a e)
      ]

  pub deleted_other :
      (k j : ℕ) (t : D.Table)
      → k ≢ j
      → D.find_unique k (D.delete_many (λ a. key a == j) t) ≡ D.find_unique k t
  deleted_other k j t ne =
      let law = D.find_unique-delete_many k (λ a. key a == j) t in
      elim (Option-cases (D.find_unique k t)) [
        | inl z ↦ ground arith
        | inr (a, e) ↦ ground (arith, D.key-find_unique k t a e)
      ]
