-- ===== src/Prisma/Replace.antt =====
-- What is found where the rows of a test have been deleted, or replaced by one row.
use gp_connect_server.Common.{
  ◌≡◌, sym, ◌∙◌, ◌≢◌, inl, inr, Bool, true, false, none, some, arith, Option-cases, subst, Eq, ◌==◌,
  Bool-cases,
}
use gp_connect_server.Prisma.Interface.{Delegate}

module _ {A K : Type 0} {key : A → K} (D : Delegate A K key) where
  -- A row that is there after a deletion was there before, and was not to be deleted.
  pub row-kept :
      (k : K) (w : A → Bool) (t : D.Table) (a : A)
      → D.find_unique k (D.delete_many w t) ≡ some a
      → (D.find_unique k t ≡ some a) × (w a ≡ false)
  row-kept k w t a h =
      let law = D.find_unique-delete_many k w t in
      elim (Option-cases (D.find_unique k t)) [
        | inl z ↦ absurd (ground arith)
        | inr (b, e) ↦ elim (Bool-cases (w b)) [
          | inl x ↦ absurd (ground arith)
          | inr y ↦ (ground arith, ground arith)
        ]
      ]

  -- No row that satisfies a test is left where all rows of a wider one are deleted.
  pub find_first-deleted :
      (v w : A → Bool) (t : D.Table)
      → ((a : A) → v a ≡ true → w a ≡ true)
      → D.find_first v (D.delete_many w t) ≡ none
  find_first-deleted v w t wide = elim (Option-cases (D.find_first v (D.delete_many w t))) [
    | inl z ↦ z
    | inr (a, e) ↦
        let (va, f) = D.find_first-some v (D.delete_many w t) a e in
        let (_, wa) = row-kept (key a) w t a f in let wa' = wide a va in absurd (ground arith)
  ]

module _ {A K : Type 0} ⦃q : Eq K⦄ {key : A → K} (D : Delegate A K key) where
  -- The one row that satisfies the test is found, if the rows beside it do not.
  pub find_first-only :
      (v : A → Bool) (t : D.Table) (a : A)
      → D.find_unique (key a) t ≡ none
      → v a ≡ true
      → ((b : A) → D.find_unique (key b) t ≡ some b → v b ≡ false)
      → D.find_first v (D.insert a t) ≡ some a
  find_first-only v t a free va others =
      let there = D.find_unique-insert_self a t free in
      elim (Option-cases (D.find_first v (D.insert a t))) [
        | inl z ↦
            let x = D.find_first-none v (D.insert a t) (key a) a z there in absurd (ground arith)
        | inr (b, e) ↦
            let (vb, f) = D.find_first-some v (D.insert a t) b e in
            elim (Bool-cases (key b == key a)) [
              | inl y ↦
                  let same = (q.beq_iff (key b) (key a)).0 y in
                  let f' = subst (λ k. D.find_unique k (D.insert a t) ≡ some b) same f in
                  e ∙ (sym f' ∙ there)
              | inr n ↦
                  let ne : key b ≢ key a = ground (arith, q.beq_iff (key b) (key a)) in
                  let old = D.find_unique-insert_ne (key b) a t ne in
                  let no = others b (sym old ∙ f) in absurd (ground arith)
            ]
      ]

  -- The one row that satisfies the test is found, after a purge of the rows that did.
  pub find_first-replaced :
      (v w : A → Bool) (t : D.Table) (a : A)
      → ((b : A) → v b ≡ true → w b ≡ true)
      → D.find_unique (key a) (D.delete_many w t) ≡ none
      → v a ≡ true
      → D.find_first v (D.insert a (D.delete_many w t)) ≡ some a
  find_first-replaced v w t a wide free va = find_first-only v (D.delete_many w t) a free va (λ b f.
      let (_, spared) = row-kept D (key b) w t b f in
      elim (Bool-cases (v b)) [ inl y ↦ let yes = wide b y in absurd (ground arith) | inr n ↦ n ])
