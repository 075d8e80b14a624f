-- ===== src/Prisma/Unique.antt =====
-- `findUnique` by a second unique key (`@@unique`), which the delegates offer as `find_first`.
use gp_connect_server.Common.{
  ◌≡◌, sym, ◌∙◌, inl, inr, Bool, true, some, arith, if◌then◌else◌, Option-cases, subst,
}
use gp_connect_server.Prisma.Interface.{Delegate}

module _ {A K : Type 0} {key : A → K} (D : Delegate A K key) where
  -- At most one row satisfies the test: what a `@@unique` promises of the key's equation.
  abbrev pub AtMostOne : (A → Bool) → D.Table → Type 0
  AtMostOne w t =
      (a b : A)
      → D.find_unique (key a) t ≡ some a
      → D.find_unique (key b) t ≡ some b
      → w a ≡ true
      → w b ≡ true
      → key a ≡ key b

  pub find_first_unique :
      (w : A → Bool) (t : D.Table) (a : A)
      → AtMostOne w t
      → D.find_unique (key a) t ≡ some a
      → w a ≡ true
      → D.find_first w t ≡ some a
  find_first_unique w t a one fa wa = elim (Option-cases (D.find_first w t)) [
    | inl z ↦ let x = D.find_first-none w t (key a) a z fa in absurd (ground arith)
    | inr (b, e) ↦
        let (wb, fb) = D.find_first-some w t b e in
        let same = one b a fb fa wb wa in
        let fb' = subst (λ k. D.find_unique k t ≡ some b) same fb in e ∙ (sym fb' ∙ fa)
  ]

  -- A row after `updateMany`, and the row that it was.
  pub row-before :
      (k : K) (w : A → Bool) (f : A → A) (t : D.Table) (b : A)
      → ((x : A) → key (f x) ≡ key x)
      → D.find_unique k (D.update_many w f t) ≡ some b
      → (a : A) × (D.find_unique k t ≡ some a) × ((if w a then f a else a) ≡ b)
  row-before k w f t b pres h =
      let law = D.find_unique-update_many k w f t pres in
      elim (Option-cases (D.find_unique k t)) [
        | inl z ↦ absurd (ground arith)
        | inr (a, e) ↦ (a, e, ground arith)
      ]

  pub AtMostOne-update_many :
      (w q : A → Bool) (f : A → A) (t : D.Table)
      → ((x : A) → key (f x) ≡ key x)
      → ((x : A) → w (f x) ≡ w x)
      → AtMostOne w t
      → AtMostOne w (D.update_many q f t)
  AtMostOne-update_many w q f t pres same one a b fa fb wa wb =
      let (a', ea, ga) = row-before (key a) q f t a pres fa in
      let (b', eb, gb) = row-before (key b) q f t b pres fb in
      let ka = D.key-find_unique (key a) t a' ea in
      let kb = D.key-find_unique (key b) t b' eb in
      sym ka
      ∙ (one a' b' (subst (λ k. D.find_unique k t ≡ some a') (sym ka) ea)
            (subst (λ k. D.find_unique k t ≡ some b') (sym kb) eb) (ground (arith, same a'))
            (ground (arith, same b'))
          ∙ kb)
