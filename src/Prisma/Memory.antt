-- ===== src/Prisma/Memory.antt =====
-- A delegate over a list of rows, the last inserted first. It shows that the documented behaviour
-- that `Delegate` lists can be had, and lets the handlers run on concrete data.
use gp_connect_server.Common.{
  ℕ, ◌+◌, ◌≤◌, ◌≡◌, refl, ◌≢◌, inl, inr, Bool, true, false, not, ◌&&◌, Option, none, some, List, [],
  ◌∷◌, Eq, ◌==◌, arith, if◌then◌else◌, Bool-cases, Option-cases, nat_beq,
}
use gp_connect_server.Prisma.Locks.{zero-cases}
use gp_connect_server.Prisma.Interface.{Delegate, Within, written, kept}

module _ {A : Type 0} where
  abbrev select : (A → Bool) → List A → List A
  select w [] = []
  select w (a ∷ xs) = let rest = select w xs in if w a then a ∷ rest else rest

  abbrev first : (A → Bool) → List A → Option A
  first w [] = none
  first w (a ∷ xs) = let rest = first w xs in if w a then some a else rest

  abbrev number : (A → Bool) → List A → ℕ
  number w [] = 0
  number w (a ∷ xs) = number w xs + (if w a then 1 else 0)

  abbrev rewrite_rows : (A → Bool) → (A → A) → List A → List A
  rewrite_rows w f [] = []
  rewrite_rows w f (a ∷ xs) = (if w a then f a else a) ∷ rewrite_rows w f xs

  pub Within-select :
      (w : A → Bool) (a : A) (xs : List A) → Within a (select w xs) → (w a ≡ true) × Within a xs
  Within-select w a [] h = absurd h
  Within-select w a (x ∷ xs) h = elim (Bool-cases (w x)) [
    | inl t ↦ elim (rw t at h) [
      | inl e ↦ (ground arith, inl e)
      | inr m ↦ let (t', m') = Within-select w a xs m in (t', inr m')
    ]
    | inr f ↦ let (t', m') = Within-select w a xs (rw f at h) in (t', inr m')
  ]

  pub select-Within :
      (w : A → Bool) (a : A) (xs : List A) → w a ≡ true → Within a xs → Within a (select w xs)
  select-Within w a [] e h = h
  select-Within w a (x ∷ xs) e h = elim h [
    | inl same ↦ let t : w x ≡ true = ground arith in rw t (inl same)
    | inr m ↦ elim (Bool-cases (w x)) [
      | inl t ↦ rw t (inr (select-Within w a xs e m))
      | inr f ↦ rw f (select-Within w a xs e m)
    ]
  ]

  pub Within-first :
      (w : A → Bool) (a : A) (xs : List A) → first w xs ≡ some a → (w a ≡ true) × Within a xs
  Within-first w a [] h = cc
  Within-first w a (x ∷ xs) h = ground (arith, Within-first w a xs)

  pub first-none :
      (w : A → Bool) (a : A) (xs : List A) → first w xs ≡ none → Within a xs → w a ≡ false
  first-none w a [] h m = absurd m
  first-none w a (x ∷ xs) h m = ground (arith, first-none w a xs)

  pub number-zero :
      (w : A → Bool) (a : A) (xs : List A) → number w xs ≡ 0 → Within a xs → w a ≡ false
  number-zero w a [] h m = absurd m
  number-zero w a (x ∷ xs) h m = ground (arith, number-zero w a xs)

  pub number-pos :
      (w : A → Bool) (xs : List A) → number w xs ≢ 0 → (a : A) × (w a ≡ true) × Within a xs
  number-pos w [] h = absurd (h refl)
  number-pos w (x ∷ xs) h = elim (Bool-cases (w x)) [
    | inl t ↦ (x, t, inl refl)
    | inr f ↦ let (a, t, m) = number-pos w xs (ground arith) in (a, t, inr m)
  ]

  pub number-split :
      (w p : A → Bool) (xs : List A)
      → number w xs ≡ number (λ a. w a && p a) xs + number (λ a. w a && not (p a)) xs
  number-split w p [] = omega arith
  number-split w p (x ∷ xs) = ground (arith, number-split w p xs)

  number-select-le : (w p : A → Bool) (xs : List A) → number w (select p xs) ≤ number w xs
  number-select-le w p [] = omega arith
  number-select-le w p (x ∷ xs) = ground (arith, number-select-le w p xs)

  number-select_none :
      (w p : A → Bool) (xs : List A)
      → ((a : A) → w a ≡ true → p a ≡ false)
      → number w (select p xs) ≡ 0
  number-select_none w p [] h = omega arith
  number-select_none w p (x ∷ xs) h = ground (arith, number-select_none w p xs h, h x)

  select-select_comm :
      (w p : A → Bool) (xs : List A) → select w (select p xs) ≡ select p (select w xs)
  select-select_comm w p [] = refl
  select-select_comm w p (x ∷ xs) = ground (arith, select-select_comm w p xs)

module _ {A K : Type 0} ⦃e : Eq K⦄ (key : A → K) where
  abbrev find : K → List A → Option A
  find k [] = none
  find k (a ∷ t) = let rest = find k t in if key a == k then some a else rest

  abbrev differs : K → A → Bool
  differs k a = not (key a == k)

  -- The rows, without those that a later insertion of the same key hides.
  abbrev rows : List A → List A
  rows [] = []
  rows (a ∷ t) = a ∷ select (differs (key a)) (rows t)

  pub key-find : (k : K) (t : List A) (a : A) → find k t ≡ some a → key a ≡ k
  key-find k [] a h = cc
  key-find k (b ∷ t) a h = ground (arith, key-find k t a, e.beq_iff (key b) k)

  find-select :
      (k j : K) (xs : List A)
      → find k (select (differs j) xs) ≡ (if j == k then none else find k xs)
  find-select k j [] = ground arith
  find-select k j (a ∷ xs) =
      ground (arith, find-select k j xs, e.beq_iff (key a) k, e.beq_iff (key a) j, e.beq_iff j k)

  find-rows : (k : K) (t : List A) → find k (rows t) ≡ find k t
  find-rows k [] = refl
  find-rows k (a ∷ t) =
      ground (arith, find-rows k t, find-select k (key a) (rows t), e.beq_iff (key a) k)

  pub Within-rows : (a : A) (t : List A) → Within a (rows t) → find (key a) t ≡ some a
  Within-rows a [] h = absurd h
  Within-rows a (b ∷ t) h = elim h [
    | inl same ↦ ground (arith, e.beq_iff (key b) (key a))
    | inr m ↦
        let (d, m') = Within-select (differs (key b)) a (rows t) m in
        ground (arith, Within-rows a t m', e.beq_iff (key a) (key b), e.beq_iff (key b) (key a))
  ]

  pub rows-Within : (a : A) (t : List A) → find (key a) t ≡ some a → Within a (rows t)
  rows-Within a [] h = cc
  rows-Within a (b ∷ t) h = elim (Bool-cases (key b == key a)) [
    | inl same ↦ inl (ground arith)
    | inr other ↦ inr (
        select-Within (differs (key b)) a (rows t)
          (ground (arith, e.beq_iff (key a) (key b), e.beq_iff (key b) (key a)))
          (rows-Within a t (ground arith)))
  ]

  pub find-Within : (k : K) (t : List A) (a : A) → find k t ≡ some a → Within a (rows t)
  find-Within k t a h = rows-Within a t (ground (arith, key-find k t a h))

  pub find-head : (a : A) (t : List A) → find (key a) (a ∷ t) ≡ some a
  find-head a t = ground (arith, e.beq_iff (key a) (key a))

  pub find-tail : (k : K) (a : A) (t : List A) → k ≢ key a → find k (a ∷ t) ≡ find k t
  find-tail k a t h = ground (arith, e.beq_iff (key a) k)

  pub find-rewrite :
      (k : K) (w : A → Bool) (f : A → A) (t : List A)
      → ((a : A) → key (f a) ≡ key a)
      → find k (rewrite_rows w f t) ≡ written w f (find k t)
  find-rewrite k w f [] pres = refl
  find-rewrite k w f (a ∷ t) pres = ground (arith, find-rewrite k w f t pres, pres a)

  -- A write that matches no row returns the table itself.
  abbrev pub write_rows : (A → Bool) → (A → A) → List A → List A
  write_rows w f t = if nat_beq (number w (rows t)) 0 then t else rewrite_rows w f t

  pub write_rows-none :
      (w : A → Bool) (f : A → A) (t : List A) → number w (rows t) ≡ 0 → write_rows w f t ≡ t
  write_rows-none w f t h = ground arith

  pub find-write :
      (k : K) (w : A → Bool) (f : A → A) (t : List A)
      → ((a : A) → key (f a) ≡ key a)
      → find k (write_rows w f t) ≡ written w f (find k t)
  find-write k w f t pres = elim (zero-cases (number w (rows t))) [
    | inl z ↦ elim (Option-cases (find k t)) [
      | inl gone ↦ let same = write_rows-none w f t z in ground arith
      | inr (a, e) ↦
          let same = write_rows-none w f t z in
          let miss = number-zero w a (rows t) z (find-Within k t a e) in ground arith
    ]
    | inr p ↦ let law = find-rewrite k w f t pres in ground arith
  ]

  find-drop : (k : K) (w : A → Bool) (xs : List A) → find k xs ≡ none → find k (select w xs) ≡ none
  find-drop k w [] h = refl
  find-drop k w (a ∷ xs) h = ground (arith, find-drop k w xs)

  pub find-delete :
      (k : K) (w : A → Bool) (t : List A)
      → find k (select (λ a. not (w a)) (rows t)) ≡ kept w (find k t)
  find-delete k w [] = refl
  find-delete k w (a ∷ t) = ground (
    arith,
    find-delete k w t,
    select-select_comm (λ a. not (w a)) (differs (key a)) (rows t),
    find-select k (key a) (select (λ a. not (w a)) (rows t)),
    e.beq_iff (key a) k,
  )

  pub number-le-one :
      (w : A → Bool) (t : List A)
      → ((a b : A) → w a ≡ true → w b ≡ true → key a ≡ key b)
      → number w (rows t) ≤ 1
  number-le-one w [] h = omega arith
  number-le-one w (a ∷ t) h = elim (Bool-cases (w a)) [
    | inl hit ↦
        let none_left =
          number-select_none w (differs (key a)) (rows t)
            (λ b hb. ground (arith, h b a hb hit, e.beq_iff (key b) (key a))) in
        ground (arith, none_left)
    | inr miss ↦ ground (arith, number-le-one w t h, number-select-le w (differs (key a)) (rows t))
  ]

  abbrev pub memory : Delegate A K key
  memory = record {
    Table = List A;
    find_unique = find;
    find_first = λ w t. first w (rows t);
    find_many = λ w t. select w (rows t);
    count = λ w t. number w (rows t);
    insert = λ a t. a ∷ t;
    update_many = write_rows;
    delete_many = λ w t. select (λ a. not (w a)) (rows t);
    key-find_unique = key-find;
    find_first-some =
        λ w t a h. let (hit, m) = Within-first w a (rows t) h in (hit, Within-rows a t m);
    find_first-none = λ w t k a h f. first-none w a (rows t) h (find-Within k t a f);
    Within-find_many = λ w t a. (
      λ m. let (hit, m') = Within-select w a (rows t) m in (hit, Within-rows a t m'),
      λ p. select-Within w a (rows t) p.0 (rows-Within a t p.1),
    );
    count-zero = λ w t k a h f. number-zero w a (rows t) h (find-Within k t a f);
    count-pos = λ w t h. let (a, hit, m) = number-pos w (rows t) h in (a, hit, Within-rows a t m);
    count-le-one = number-le-one;
    count-split = λ w p t. number-split w p (rows t);
    find_unique-update_many = find-write;
    update_many-none = write_rows-none;
    find_unique-insert_self = λ a t _. find-head a t;
    find_unique-insert_ne = find-tail;
    find_unique-delete_many = find-delete;
  }
