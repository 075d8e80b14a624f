-- ===== src/Prisma/Interface.antt =====
-- What the services rely on of a Prisma model delegate (`databaseService.mission` and the like):
-- the operations that they call on one table, and the documented behaviour of these. The rows of
-- a table differ in their key (`@id`, `@@id`), so a table is seen through `find_unique`.
use gp_connect_server.Common.{
  ℕ, ◌+◌, ◌≤◌, ◌≡◌, ◌≢◌, ◌⊎◌, ◌↔◌, Bool, true, false, not, ◌&&◌, Option, none, some, List, [], ◌∷◌,
  if◌then◌else◌,
}

-- `a` is one of the listed values.
abbrev pub Within : {A : Type 0} → A → List A → Type 0
Within a [] = ⊥
Within a (x ∷ xs) = (x ≡ a) ⊎ Within a xs

-- What a write of `f` where `where_` holds does to one row, if there is one.
abbrev pub written : {A : Type 0} → (A → Bool) → (A → A) → Option A → Option A
written where_ f none = none
written where_ f (some a) = some (if where_ a then f a else a)

-- What is left of one row where the rows that satisfy `where_` are deleted.
abbrev pub kept : {A : Type 0} → (A → Bool) → Option A → Option A
kept where_ none = none
kept where_ (some a) = if where_ a then none else some a

pub record Delegate (A K : Type 0) (key : A → K) : Type 1 where
  pub Table : Type 0
  pub find_unique : K → Table → Option A
  pub find_first : (A → Bool) → Table → Option A
  pub find_many : (A → Bool) → Table → List A
  pub count : (A → Bool) → Table → ℕ
  pub insert : A → Table → Table
  pub update_many : (A → Bool) → (A → A) → Table → Table
  pub delete_many : (A → Bool) → Table → Table
  pub key-find_unique : (k : K) (t : Table) (a : A) → find_unique k t ≡ some a → key a ≡ k
  pub find_first-some :
      (w : A → Bool) (t : Table) (a : A)
      → find_first w t ≡ some a
      → (w a ≡ true) × (find_unique (key a) t ≡ some a)
  pub find_first-none :
      (w : A → Bool) (t : Table) (k : K) (a : A)
      → find_first w t ≡ none
      → find_unique k t ≡ some a
      → w a ≡ false
  pub Within-find_many :
      (w : A → Bool) (t : Table) (a : A)
      → Within a (find_many w t) ↔ ((w a ≡ true) × (find_unique (key a) t ≡ some a))
  pub count-zero :
      (w : A → Bool) (t : Table) (k : K) (a : A)
      → count w t ≡ 0
      → find_unique k t ≡ some a
      → w a ≡ false
  pub count-pos :
      (w : A → Bool) (t : Table)
      → count w t ≢ 0
      → (a : A) × (w a ≡ true) × (find_unique (key a) t ≡ some a)
  pub count-le-one :
      (w : A → Bool) (t : Table)
      → ((a b : A) → w a ≡ true → w b ≡ true → key a ≡ key b)
      → count w t ≤ 1
  pub count-split :
      (w p : A → Bool) (t : Table)
      → count w t ≡ count (λ a. w a && p a) t + count (λ a. w a && not (p a)) t
  pub find_unique-update_many :
      (k : K) (w : A → Bool) (f : A → A) (t : Table)
      → ((a : A) → key (f a) ≡ key a)
      → find_unique k (update_many w f t) ≡ written w f (find_unique k t)
  pub update_many-none :
      (w : A → Bool) (f : A → A) (t : Table) → count w t ≡ 0 → update_many w f t ≡ t
  pub find_unique-insert_self :
      (a : A) (t : Table) → find_unique (key a) t ≡ none → find_unique (key a) (insert a t) ≡ some a
  pub find_unique-insert_ne :
      (k : K) (a : A) (t : Table) → k ≢ key a → find_unique k (insert a t) ≡ find_unique k t
  pub find_unique-delete_many :
      (k : K) (w : A → Bool) (t : Table)
      → find_unique k (delete_many w t) ≡ kept w (find_unique k t)
