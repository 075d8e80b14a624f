-- ===== src/Handler/Inversion.antt =====
-- How a chain of handlers ended, from how its parts ended.
use gp_connect_server.Common.{◌≡◌, refl, ap, ◌∙◌, ◌⊎◌, inl, inr, arith}
use gp_connect_server.Prisma.{Prisma, World}
use gp_connect_server.Handler.Exceptions.{Exception}
use gp_connect_server.Handler.Monad.{Handler, Result, ok, err, ◌>>=◌, transaction}
use gp_connect_server.Handler.Queries.{catch_unique, recover}

pub Result-cases :
    {A : Type 0} (r : Result A) → ((a : A) × (r ≡ ok a)) ⊎ ((e : Exception) × (r ≡ err e))
Result-cases (ok a) = inl (a, refl)
Result-cases (err e) = inr (e, refl)

module _ {P : Prisma} {A B : Type 0} (m : Handler P A) (f : A → Handler P B) (w : World P) where
  pub >>=-ok :
      {b : B}
      → ((m >>= f) w).0 ≡ ok b
      → (a : A) × ((m w).0 ≡ ok a) × ((m >>= f) w ≡ f a (m w).1) × ((f a (m w).1).0 ≡ ok b)
  >>=-ok h = elim (Result-cases (m w).0) [
    | inl (a, e) ↦ (a, e, ground arith, ground arith)
    | inr (x, e) ↦ absurd (ground arith)
  ]

  pub >>=-err :
      {x : Exception}
      → ((m >>= f) w).0 ≡ err x
      → (((m w).0 ≡ err x) × ((m >>= f) w ≡ (err x, (m w).1)))
        ⊎ ((a : A) × ((m w).0 ≡ ok a) × ((m >>= f) w ≡ f a (m w).1) × ((f a (m w).1).0 ≡ err x))
  >>=-err h = elim (Result-cases (m w).0) [
    | inl (a, e) ↦ inr (a, e, ground arith, ground arith)
    | inr (x, e) ↦ inl (ground arith, ground arith)
  ]

  -- What a chain comes to, from what its first part comes to.
  pub bind_ok : {a : A} {w' : World P} → m w ≡ (ok a, w') → (m >>= f) w ≡ f a w'
  bind_ok h = ap (λ q. elim q.0 [ ok a ↦ f a q.1 | err e ↦ (err e, q.1) ]) h

  -- The same where the first part only reads.
  pub read-ok :
      {b : B}
      → (m w).1 ≡ w
      → ((m >>= f) w).0 ≡ ok b
      → (a : A) × ((m w).0 ≡ ok a) × ((m >>= f) w ≡ f a w) × ((f a w).0 ≡ ok b)
  read-ok same h = let (a, e, q, g) = >>=-ok h in (a, e, rw same at q, rw same at g)

  pub read-err :
      {x : Exception}
      → (m w).1 ≡ w
      → ((m >>= f) w).0 ≡ err x
      → ((m >>= f) w ≡ (err x, w))
        ⊎ ((a : A) × ((m w).0 ≡ ok a) × ((m >>= f) w ≡ f a w) × ((f a w).0 ≡ err x))
  read-err same h = elim (>>=-err h) [
    | inl (_, q) ↦ inl (rw same at q)
    | inr (a, e, q, g) ↦ inr (a, e, rw same at q, rw same at g)
  ]

-- What an exception is recovered to.
recover-ok :
    {P : Prisma} {A : Type 0} (recovery : Handler P A) (e : Exception) (w : World P) {a : A}
    → (recover recovery e w).0 ≡ ok a
    → recover recovery e w ≡ recovery w
recover-ok recovery Exception.unique_violation w h = refl
recover-ok recovery (Exception.bad_request r) w h = absurd (ground arith)
recover-ok recovery (Exception.forbidden r) w h = absurd (ground arith)
recover-ok recovery (Exception.not_found r) w h = absurd (ground arith)
recover-ok recovery (Exception.conflict r) w h = absurd (ground arith)
recover-ok recovery (Exception.unauthorized r) w h = absurd (ground arith)
recover-ok recovery Exception.record_not_found w h = absurd (ground arith)
recover-ok recovery Exception.foreign_key_violation w h = absurd (ground arith)
recover-ok recovery Exception.type_error w h = absurd (ground arith)
recover-ok recovery Exception.missing_argument w h = absurd (ground arith)

module _ {P : Prisma} {A : Type 0} (m : Handler P A) where
  pub transaction-ok :
      (w : World P) {a : A}
      → (transaction m w).0 ≡ ok a
      → ((m w).0 ≡ ok a) × (transaction m w ≡ m w)
  transaction-ok w h = elim (Result-cases (m w).0) [
    | inl (a, e) ↦ (ground arith, ground arith)
    | inr (x, e) ↦ absurd (ground arith)
  ]

  pub transaction-err :
      (w : World P) {x : Exception} → (transaction m w).0 ≡ err x → (transaction m w).1 ≡ w
  transaction-err w h = elim (Result-cases (m w).0) [
    | inl (a, e) ↦ absurd (ground arith)
    | inr (x, e) ↦ ground arith
  ]

  pub catch_unique-ok :
      (recovery : Handler P A) (w : World P) {a : A}
      → (catch_unique m recovery w).0 ≡ ok a
      → (((m w).0 ≡ ok a) × (catch_unique m recovery w ≡ m w))
        ⊎ ((e : Exception) × ((m w).0 ≡ err e)
            × (catch_unique m recovery w ≡ recovery (m w).1)
            × ((recovery (m w).1).0 ≡ ok a))
  catch_unique-ok recovery w h = elim (Result-cases (m w).0) [
    | inl (a, e) ↦ inl (ground arith, ground arith)
    | inr (x, e) ↦
        let q : catch_unique m recovery w ≡ recover recovery x (m w).1 = ground arith in
        let k = recover-ok recovery x (m w).1 (rw q at h) in inr (x, e, q ∙ k, rw (q ∙ k) at h)
  ]
