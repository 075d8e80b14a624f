-- ===== src/Handler/Monad.antt =====
-- The monad of handlers: state and exceptions.
use gp_connect_server.Common.{Bool, true, false, Option, none, some, ◌∷◌, if◌then◌else◌}
use gp_connect_server.Prisma.{Prisma, World, Effect}
use gp_connect_server.Handler.Exceptions.{Exception}

pub data Result (A : Type 0) : Type 0 where
  ok : A → Result A
  err : Exception → Result A

abbrev pub is_ok : {A : Type 0} → Result A → Bool
is_ok (ok _) = true
is_ok (err _) = false

abbrev pub Handler : Prisma → Type 0 → Type 0
Handler P A = World P → Result A × World P

infixl 5 ◌>>=◌ ◌>>◌
abbrev pub ◌>>=◌ : {P : Prisma} {A B : Type 0} → Handler P A → (A → Handler P B) → Handler P B
◌>>=◌ m f w = let (r, w') = m w in elim r [ ok a ↦ f a w' | err e ↦ (err e, w') ]

abbrev pub ◌>>◌ : {P : Prisma} {A B : Type 0} → Handler P A → Handler P B → Handler P B
m >> k = m >>= λ _. k

module _ {P : Prisma} {A : Type 0} where
  abbrev pub pure : A → Handler P A
  pure a w = (ok a, w)

  abbrev pub throw : Exception → Handler P A
  throw e w = (err e, w)

  abbrev pub gets : (World P → A) → Handler P A
  gets f w = (ok (f w), w)

  -- `if (!a) throw e`, for a value that is used afterwards.
  abbrev pub or_throw : Exception → Option A → Handler P A
  or_throw e none w = (err e, w)
  or_throw e (some a) w = (ok a, w)

  -- `$transaction`: the writes of a body that throws are undone. No body emits an effect.
  abbrev pub transaction : Handler P A → Handler P A
  transaction m w = let (r, w') = m w in elim r [ ok a ↦ (ok a, w') | err e ↦ (err e, w) ]

module _ {P : Prisma} where
  abbrev pub modify : (World P → World P) → Handler P (Unit {0})
  modify f w = (ok tt, f w)

  -- `if (test) throw e`
  abbrev pub throw_if : Bool → Exception → Handler P (Unit {0})
  throw_if b e w = (if b then err e else ok tt, w)

  -- `if (test) { m }`
  abbrev pub when : Bool → Handler P (Unit {0}) → Handler P (Unit {0})
  when b m w = elim b [ true ↦ m w | false ↦ (ok tt, w) ]

  abbrev pub emit : Effect → Handler P (Unit {0})
  emit e w = (ok tt, record w { effects = e ∷ w.effects })
