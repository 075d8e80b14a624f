-- ===== src/Handler/Queries.antt =====
-- The calls that the services make on a delegate, as handlers. A slot says which table of the
-- database the delegate acts on.
use gp_connect_server.Common.{
  ℕ, Bool, not, ◌&&◌, Option, none, some, List, [], ◌∷◌, Eq, ◌==◌, nat_eq, if◌then◌else◌,
}
use gp_connect_server.Prisma.{Prisma, World, Delegate}
use gp_connect_server.Handler.Exceptions.{Exception, record_not_found, unique_violation}
use gp_connect_server.Handler.Monad.{Handler, ok, err, gets, pure, ◌>>=◌}

pub record Slot (P : Prisma) {A K : Type 0} {key : A → K} (D : Delegate A K key) : Type 0 where
  pub get : World P → D.Table
  pub put : D.Table → World P → World P

module _ {P : Prisma} {A K : Type 0} {key : A → K} {D : Delegate A K key} (S : Slot P D) where
  abbrev pub find_unique : K → Handler P (Option A)
  find_unique k = gets (λ w. D.find_unique k (S.get w))

  abbrev pub find_first : (A → Bool) → Handler P (Option A)
  find_first where_ = gets (λ w. D.find_first where_ (S.get w))

  abbrev pub find_many : (A → Bool) → Handler P (List A)
  find_many where_ = gets (λ w. D.find_many where_ (S.get w))

  abbrev pub count : (A → Bool) → Handler P ℕ
  count where_ = gets (λ w. D.count where_ (S.get w))

  -- `updateMany` returns the number of rows that matched.
  abbrev pub update_many : (A → Bool) → (A → A) → Handler P ℕ
  update_many where_ f w =
      (ok (D.count where_ (S.get w)), S.put (D.update_many where_ f (S.get w)) w)

  abbrev pub delete_many : (A → Bool) → Handler P (Unit {0})
  delete_many where_ w = (ok tt, S.put (D.delete_many where_ (S.get w)) w)

  -- `create`; the row is refused if it clashes with another on a `@unique` or `@@unique`.
  abbrev pub create : (A → Bool) → A → Handler P A
  create clashes a w =
      if D.count clashes (S.get w) == 0
      then (ok a, S.put (D.insert a (S.get w)) w)
      else (err unique_violation, w)

  -- `upsert` with a unique `where`.
  abbrev pub upsert : (A → Bool) → (A → Bool) → A → (A → A) → Handler P (Unit {0})
  upsert where_ clashes a f w = elim (D.find_first where_ (S.get w)) [
    | none ↦
        if D.count clashes (S.get w) == 0
        then (ok tt, S.put (D.insert a (S.get w)) w)
        else (err unique_violation, w)
    | some _ ↦ (ok tt, S.put (D.update_many where_ f (S.get w)) w)
  ]

  module _ ⦃e : Eq K⦄ where
    -- `update` with a unique `where`.
    abbrev pub update : K → (A → A) → Handler P A
    update k f w = elim (D.find_unique k (S.get w)) [
      | none ↦ (err record_not_found, w)
      | some a ↦ (ok (f a), S.put (D.update_many (λ b. key b == k) f (S.get w)) w)
    ]

    -- `update` of a column that is `@unique`: refused if the new row clashes with another one.
    abbrev pub update_unique : (A → A → Bool) → K → (A → A) → Handler P A
    update_unique clashes k f w = elim (D.find_unique k (S.get w)) [
      | none ↦ (err record_not_found, w)
      | some a ↦
          if D.count (λ b. not (key b == k) && clashes (f a) b) (S.get w) == 0
          then (ok (f a), S.put (D.update_many (λ b. key b == k) f (S.get w)) w)
          else (err unique_violation, w)
    ]

    abbrev pub delete : K → Handler P A
    delete k w = elim (D.find_unique k (S.get w)) [
      | none ↦ (err record_not_found, w)
      | some a ↦ (ok a, S.put (D.delete_many (λ b. key b == k) (S.get w)) w)
    ]

module _ {P : Prisma} where
  abbrev pub users : Slot P P.user
  users = record { get = λ w. w.users; put = λ t w. record w { users = t } }

  abbrev pub missions : Slot P P.mission
  missions = record { get = λ w. w.missions; put = λ t w. record w { missions = t } }

  abbrev pub mission_packages : Slot P P.mission_package
  mission_packages = record {
    get = λ w. w.mission_packages;
    put = λ t w. record w { mission_packages = t };
  }

  abbrev pub proofs : Slot P P.mission_proof
  proofs = record { get = λ w. w.proofs; put = λ t w. record w { proofs = t } }

  abbrev pub disputes : Slot P P.mission_dispute
  disputes = record { get = λ w. w.disputes; put = λ t w. record w { disputes = t } }

  abbrev pub advertisements : Slot P P.advertisement
  advertisements = record {
    get = λ w. w.advertisements;
    put = λ t w. record w { advertisements = t };
  }

  abbrev pub transactions : Slot P P.transaction
  transactions = record { get = λ w. w.transactions; put = λ t w. record w { transactions = t } }

  abbrev pub conversations : Slot P P.conversation
  conversations = record { get = λ w. w.conversations; put = λ t w. record w { conversations = t } }

  abbrev pub messages : Slot P P.message
  messages = record { get = λ w. w.messages; put = λ t w. record w { messages = t } }

  abbrev pub offers : Slot P P.message_offer
  offers = record { get = λ w. w.offers; put = λ t w. record w { offers = t } }

  abbrev pub appointments : Slot P P.message_appointment
  appointments = record { get = λ w. w.appointments; put = λ t w. record w { appointments = t } }

  abbrev pub packages : Slot P P.package_
  packages = record { get = λ w. w.packages; put = λ t w. record w { packages = t } }

  abbrev pub ratings : Slot P P.mission_rating
  ratings = record { get = λ w. w.ratings; put = λ t w. record w { ratings = t } }

  abbrev pub reports : Slot P P.report
  reports = record { get = λ w. w.reports; put = λ t w. record w { reports = t } }

  abbrev pub blocks : Slot P P.user_block
  blocks = record { get = λ w. w.blocks; put = λ t w. record w { blocks = t } }

  abbrev pub tokens : Slot P P.verification_token
  tokens = record { get = λ w. w.tokens; put = λ t w. record w { tokens = t } }

  abbrev pub identities : Slot P P.user_identity
  identities = record { get = λ w. w.identities; put = λ t w. record w { identities = t } }

  abbrev pub providers : Slot P P.user_provider
  providers = record { get = λ w. w.providers; put = λ t w. record w { providers = t } }

module _ {P : Prisma} {A : Type 0} where
  abbrev pub recover : Handler P A → Exception → Handler P A
  recover recovery unique_violation w = recovery w
  recover recovery e w = (err e, w)

  -- `try { m } catch (e) { if (isUniqueViolation(e)) recovery; throw e }`
  abbrev pub catch_unique : Handler P A → Handler P A → Handler P A
  catch_unique m recovery w =
      let (r, w') = m w in elim r [ ok a ↦ (ok a, w') | err e ↦ recover recovery e w' ]

module _ {P : Prisma} {A K : Type 0} {key : A → K} {D : Delegate A K key} (S : Slot P D) where
  -- `createMany`; `clashes a` says which rows a new row `a` may not stand beside.
  unfoldable pub create_many : (A → A → Bool) → List A → Handler P (Unit {0})
  create_many clashes [] = pure tt
  create_many clashes (a ∷ rows) = create S (clashes a) a >>= λ _. create_many clashes rows
