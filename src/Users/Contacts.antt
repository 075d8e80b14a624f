-- ===== src/Users/Contacts.antt =====
-- The parts of a change of a profile: the checks on the new address and number, and the write.
use gp_connect_server.Common.{
  ℕ, ◌≡◌, refl, ◌⊎◌, inl, inr, Bool, true, false, not, ◌&&◌, Option, none, some, String, arith,
  Option-cases, Bool-cases, string_eq, ◌==◌, nat_eq, is_set,
}
use gp_connect_server.Schema.{User}
use gp_connect_server.Prisma.{Prisma, World, zero-cases}
use gp_connect_server.Handler.{ok, Result-cases}
use gp_connect_server.Verification.{same_contact}
use gp_connect_server.Users.Service.{
  UpdateUserDto, ContactChanges, with_changes, same_email, resets_phone_of, taken_by_other,
  prepare_contact_changes, pending_change, store_changes,
}

-- Where a change of the address goes: nowhere if it is the active one, else to `pending_email`, if
-- no other account has it.
abbrev pub IsPending :
    (P : Prisma)
    → (String → String → Bool)
    → ℕ
    → Option String
    → Option User
    → World P
    → Option String
    → Type 0
IsPending P insensitive id none current w pending = pending ≡ none
IsPending P insensitive id (some e) current w pending =
    ((same_email current e ≡ true) × (pending ≡ none))
    ⊎ ((same_email current e ≡ false)
        × (pending ≡ some e)
        × (taken_by_other id (P.user.find_first (λ u. insensitive u.email e) w.users) ≡ false))

module _ {P : Prisma} where
  pub pending_change-ok :
      (insensitive : String → String → Bool) (id : ℕ) (email : Option String)
      (current : Option User) (w : World P) {p : Option String}
      → (pending_change insensitive id email current w).0 ≡ ok p
      → (pending_change insensitive id email current w ≡ (ok p, w))
        × IsPending P insensitive id email current w p
  unfolding pending_change
  pending_change-ok insensitive id none current w h = (ground arith, ground arith)
  pending_change-ok insensitive id (some e) current w h = elim (Bool-cases (same_email current e)) [
    | inl y ↦ (ground arith, inl (y, ground arith))
    | inr n ↦
        elim (Bool-cases
          (taken_by_other id (P.user.find_first (λ u. insensitive u.email e) w.users))) [
            | inl y ↦ absurd (ground arith)
            | inr free ↦ (ground arith, inr (n, ground arith, free))
          ]
  ]

  pub prepare_contact_changes-ok :
      (insensitive : String → String → Bool) (id : ℕ) (email phone : Option String) (w : World P)
      {c : ContactChanges}
      → (prepare_contact_changes insensitive id email phone w).0 ≡ ok c
      → (prepare_contact_changes insensitive id email phone w ≡ (ok c, w))
        × IsPending P insensitive id email (P.user.find_unique id w.users) w c.pending_email
        × (c.resets_phone ≡ resets_phone_of phone (P.user.find_unique id w.users))
  unfolding prepare_contact_changes
  prepare_contact_changes-ok insensitive id email phone w {c} h =
      elim (Bool-cases (not (is_set email) && not (is_set phone))) [
        | inl y ↦ elim (Option-cases email) [
          | inr (a, e) ↦ absurd (ground arith)
          | inl no_email ↦ elim (Option-cases phone) [
            | inr (a, e) ↦ absurd (ground arith)
            | inl no_phone ↦
                let ec : c ≡ record { pending_email = none; resets_phone = false } = ground arith in
                (ground arith, rw (ec, no_email) refl, rw (ec, no_phone) refl)
          ]
        ]
        | inr n ↦
            elim (Result-cases
              (pending_change insensitive id email (P.user.find_unique id w.users) w).0) [
                | inl (p, e) ↦
                    let (run, goes) =
                      pending_change-ok insensitive id email (P.user.find_unique id w.users) w e in
                    let current = P.user.find_unique id w.users in
                    let ec : c ≡ record {
                      pending_email = p;
                      resets_phone = resets_phone_of phone current;
                    } =
                      ground arith in
                    (ground arith, rw ec goes, rw ec refl)
                | inr (x, e) ↦ absurd (ground arith)
              ]
      ]

  pub store_changes-ok :
      (hash : String → String) (id : ℕ) (d : UpdateUserDto) (c : ContactChanges) (w : World P)
      {u' : User}
      → (store_changes hash id d c w).0 ≡ ok u'
      → (u : User) × (P.user.find_unique id w.users ≡ some u)
        × (P.user.count (λ b. not (b.id == id) && same_contact (with_changes hash d c u) b) w.users
            ≡ 0)
        × (store_changes hash id d c w ≡ (
          ok (with_changes hash d c u),
          record w { users = P.user.update_many (λ b. b.id == id) (with_changes hash d c) w.users },
        ))
  unfolding store_changes
  store_changes-ok hash id d c w h = elim (Option-cases (P.user.find_unique id w.users)) [
    | inl z ↦ absurd (ground arith)
    | inr (u, e) ↦
        elim (zero-cases (
          P.user.count (λ b. not (b.id == id) && same_contact (with_changes hash d c u) b)
            w.users)) [ inl free ↦ (u, e, free, ground arith) | inr n ↦ absurd (ground arith) ]
  ]
