-- ===== src/Verification/Email.antt =====
-- Links: what a link that is accepted did, and that a link which was sent confirms its address.
use gp_connect_server.Common.{
  ℕ, ◌≤◌, ◌≡◌, ◌≢◌, refl, nat_beq_iff, is_some_of_iff, ◌∙◌, ◌⊎◌, inl, inr, Bool, true, false, not,
  ◌&&◌, Option, none, some, String, arith, Option-cases, Bool-cases, string_eq, ◌==◌, nat_eq,
  is_set, ltb,
}
use gp_connect_server.Schema.{User, VerificationToken, verification_token_type_eq}
use gp_connect_server.Prisma.{Prisma, World, zero-cases, find_unique-updated}
use gp_connect_server.Handler.{ok, ◌>>=◌, find_unique, users}
use gp_connect_server.Handler.Inversion.{read-ok}
use gp_connect_server.Verification.Service.{
  confirmed, same_contact, pending_of, email_verified, other_address, link_of, confirm_email,
  use_link, load_link, verify_email_token,
}

-- The row of the user `u` after a confirmation: a pending address becomes the active one, and the
-- address is verified.
pub record IsVerified (now : ℕ) (u : User) (row : Option User) : Type 0 where
  pub switched :
      (p : String)
      → u.pending_email ≡ some p
      → p == "" ≡ false
      → row ≡ some (record u { email = p; pending_email = none; email_verified_at = some now })
  pub marked : u.pending_email ≡ none → row ≡ some (record u { email_verified_at = some now })

pub confirmed-IsVerified :
    (now : ℕ) (u : User) (row : Option User)
    → row ≡ some (confirmed (pending_of (some u)) now u)
    → IsVerified now u row
confirmed-IsVerified now u row h = record {
  switched = λ p e n. ground arith;
  marked = λ e. ground arith;
}

-- The link was sent to the pending address, if there is one.
abbrev pub IsSentTo : User → Option String → Type 0
IsSentTo u identifier =
    (p : String) → u.pending_email ≡ some p → p == "" ≡ false → identifier ≡ some p

other_address-IsSentTo :
    (u : User) (identifier : Option String)
    → other_address (pending_of (some u)) identifier ≡ false
    → IsSentTo u identifier
other_address-IsSentTo u identifier h p e n = (is_some_of_iff identifier p).0 (ground arith)

pub confirmed-id :
    (pending : Option String) (now : ℕ) (u : User) → (confirmed pending now u).id ≡ u.id
confirmed-id none now u = refl
confirmed-id (some p) now u = refl

module _ {P : Prisma} where
  -- What the use of a link wrote.
  pub record IsConfirmed (now : ℕ) (t : VerificationToken) (w w' : World P) : Type 0 where
    pub user : User
    pub found : P.user.find_unique t.user_id w.users ≡ some user
    pub live : now ≤ t.expires_at
    pub sent : IsSentTo user t.identifier
    pub free :
        P.user.count
          (λ b.
            not (b.id == t.user_id) && same_contact (confirmed (pending_of (some user)) now user) b)
          w.users
        ≡ 0
    -- The address is nobody else's.
    pub address :
        (p : String)
        → user.pending_email ≡ some p
        → p == "" ≡ false
        → (k : ℕ) (b : User) → P.user.find_unique k w.users ≡ some b
        → k ≢ t.user_id
        → b.email ≢ p
    pub row : IsVerified now user (P.user.find_unique t.user_id w'.users)
    pub stored : w' ≡ record w {
      users =
          P.user.update_many
            (λ b. b.id == t.user_id)
            (confirmed (pending_of (some user)) now)
            w.users;
      tokens = P.verification_token.delete_many (λ b. b.id == t.id) w.tokens;
    }

  confirm_email-ok :
      (now : ℕ) (t : VerificationToken) (pending : Option String) (w : World P) {r : Bool}
      → (confirm_email now t pending w).0 ≡ ok r
      → (u : User) × (P.user.find_unique t.user_id w.users ≡ some u)
        × (P.user.count
              (λ b. not (b.id == t.user_id) && same_contact (confirmed pending now u) b)
              w.users
            ≡ 0)
        × (confirm_email now t pending w ≡ (
          ok true,
          record w {
            users = P.user.update_many (λ b. b.id == t.user_id) (confirmed pending now) w.users;
            tokens = P.verification_token.delete_many (λ b. b.id == t.id) w.tokens;
          },
        ))
  unfolding confirm_email
  confirm_email-ok now t pending w h = elim (Option-cases (P.user.find_unique t.user_id w.users)) [
    | inl z ↦ absurd (ground arith)
    | inr (u, e) ↦
        elim (zero-cases (
          P.user.count (λ b. not (b.id == t.user_id) && same_contact (confirmed pending now u) b)
            w.users)) [
              | inr n ↦ absurd (ground arith)
              | inl free ↦ elim (Option-cases (P.verification_token.find_unique t.id w.tokens)) [
                | inl gone ↦ absurd (ground arith)
                | inr (t', e') ↦ (u, e, free, ground arith)
              ]
            ]
  ]

  load_link-world :
      (digest : String → String) (token : String) (w : World P) → (load_link digest token w).1 ≡ w
  unfolding load_link
  load_link-world digest token w = ground arith

  load_link-ok :
      (digest : String → String) (token : String) (w : World P) {t : VerificationToken}
      → (load_link digest token w).0 ≡ ok t
      → (token == "" ≡ false)
        × (P.verification_token.find_first (link_of digest token) w.tokens ≡ some t)
  unfolding load_link
  load_link-ok digest token w h =
      elim (Option-cases (P.verification_token.find_first (link_of digest token) w.tokens)) [
        | inl z ↦ absurd (ground arith)
        | inr (x, e) ↦ (ground arith, ground arith)
      ]

  use_link-cases :
      (now : ℕ) (t : VerificationToken) (o : Option User) (w : World P) {r : Bool}
      → (use_link now t o w).0 ≡ ok r
      → ((use_link now t o w ≡ (ok true, w)) × (email_verified o ≡ true) × (pending_of o ≡ none))
        ⊎ ((ltb t.expires_at now ≡ false)
            × (other_address (pending_of o) t.identifier ≡ false)
            × (use_link now t o w ≡ confirm_email now t (pending_of o) w))
  unfolding use_link
  use_link-cases now t o w h = elim (Bool-cases (not (is_set (pending_of o)) && email_verified o)) [
    | inl y ↦ elim (Option-cases (pending_of o)) [
      | inl z ↦ inl (ground arith, ground arith, z)
      | inr (p, e) ↦ absurd (ground arith)
    ]
    | inr n ↦ elim (Bool-cases (ltb t.expires_at now)) [
      | inl y ↦ absurd (ground arith)
      | inr live ↦ elim (Bool-cases (other_address (pending_of o) t.identifier)) [
        | inl y ↦ absurd (ground arith)
        | inr sent ↦ inr (live, sent, ground arith)
      ]
    ]
  ]

  free_address :
      (now : ℕ) (t : VerificationToken) (u : User) (p : String) (w : World P)
      → P.user.count
          (λ b. not (b.id == t.user_id) && same_contact (confirmed (pending_of (some u)) now u) b)
          w.users
        ≡ 0
      → u.pending_email ≡ some p
      → p == "" ≡ false
      → (k : ℕ) (b : User) → P.user.find_unique k w.users ≡ some b
      → k ≢ t.user_id
      → b.email ≢ p
  free_address now t u p w z e n k b g ne same =
      let clear =
        P.user.count-zero
          (λ b. not (b.id == t.user_id) && same_contact (confirmed (pending_of (some u)) now u) b)
          w.users k b z g in
      let hit = string_eq.beq_iff p b.email in
      let key = P.user.key-find_unique k w.users b g in
      absurd (ground (arith, nat_beq_iff b.id t.user_id))

  use_link-ok :
      (now : ℕ) (t : VerificationToken) (o : Option User) (w : World P) {r : Bool}
      → o ≡ P.user.find_unique t.user_id w.users
      → (use_link now t o w).0 ≡ ok r
      → ((use_link now t o w ≡ (ok true, w)) × (email_verified o ≡ true) × (pending_of o ≡ none))
        ⊎ (((use_link now t o w).0 ≡ ok true) × IsConfirmed now t w (use_link now t o w).1)
  use_link-ok now t o w same h = elim (use_link-cases now t o w h) [
    | inl already ↦ inl already
    | inr (live, sent, run) ↦
        let (u, f, free, wrote) = confirm_email-ok now t (pending_of o) w (rw run at h) in
        let whose : o ≡ some u = same ∙ f in
        inr (
          ground arith,
          record {
            user = u;
            found = f;
            live = ground arith;
            sent = other_address-IsSentTo u t.identifier (rw whose at sent);
            free = rw whose at free;
            address = λ p e n k b g ne same.
                free_address now t u p w (rw whose at free) e n k b g ne same;
            row =
                rw (run, wrote, whose)
                  (confirmed-IsVerified now u _ (
                    find_unique-updated P.user t.user_id (confirmed (pending_of (some u)) now)
                      w.users u (confirmed-id (pending_of (some u)) now) f));
            stored = rw (run, wrote, whose) refl;
          },
        )
  ]

  pub verify_email_token-ok :
      (digest : String → String) (now : ℕ) (token : String) (w : World P) {r : Bool}
      → (verify_email_token digest now token w).0 ≡ ok r
      → let w' = (verify_email_token digest now token w).1 in
        (t : VerificationToken) × (P.verification_token.find_first (link_of digest token) w.tokens
          ≡ some t)
        × (((w' ≡ w)
              × (email_verified (P.user.find_unique t.user_id w.users) ≡ true)
              × (pending_of (P.user.find_unique t.user_id w.users) ≡ none))
            ⊎ IsConfirmed now t w w')
  unfolding verify_email_token
  verify_email_token-ok digest now token w h =
      let rest = λ (t : VerificationToken). find_unique users t.user_id >>= use_link now t in
      let (t, e, q, g) =
        read-ok (load_link digest token) rest w (load_link-world digest token w) h in
      let (_, f) = load_link-ok digest token w e in
      (
        t,
        f,
        elim (use_link-ok now t (P.user.find_unique t.user_id w.users) w refl g) [
          | inl (run, done, settled) ↦ inl (ground arith, done, settled)
          | inr (_, confirmed_) ↦ inr (rw q confirmed_)
        ],
      )
