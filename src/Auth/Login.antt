-- ===== src/Auth/Login.antt =====
-- Sessions: a code that was sent opens one, and an account that is gone has none.
use gp_connect_server.Common.{
  ℕ, ◌+◌, ◌*◌, ◌<◌, ◌≡◌, refl, inl, inr, Bool, true, ◌||◌, some, List, ◌∷◌, String, arith,
  Option-cases, Bool-cases, nat_eq, string_eq, truthy, is_some_of,
}
use gp_connect_server.Schema.{User, VerificationTokenType}
use gp_connect_server.Prisma.{Prisma, World, Effect}
use gp_connect_server.Handler.{Exception, Reason, ok, err, Result-cases}
use gp_connect_server.Proofs.{Bcrypt, Otp, generate_otp, minute_in_ms}
use gp_connect_server.Identity.{IdentityVerifier}
use gp_connect_server.Verification.{
  get_otp_payload, verify_otp_token, send_phone_verification, send_email_opt,
}
use gp_connect_server.Verification.Otp.{get_otp_payload-ok, get_otp_payload-verify}
use gp_connect_server.Users.{LinkDraw, find_by_identifier, delete_user}
use gp_connect_server.Users.Forgotten.{delete_user-IsForgotten}
use gp_connect_server.Auth.Service.{
  Jwt, sign_token_pair, send_code, login, login_opt, mark_verified, refresh_token,
}

-- The search by identifier.
abbrev is_named : (String → String → Bool) → String → User → Bool
is_named insensitive identifier u = insensitive u.email identifier || is_some_of u.phone identifier

module _ {P : Prisma} where
  -- A session is not refreshed for an account that was deleted.
  pub delete_user-refresh_token :
      (v : IdentityVerifier) (id : ℕ) (w : World P) (j : Jwt) {u : User}
      → (delete_user v id w).0 ≡ ok u
      → let w' = (delete_user v id w).1 in
        refresh_token j id w' ≡ (err (Exception.unauthorized Reason.unspecified), w')
  unfolding refresh_token
  delete_user-refresh_token v id w j h =
      let gone = (delete_user-IsForgotten v id w h).users in ground arith

  send_code-ok :
      (type : VerificationTokenType) (otp : Otp) (new_id user_id : ℕ) (w : World P)
      → (send_code type otp new_id user_id w).0 ≡ ok tt
      → (u : User) × ((get_otp_payload otp new_id user_id type w).0 ≡ ok u)
        × (es : List Effect) × ((send_code type otp new_id user_id w).1
            ≡ record (get_otp_payload otp new_id user_id type w).1 { effects = es })
  unfolding send_code send_phone_verification send_email_opt
  send_code-ok VerificationTokenType.email otp new_id user_id w h =
      elim (Result-cases (get_otp_payload otp new_id user_id VerificationTokenType.email w).0) [
        | inr (x, e) ↦ absurd (ground arith)
        | inl (u, e) ↦ (
          u,
          e,
          Effect.email_otp_mail u.email otp.plain
              ∷ (get_otp_payload otp new_id user_id VerificationTokenType.email w).1.effects,
          ground arith,
        )
      ]
  send_code-ok VerificationTokenType.phone otp new_id user_id w h =
      elim (Result-cases (get_otp_payload otp new_id user_id VerificationTokenType.phone w).0) [
        | inr (x, e) ↦ absurd (ground arith)
        | inl (u, e) ↦ elim (Option-cases u.phone) [
          | inl z ↦ absurd (ground arith)
          | inr (number, is) ↦ elim (Bool-cases (truthy u.phone)) [
            | inr n ↦ absurd (ground arith)
            | inl y ↦ (
              u,
              e,
              Effect.phone_verification_sms number otp.plain
                  ∷ (get_otp_payload otp new_id user_id VerificationTokenType.phone w).1.effects,
              ground arith,
            )
          ]
        ]
      ]

  login-parts :
      (insensitive : String → String → Bool) (otp : Otp) (new_id : ℕ) (identifier : String)
      (type : VerificationTokenType) (w : World P) (u : User)
      → P.user.find_first (is_named insensitive identifier) w.users ≡ some u
      → login insensitive otp new_id identifier (some type) w ≡ send_code type otp new_id u.id w
  unfolding login find_by_identifier
  login-parts insensitive otp new_id identifier type w u f = ground arith

  login_opt-run :
      (b : Bcrypt) (j : Jwt) (insensitive : String → String → Bool) (hash digest : String → String)
      (l : LinkDraw) (identifier code : String) (type : VerificationTokenType) (w : World P)
      (u : User)
      → P.user.find_first (is_named insensitive identifier) w.users ≡ some u
      → (verify_otp_token b l.now u.id code type w).0 ≡ ok true
      → (login_opt b j insensitive hash digest l identifier code type w).0
        ≡ ok (sign_token_pair j u)
  unfolding login_opt find_by_identifier mark_verified
  login_opt-run b j insensitive hash digest l identifier code type w u f e = ground arith

  -- A login and the code that it sent open a session for the account that the identifier names,
  -- whichever channel the code took, in the 15 minutes after it.
  pub login-login_opt :
      (b : Bcrypt) (j : Jwt) (insensitive : String → String → Bool) (hash digest : String → String)
      (l : LinkDraw) (identifier code salt : String) (type : VerificationTokenType) (now new_id : ℕ)
      (w : World P) (u : User)
      → (find_by_identifier insensitive identifier w).0 ≡ ok (some u)
      → (login insensitive (generate_otp b code salt now) new_id identifier (some type) w).0 ≡ ok tt
      → l.now < now + 15 * minute_in_ms
      → let w' =
          (login insensitive (generate_otp b code salt now) new_id identifier (some type) w).1 in
        (login_opt b j insensitive hash digest l identifier code type w').0
        ≡ ok (sign_token_pair j u)
  unfolding find_by_identifier
  login-login_opt b j insensitive hash digest l identifier code salt type now new_id w u f h soon =
      let otp = generate_otp b code salt now in
      let named : P.user.find_first (is_named insensitive identifier) w.users ≡ some u =
        ground arith in
      let parts = login-parts insensitive otp new_id identifier type w u named in
      let (v, sent, es, wrote) = send_code-ok type otp new_id u.id w (rw parts at h) in
      let (_, _, payload) = get_otp_payload-ok otp new_id u.id type w sent in
      let verified = get_otp_payload-verify b code salt now new_id u.id type w es l.now sent soon in
      let world = (login insensitive otp new_id identifier (some type) w).1 in
      let same : world ≡ record (get_otp_payload otp new_id u.id type w).1 { effects = es } =
        ground arith in
      let users : world.users ≡ w.users = ground arith in
      login_opt-run b j insensitive hash digest l identifier code type world u (rw users named)
        (rw (same, verified) refl)
