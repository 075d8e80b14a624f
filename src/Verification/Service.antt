-- ===== src/Verification/Service.antt =====
-- The operations of `UserVerificationService` (src/users/user-verification.service.ts). The digest
-- of `getHashFromToken` and `bcrypt` are parameters; the random token of `generateEmailToken`, the
-- code of `generateOtp` and the ids of new rows are given.
use gp_connect_server.Common.{
  ℕ, ◌+◌, ◌*◌, Bool, true, false, not, ◌&&◌, ◌||◌, Option, none, some, String, ◌==◌, nat_eq,
  string_eq, ltb, is_set, is_some_of, truthy, if◌then◌else◌,
}
use gp_connect_server.Schema.{
  User, VerificationToken, VerificationTokenType, verification_token_type_eq,
}
use gp_connect_server.Prisma.{Prisma, Effect}
use gp_connect_server.Handler.{
  Handler, Exception, Reason, ◌>>=◌, ◌>>◌, pure, throw, or_throw, throw_if, emit, transaction,
  find_unique, find_first, create, update_unique, delete, delete_many, catch_unique, users, tokens,
}
use gp_connect_server.Proofs.{Bcrypt, Otp, minute_in_ms}

abbrev pub hour_in_ms : ℕ
hour_in_ms = 60 * minute_in_ms

-- `generateEmailToken`, with the 32 bytes that it draws, in hexadecimal, and sha256.
pub record EmailToken : Type 0 where
  pub token : String
  pub hash : String

abbrev pub generate_email_token : (String → String) → String → EmailToken
generate_email_token digest token = record { token = token; hash = digest token }

-- The tokens of one user and one type, which `deleteMany` purges.
abbrev pub token_of : ℕ → VerificationTokenType → VerificationToken → Bool
token_of user_id type t = t.user_id == user_id && t.type == type

-- The channel that a code of this type proves.
abbrev pub channel : VerificationTokenType → User → Option String
channel VerificationTokenType.email u = some u.email
channel VerificationTokenType.phone u = u.phone

abbrev pub new_otp_token : ℕ → ℕ → Otp → VerificationTokenType → User → VerificationToken
new_otp_token new_id user_id otp type u = record {
  id = new_id;
  user_id = user_id;
  type = type;
  token_hash = otp.hash;
  identifier = channel type u;
  expires_at = otp.expires_at;
  used_at = none;
}

-- `user.pendingEmail ?? user.email`
abbrev pub mail_target : User → String
mail_target u = elim u.pending_email [ none ↦ u.email | some p ↦ p ]

abbrev pub new_email_token : ℕ → ℕ → EmailToken → ℕ → User → VerificationToken
new_email_token new_id user_id e now u = record {
  id = new_id;
  user_id = user_id;
  type = VerificationTokenType.email;
  token_hash = e.hash;
  identifier = some (mail_target u);
  expires_at = now + hour_in_ms;
  used_at = none;
}

-- `!user.pendingEmail && user.emailVerifiedAt`
abbrev pub nothing_to_verify : User → Bool
nothing_to_verify u = not (truthy u.pending_email) && is_set u.email_verified_at

-- `record.user?.pendingEmail`, where only a non-empty address counts.
abbrev pub pending_of : Option User → Option String
pending_of none = none
pending_of (some u) = if truthy u.pending_email then u.pending_email else none

abbrev pub email_verified : Option User → Bool
email_verified none = false
email_verified (some u) = is_set u.email_verified_at

-- `pending && record.identifier !== pending`
abbrev pub other_address : Option String → Option String → Bool
other_address none identifier = false
other_address (some p) identifier = not (is_some_of identifier p)

-- The data of the update: the address switches here, or is only marked as verified.
abbrev pub confirmed : Option String → ℕ → User → User
confirmed none now u = record u { email_verified_at = some now }
confirmed (some p) now u = record u {
  email = p;
  pending_email = none;
  email_verified_at = some now;
}

-- `@unique` on the phone, where a null clashes with nothing.
abbrev pub same_phone : Option String → Option String → Bool
same_phone none p = false
same_phone (some q) p = is_some_of p q

-- The unique columns of a user: `email` and `phone`.
abbrev pub same_contact : User → User → Bool
same_contact a b = a.email == b.email || same_phone a.phone b.phone

-- `record.identifier && record.identifier !== current`, where the channel changed after the code
-- was sent.
abbrev pub stale_channel : Option String → Option String → Bool
stale_channel none current = false
stale_channel (some i) current = not (i == "") && not (is_some_of current i)

abbrev pub channel_of : VerificationTokenType → Option User → Option String
channel_of type none = none
channel_of type (some u) = channel type u

-- The `where` of a code that is still live.
abbrev pub live_token : ℕ → ℕ → VerificationTokenType → VerificationToken → Bool
live_token now user_id type t =
    token_of user_id type t && (not (is_set t.used_at) && ltb now t.expires_at)

-- The `where` of a link.
abbrev pub link_of : (String → String) → String → VerificationToken → Bool
link_of digest token t = t.token_hash == digest token && t.type == VerificationTokenType.email

module _ {P : Prisma} where
  -- A token of a user that does not exist violates its foreign key.
  unfoldable pub get_otp_payload : Otp → ℕ → ℕ → VerificationTokenType → Handler P User
  get_otp_payload otp new_id user_id type = do
    found ← find_unique users user_id
    delete_many tokens (token_of user_id type)
    u ← or_throw Exception.foreign_key_violation found
    create tokens (λ t. t.id == new_id) (new_otp_token new_id user_id otp type u)
    pure u

  unfoldable pub send_link : (String → String) → String → ℕ → ℕ → ℕ → User → Handler P (Unit {0})
  send_link digest token new_id now user_id u = do
    let e = generate_email_token digest token
    delete_many tokens (token_of user_id VerificationTokenType.email)
    create tokens (λ t. t.id == new_id) (new_email_token new_id user_id e now u)
    emit (Effect.email_verification_mail (mail_target u) e.token)

  unfoldable pub send_email_verification :
      (String → String) → String → ℕ → ℕ → ℕ → Handler P (Unit {0})
  send_email_verification digest token new_id now user_id = find_unique users user_id >>= λ found.
      elim found [
        | none ↦ pure tt
        | some u ↦
            if nothing_to_verify u then pure tt else send_link digest token new_id now user_id u
      ]

  -- What `verifyEmailToken` writes, where a token of the user is consumed.
  unfoldable pub confirm_email : ℕ → VerificationToken → Option String → Handler P Bool
  confirm_email now t pending =
      catch_unique
        (transaction (do
          update_unique users same_contact t.user_id (confirmed pending now)
          delete tokens t.id
          pure true))
        (throw (Exception.bad_request Reason.email_unavailable))

  unfoldable pub load_link : (String → String) → String → Handler P VerificationToken
  load_link digest token = do
    throw_if (token == "") (Exception.bad_request Reason.invalid_token)
    found ← find_first tokens (link_of digest token)
    or_throw (Exception.bad_request Reason.invalid_token) found

  unfoldable pub use_link : ℕ → VerificationToken → Option User → Handler P Bool
  use_link now t user =
      if not (is_set (pending_of user)) && email_verified user then pure true else (do
        throw_if (ltb t.expires_at now) (Exception.bad_request Reason.token_expired)
        throw_if (other_address (pending_of user) t.identifier)
            (Exception.bad_request Reason.invalid_token)
        confirm_email now t (pending_of user))

  unfoldable pub verify_email_token : (String → String) → ℕ → String → Handler P Bool
  verify_email_token digest now token = do
    t ← load_link digest token
    user ← find_unique users t.user_id
    use_link now t user

  -- The row of the code, where it is live and was sent to the channel of today.
  unfoldable pub load_otp_token : ℕ → ℕ → VerificationTokenType → Handler P VerificationToken
  load_otp_token now user_id type = do
    found ← find_first tokens (live_token now user_id type)
    t ← or_throw (Exception.unauthorized Reason.token_expired) found
    user ← find_unique users t.user_id
    throw_if (stale_channel t.identifier (channel_of type user))
        (Exception.unauthorized Reason.token_expired)
    pure t

  unfoldable pub verify_otp_token : Bcrypt → ℕ → ℕ → String → VerificationTokenType → Handler P Bool
  verify_otp_token b now user_id token type = do
    t ← load_otp_token now user_id type
    throw_if (not (b.compare token t.token_hash)) (Exception.unauthorized Reason.token_invalid)
    delete_many tokens (token_of t.user_id type)
    pure true

  -- `if (!phone)`; the code is stored although it goes nowhere.
  unfoldable pub send_phone_verification : Otp → ℕ → ℕ → Handler P (Unit {0})
  send_phone_verification otp new_id user_id = do
    u ← get_otp_payload otp new_id user_id VerificationTokenType.phone
    throw_if (not (truthy u.phone)) (Exception.bad_request Reason.no_phone)
    phone ← or_throw (Exception.bad_request Reason.no_phone) u.phone
    emit (Effect.phone_verification_sms phone otp.plain)

  unfoldable pub send_email_opt : Otp → ℕ → ℕ → Handler P (Unit {0})
  send_email_opt otp new_id user_id = do
    u ← get_otp_payload otp new_id user_id VerificationTokenType.email
    emit (Effect.email_otp_mail u.email otp.plain)
