-- ===== src/Auth/Service.antt =====
-- The operations of `AuthService` (src/auth/auth.service.ts) on accounts, and the guard on roles.
-- The signature of session tokens is a parameter.
use Prim.Native.String.{◌++◌ as text_append}
use gp_connect_server.Common.{
  ℕ, Bool, true, not, ◌&&◌, ◌||◌, Option, none, some, List, String, ◌==◌, nat_eq, string_eq, is_set,
  truthy, includes, if◌then◌else◌,
}
use gp_connect_server.Schema.{
  User, Role, role_eq, VerificationTokenType, verification_token_type_eq, AuthProvider,
  auth_provider_eq, UserProvider,
}
use gp_connect_server.Prisma.{Prisma}
use gp_connect_server.Handler.{
  Handler, Exception, Reason, ◌>>=◌, ◌>>◌, pure, or_throw, throw_if, when, find_unique, find_first,
  create, users, providers,
}
use gp_connect_server.Proofs.{Bcrypt, Otp}
use gp_connect_server.Verification.{
  verify_otp_token, send_phone_verification, send_email_opt, send_email_verification,
}
use gp_connect_server.Users.{
  UpdateUserDto, LinkDraw, create_user, find_by_identifier, update_by_id, background, given,
}

-- `JwtService.sign` with the access and with the refresh secret, on the payload `{ id }`.
pub record Jwt : Type 0 where
  pub sign_access : ℕ → String
  pub sign_refresh : ℕ → String

pub record Session : Type 0 where
  pub user : User
  pub access_token : String
  pub refresh_token : String

abbrev pub sign_token_pair : Jwt → User → Session
sign_token_pair j u = record {
  user = u;
  access_token = j.sign_access u.id;
  refresh_token = j.sign_refresh u.id;
}

pub record OauthProfile : Type 0 where
  pub provider_user_id : String
  pub email : Option String
  pub first_name : Option String
  pub last_name : Option String

-- What the rows of a login draw.
pub record OauthDraw : Type 0 where
  pub user_id : ℕ
  pub provider_id : ℕ
  pub now : ℕ

abbrev pub provider_name : AuthProvider → String
provider_name AuthProvider.google = "GOOGLE"
provider_name AuthProvider.apple = "APPLE"
provider_name AuthProvider.facebook = "FACEBOOK"

-- `${provider}-${providerUserId}@noemail.gpconnect`
abbrev pub placeholder_email : AuthProvider → String → String
placeholder_email provider id =
    text_append (provider_name provider) (text_append "-" (text_append id "@noemail.gpconnect"))

-- A new account: every other column has the default of the schema.
abbrev pub new_oauth_user : OauthDraw → OauthProfile → AuthProvider → Bool → User
new_oauth_user x p provider email_verified = record {
  id = x.user_id;
  email = given p.email (placeholder_email provider p.provider_user_id);
  pending_email = none;
  phone = none;
  first_name = given p.first_name "";
  last_name = given p.last_name "";
  password = none;
  role = Role.shipper;
  email_verified_at = if truthy p.email && email_verified then some x.now else none;
  phone_verified_at = none;
  id_card_verified_at = none;
  notify_email = none;
}

-- `@@unique([provider, providerUserId])`
abbrev pub is_account : AuthProvider → String → UserProvider → Bool
is_account provider provider_user_id r =
    r.provider == provider && r.provider_user_id == provider_user_id

abbrev pub new_provider : OauthDraw → OauthProfile → AuthProvider → ℕ → UserProvider
new_provider x p provider user_id = record {
  id = x.provider_id;
  user_id = user_id;
  provider = provider;
  provider_user_id = p.provider_user_id;
  email = p.email;
}

abbrev pub only_verified : ℕ → VerificationTokenType → UpdateUserDto
only_verified now type = record {
  email = none;
  phone = none;
  password = none;
  first_name = none;
  last_name = none;
  role = none;
  email_verified_at = if type == VerificationTokenType.email then some now else none;
  phone_verified_at = if type == VerificationTokenType.phone then some now else none;
  id_card_verified_at = none;
}

-- `!user.phoneVerifiedAt` for a code by SMS, `!user.emailVerifiedAt` for one by mail.
abbrev pub channel_unverified : VerificationTokenType → User → Bool
channel_unverified VerificationTokenType.email u = not (is_set u.email_verified_at)
channel_unverified VerificationTokenType.phone u = not (is_set u.phone_verified_at)

module _ {P : Prisma} where
  -- The channel of the code; the mail where the request names none.
  unfoldable pub send_code : VerificationTokenType → Otp → ℕ → ℕ → Handler P (Unit {0})
  send_code VerificationTokenType.phone otp new_id user_id =
      send_phone_verification otp new_id user_id
  send_code VerificationTokenType.email otp new_id user_id = send_email_opt otp new_id user_id

  unfoldable pub login :
      (String → String → Bool)
      → Otp
      → ℕ
      → String
      → Option VerificationTokenType
      → Handler P (Unit {0})
  login insensitive otp new_id identifier send_to = do
    found ← find_by_identifier insensitive identifier
    u ← or_throw (Exception.unauthorized Reason.invalid_credentials) found
    send_code (given send_to VerificationTokenType.email) otp new_id u.id

  -- The update is not awaited: what it throws is not part of the reply.
  unfoldable pub mark_verified :
      (String → String → Bool)
      → (String → String)
      → (String → String)
      → LinkDraw
      → VerificationTokenType
      → User
      → Handler P (Unit {0})
  mark_verified insensitive hash digest l type u = when (channel_unverified type u) (
      background
        (update_by_id insensitive hash digest l u.id (only_verified l.now type) >>= λ _. pure tt))

  unfoldable pub login_opt :
      Bcrypt
      → Jwt
      → (String → String → Bool)
      → (String → String)
      → (String → String)
      → LinkDraw
      → String
      → String
      → VerificationTokenType
      → Handler P Session
  login_opt b j insensitive hash digest l identifier code type = do
    found ← find_by_identifier insensitive identifier
    u ← or_throw (Exception.unauthorized Reason.invalid_credentials) found
    verify_otp_token b l.now u.id code type
    mark_verified insensitive hash digest l type u
    pure (sign_token_pair j u)

  unfoldable pub register :
      (String → String) → (String → String) → Otp → LinkDraw → ℕ → User → Handler P User
  register hash digest otp l otp_id data_ = do
    u ← create_user hash data_
    when (truthy u.phone) (send_phone_verification otp otp_id u.id)
    send_email_verification digest l.token l.new_id l.now u.id
    pure u

  unfoldable pub refresh_token : Jwt → ℕ → Handler P String
  refresh_token j user_id = do
    found ← find_unique users user_id
    or_throw (Exception.unauthorized Reason.unspecified) found
    pure (j.sign_access user_id)

  -- `userProvider?.user`
  unfoldable pub linked_user : Option UserProvider → Handler P (Option User)
  linked_user none = pure none
  linked_user (some r) = find_unique users r.user_id

  -- An account with the address of the profile, which a provider may be attached to only if it
  -- vouches for the address.
  unfoldable pub attachable : Option String → Bool → Handler P (Option User)
  attachable email email_verified =
      if truthy email
      then (do
        existing ← find_first users (λ u. u.email == given email "")
        throw_if (is_set existing && not email_verified)
            (Exception.unauthorized Reason.email_of_other_account)
        pure existing)
      else pure none

  unfoldable pub resolve_user : OauthProfile → Bool → Option User → Handler P (Option User)
  resolve_user p email_verified (some u) = pure (some u)
  resolve_user p email_verified none = attachable p.email email_verified

  unfoldable pub ensure_user :
      OauthDraw → OauthProfile → AuthProvider → Bool → Option User → Handler P User
  ensure_user x p provider email_verified (some u) = pure u
  ensure_user x p provider email_verified none =
      create_user (λ s. s) (new_oauth_user x p provider email_verified)

  unfoldable pub attach_provider :
      OauthDraw → OauthProfile → AuthProvider → Option UserProvider → User → Handler P (Unit {0})
  attach_provider x p provider (some r) u = pure tt
  attach_provider x p provider none u = do
    create providers
        (λ r.
          r.id == x.provider_id
          || (is_account provider p.provider_user_id r
              || (r.user_id == u.id && r.provider == provider)))
        (new_provider x p provider u.id)
    pure tt

  unfoldable pub validate_oauth_login :
      OauthDraw → OauthProfile → AuthProvider → Bool → Handler P User
  validate_oauth_login x p provider email_verified = do
    row ← find_first providers (is_account provider p.provider_user_id)
    linked ← linked_user row
    resolved ← resolve_user p email_verified linked
    u ← ensure_user x p provider email_verified resolved
    attach_provider x p provider row u
    pure u

  -- `RolesGuard.canActivate`; a handler without `@Roles` has no list.
  unfoldable pub roles_guard : Option (List Role) → ℕ → Handler P Bool
  roles_guard none user_id = pure true
  roles_guard (some roles) user_id = do
    found ← find_unique users user_id
    u ← or_throw (Exception.unauthorized Reason.unspecified) found
    pure (includes roles u.role)
