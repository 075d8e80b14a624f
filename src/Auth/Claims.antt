-- ===== src/Auth/Claims.antt =====
-- The tokens of the external providers, in src/auth/auth.service.ts: what is checked before their
-- claims are used. The decoding of base64 and JSON and the signatures are parameters.
use gp_connect_server.Common.{
  ℕ, ◌-◌, ◌*◌, Bool, true, false, not, ◌||◌, Option, none, some, List, [], ◌∷◌, String, ◌==◌,
  nat_eq, string_eq, ltb, is_some_of, truthy, if◌then◌else◌,
}
use gp_connect_server.Schema.{AuthProvider}
use gp_connect_server.Prisma.{Prisma}
use gp_connect_server.Handler.{Handler, Exception, Reason, ◌>>=◌, ◌>>◌, pure, or_throw, throw_if}
use gp_connect_server.Auth.Service.{
  Jwt, Session, OauthProfile, OauthDraw, sign_token_pair, validate_oauth_login,
}

pub record AppleHeader : Type 0 where
  pub alg : Option String
  pub kid : Option String

-- A claim that Apple sends as a Boolean or as a string.
pub data Flag : Type 0 where
  boolean : Bool → Flag
  text : String → Flag
  missing : Flag

-- `claims.email_verified === true || claims.email_verified === 'true'`
abbrev pub is_true : Flag → Bool
is_true (Flag.boolean b) = b
is_true (Flag.text s) = s == "true"
is_true Flag.missing = false

pub record AppleClaims : Type 0 where
  pub sub : String
  pub email : Option String
  pub email_verified : Flag
  pub iss : Option String
  pub exp : Option ℕ
  pub aud : Option String

pub record AppleJwk : Type 0 where
  pub kid : String
  pub key : String

-- `split('.')`, the decoders of the parts, and the check of a signature under a key.
pub record AppleCodec : Type 0 where
  pub split : String → List String
  pub header_of : String → Option AppleHeader
  pub claims_of : String → Option AppleClaims
  pub verify : AppleJwk → (header claims signature : String) → Bool

pub record AppleJwksCache : Type 0 where
  pub keys : List AppleJwk
  pub cached_at : ℕ

abbrev pub one_hour_in_ms : ℕ
one_hour_in_ms = 60 * 60 * 1000

-- `getAppleJwks`: the keys, and the cache afterwards. `fetched` is what Apple's server answers.
unfoldable pub get_apple_jwks :
    ℕ → List AppleJwk → Option AppleJwksCache → List AppleJwk × Option AppleJwksCache
get_apple_jwks now fetched none = (fetched, some (record { keys = fetched; cached_at = now }))
get_apple_jwks now fetched (some c) =
    if ltb (now - c.cached_at) one_hour_in_ms
    then (c.keys, some c)
    else (fetched, some (record { keys = fetched; cached_at = now }))

-- `keys.find((k) => k.kid === kid)`
unfoldable pub find_key : Option String → List AppleJwk → Option AppleJwk
find_key kid [] = none
find_key kid (k ∷ keys) =
    let rest = find_key kid keys in if is_some_of kid k.kid then some k else rest

-- `Date.now() / 1000 > claims.exp`, which is false for a missing claim.
abbrev pub past_expiry : ℕ → Option ℕ → Bool
past_expiry now none = false
past_expiry now (some exp) = ltb (exp * 1000) now

pub record TokenParts : Type 0 where
  pub header : String
  pub claims : String
  pub signature : String

abbrev pub three_parts : List String → Option TokenParts
three_parts (h ∷ c ∷ s ∷ []) = some (record { header = h; claims = c; signature = s })
three_parts _ = none

-- What Facebook's servers answer: to the request about the token, and about the profile.
pub record FacebookDebug : Type 0 where
  pub is_valid : Bool
  pub app_id : Option String

pub record FacebookProfile : Type 0 where
  pub id : Option String
  pub email : Option String
  pub first_name : Option String
  pub last_name : Option String
  pub error : Bool

module _ {P : Prisma} where
  unfoldable pub verify_apple_signature :
      AppleCodec → List AppleJwk → TokenParts → Option String → Handler P (Unit {0})
  verify_apple_signature codec keys t kid = do
    k ← or_throw (Exception.unauthorized Reason.apple_key_not_found) (find_key kid keys)
    throw_if (not (codec.verify k t.header t.claims t.signature))
        (Exception.unauthorized Reason.apple_signature)

  unfoldable pub verify_apple_identity_token :
      AppleCodec → Option String → List AppleJwk → ℕ → String → Handler P AppleClaims
  verify_apple_identity_token codec client_id keys now identity_token = do
    throw_if (not (truthy client_id)) (Exception.unauthorized Reason.apple_not_configured)
    t ←
        or_throw (Exception.unauthorized Reason.apple_malformed)
          (three_parts (codec.split identity_token))
    header ← or_throw Exception.type_error (codec.header_of t.header)
    claims ← or_throw Exception.type_error (codec.claims_of t.claims)
    throw_if (not (is_some_of header.alg "RS256")) (Exception.unauthorized Reason.apple_algorithm)
    throw_if (not (is_some_of claims.iss "https://appleid.apple.com"))
        (Exception.unauthorized Reason.apple_issuer)
    throw_if (past_expiry now claims.exp) (Exception.unauthorized Reason.apple_expired)
    id ← or_throw (Exception.unauthorized Reason.apple_not_configured) client_id
    throw_if (not (is_some_of claims.aud id)) (Exception.unauthorized Reason.apple_audience)
    verify_apple_signature codec keys t header.kid
    pure claims

  unfoldable pub validate_apple_token :
      AppleCodec
      → Jwt
      → Option String
      → List AppleJwk
      → OauthDraw
      → String
      → Option String
      → Option String
      → Handler P Session
  validate_apple_token codec j client_id keys x identity_token first_name last_name = do
    claims ← verify_apple_identity_token codec client_id keys x.now identity_token
    u ←
        validate_oauth_login x
          (record {
            provider_user_id = claims.sub;
            email = claims.email;
            first_name = first_name;
            last_name = last_name;
          })
          AuthProvider.apple (is_true claims.email_verified)
    pure (sign_token_pair j u)

  -- `ticket.getPayload()` of `verifyIdToken`; every failure is caught.
  unfoldable pub validate_google_token :
      Jwt → OauthDraw → Option (OauthProfile × Bool) → Handler P Session
  validate_google_token j x payload = do
    found ← or_throw (Exception.unauthorized Reason.google_token_invalid) payload
    u ← validate_oauth_login x found.0 AuthProvider.google found.1
    pure (sign_token_pair j u)

  -- A reply that is not `ok` is none.
  unfoldable pub assert_facebook_token_issued_for_app :
      Option FacebookDebug → String → Handler P (Unit {0})
  assert_facebook_token_issued_for_app reply app_id = do
    debug ← or_throw (Exception.unauthorized Reason.facebook_token_invalid) reply
    throw_if (not debug.is_valid || not (is_some_of debug.app_id app_id))
        (Exception.unauthorized Reason.facebook_wrong_app)

  unfoldable pub fetch_facebook_profile : Option FacebookProfile → Handler P OauthProfile
  fetch_facebook_profile reply = do
    f ← or_throw (Exception.unauthorized Reason.facebook_token_invalid) reply
    throw_if (f.error || not (truthy f.id)) (Exception.unauthorized Reason.facebook_failed)
    id ← or_throw (Exception.unauthorized Reason.facebook_failed) f.id
    pure (record {
      provider_user_id = id;
      email = f.email;
      first_name = f.first_name;
      last_name = f.last_name;
    })

  unfoldable pub validate_facebook_token :
      Jwt
      → OauthDraw
      → Option String
      → Option String
      → Option FacebookDebug
      → Option FacebookProfile
      → Handler P Session
  validate_facebook_token j x app_id app_secret debug reply = do
    throw_if (not (truthy app_id) || not (truthy app_secret))
        (Exception.unauthorized Reason.facebook_not_configured)
    id ← or_throw (Exception.unauthorized Reason.facebook_not_configured) app_id
    assert_facebook_token_issued_for_app debug id
    p ← fetch_facebook_profile reply
    u ← validate_oauth_login x p AuthProvider.facebook true
    pure (sign_token_pair j u)
