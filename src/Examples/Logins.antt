-- ===== src/Examples/Logins.antt =====
-- Logins with codes and through external providers.
use gp_connect_server.Common.{◌≡◌, refl, some, none, true, false, [], ◌∷◌, arith, ℕ, ◌↔◌}
use gp_connect_server.Schema.{User, VerificationTokenType, AuthProvider}
use gp_connect_server.Prisma.InMemory.{in_memory}
use gp_connect_server.Handler.{ok}
use gp_connect_server.Proofs.{generate_otp}
use gp_connect_server.Verification.{get_otp_payload, send_phone_verification}
use gp_connect_server.Users.{LinkDraw, find_by_identifier, create_user}
use gp_connect_server.Auth.{
  Jwt, OauthProfile, OauthDraw, new_oauth_user, validate_oauth_login, linked_user, resolve_user,
  attachable, ensure_user, attach_provider, login, send_code, login_opt, sign_token_pair,
  AppleCodec, AppleClaims, AppleJwk, Flag, verify_apple_identity_token,
}
use gp_connect_server.Auth.Takeover.{validate_oauth_login-unvouched, validate_oauth_login-again}
use gp_connect_server.Auth.Login.{login-login_opt}
use gp_connect_server.Auth.Apple.{IsAppleToken, verify_apple_identity_token_iff}
use gp_connect_server.Examples.Data.{shipper, carrier, negotiation, plain_bcrypt}
use text.Mathlib.Text.{◌==◌ as str_eq}

abbrev stranger : OauthProfile
stranger = record {
  provider_user_id = "g1";
  email = some "new@x";
  first_name = some "New";
  last_name = none;
}

abbrev oauth : OauthDraw
oauth = record { user_id = 9; provider_id = 90; now = 100 }

unvouched-runs :
    (validate_oauth_login oauth stranger AuthProvider.google false negotiation).0
    ≡ ok (new_oauth_user oauth stranger AuthProvider.google false)
unfolding validate_oauth_login linked_user resolve_user attachable ensure_user attach_provider
    create_user
unvouched-runs = refl

validate_oauth_login-unvouched_example :
    (in_memory.user.find_unique 9 negotiation.users ≡ none)
    × ((k : ℕ) (a : User)
        → in_memory.user.find_unique k negotiation.users ≡ some a
        → in_memory.user.find_unique k
            (validate_oauth_login oauth stranger AuthProvider.google false negotiation).1.users
          ≡ some a)
validate_oauth_login-unvouched_example =
    validate_oauth_login-unvouched oauth stranger AuthProvider.google negotiation
      (λ r f e. absurd (ground arith)) refl unvouched-runs

-- The carrier, whose address the provider vouches for, and later a profile without an address.
abbrev known : OauthProfile
known = record stranger { email = some "c@x" }

abbrev nameless : OauthProfile
nameless = record stranger { email = none }

known-runs : (validate_oauth_login oauth known AuthProvider.google true negotiation).0 ≡ ok carrier
unfolding validate_oauth_login linked_user resolve_user attachable ensure_user attach_provider
known-runs = refl

validate_oauth_login-again_example :
    let w' = (validate_oauth_login oauth known AuthProvider.google true negotiation).1 in
    validate_oauth_login oauth nameless AuthProvider.google false w' ≡ (ok carrier, w')
validate_oauth_login-again_example =
    validate_oauth_login-again oauth oauth known nameless AuthProvider.google true false negotiation
      (λ r f e. absurd (ground arith)) refl known-runs

abbrev plain_jwt : Jwt
plain_jwt = record { sign_access = λ id. "access"; sign_refresh = λ id. "refresh" }

abbrev soon : LinkDraw
soon = record { token = "tok"; new_id = 62; now = 200 }

shipper-named : (find_by_identifier str_eq "s@x" negotiation).0 ≡ ok (some shipper)
unfolding find_by_identifier
shipper-named = refl

login-runs :
    (login str_eq
      (generate_otp plain_bcrypt "1234" "salt" 100)
      61
      "s@x"
      (some VerificationTokenType.phone)
      negotiation).0
    ≡ ok tt
unfolding login find_by_identifier send_code send_phone_verification get_otp_payload generate_otp
login-runs = refl

login-login_opt_example :
    let w' =
      (login str_eq
        (generate_otp plain_bcrypt "1234" "salt" 100)
        61
        "s@x"
        (some VerificationTokenType.phone)
        negotiation).1 in
    (login_opt plain_bcrypt plain_jwt str_eq
      (λ s. s)
      (λ s. s)
      soon
      "s@x"
      "1234"
      VerificationTokenType.phone
      w').0
    ≡ ok (sign_token_pair plain_jwt shipper)
login-login_opt_example =
    login-login_opt plain_bcrypt plain_jwt str_eq (λ s. s) (λ s. s) soon "s@x" "1234" "salt"
      VerificationTokenType.phone 100 61 negotiation shipper shipper-named login-runs (omega arith)

abbrev apple_claims : AppleClaims
apple_claims = record {
  sub = "a1";
  email = some "c@x";
  email_verified = Flag.text "true";
  iss = some "https://appleid.apple.com";
  exp = some 1;
  aud = some "app";
}

abbrev apple_codec : AppleCodec
apple_codec = record {
  split = λ t. "h" ∷ "c" ∷ "s" ∷ [];
  header_of = λ h. some (record { alg = some "RS256"; kid = some "k" });
  claims_of = λ c. some apple_claims;
  verify = λ k h c s. true;
}

abbrev apple_key : AppleJwk
apple_key = record { kid = "k"; key = "n" }

verify_apple_identity_token_iff_example :
    ((verify_apple_identity_token apple_codec (some "app") (apple_key ∷ []) 1000 "t" negotiation).0
      ≡ ok apple_claims)
    ↔ IsAppleToken apple_codec (some "app") (apple_key ∷ []) 1000 "t" apple_claims
verify_apple_identity_token_iff_example =
    verify_apple_identity_token_iff apple_codec (some "app") (apple_key ∷ []) 1000 "t" apple_claims
      negotiation
