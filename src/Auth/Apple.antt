-- ===== src/Auth/Apple.antt =====
-- Which identity tokens of Apple are accepted.
use gp_connect_server.Common.{
  ℕ, ◌≡◌, refl, ◌↔◌, inl, inr, true, false, Option, some, List, String, arith, Option-cases, ◌==◌,
  string_eq, is_some_of_iff,
}
use gp_connect_server.Prisma.{Prisma, World}
use gp_connect_server.Handler.{ok}
use gp_connect_server.Auth.Claims.{
  AppleHeader, AppleClaims, AppleJwk, AppleCodec, TokenParts, find_key, past_expiry, three_parts,
  verify_apple_signature, verify_apple_identity_token,
}

-- What a token has to be: signed by a key of Apple, for this application, and not expired.
pub record IsAppleToken (codec : AppleCodec) (client_id : Option String) (keys : List AppleJwk)
    (now : ℕ) (token : String) (claims : AppleClaims) : Type 0 where
  pub client : String
  pub configured : client_id ≡ some client
  pub some_client : client == "" ≡ false
  pub parts : TokenParts
  pub split : three_parts (codec.split token) ≡ some parts
  pub header : AppleHeader
  pub header_read : codec.header_of parts.header ≡ some header
  pub claims_read : codec.claims_of parts.claims ≡ some claims
  pub algorithm : header.alg ≡ some "RS256"
  pub issuer : claims.iss ≡ some "https://appleid.apple.com"
  pub live : past_expiry now claims.exp ≡ false
  pub audience : claims.aud ≡ some client
  pub key : AppleJwk
  pub known : find_key header.kid keys ≡ some key
  pub signed : codec.verify key parts.header parts.claims parts.signature ≡ true

module _ {P : Prisma} where
  verify_apple_identity_token_sound :
      (codec : AppleCodec) (client_id : Option String) (keys : List AppleJwk) (now : ℕ)
      (token : String) (claims : AppleClaims) (w : World P)
      → (verify_apple_identity_token codec client_id keys now token w).0 ≡ ok claims
      → IsAppleToken codec client_id keys now token claims
  unfolding verify_apple_identity_token verify_apple_signature
  verify_apple_identity_token_sound codec client_id keys now token claims w h =
      elim (Option-cases client_id) [
        | inl z ↦ absurd (ground arith)
        | inr (client, configured) ↦ elim (Option-cases (three_parts (codec.split token))) [
          | inl z ↦ absurd (ground arith)
          | inr (parts, split) ↦ elim (Option-cases (codec.header_of parts.header)) [
            | inl z ↦ absurd (ground arith)
            | inr (header, header_read) ↦ elim (Option-cases (codec.claims_of parts.claims)) [
              | inl z ↦ absurd (ground arith)
              | inr (c, claims_read) ↦ elim (Option-cases (find_key header.kid keys)) [
                | inl z ↦ absurd (ground arith)
                | inr (key, known) ↦
                    let same : c ≡ claims = ground arith in
                    record {
                      client = client;
                      configured = configured;
                      some_client = ground arith;
                      parts = parts;
                      split = split;
                      header = header;
                      header_read = header_read;
                      claims_read = rw same at claims_read;
                      algorithm = (is_some_of_iff header.alg "RS256").0 (ground arith);
                      issuer =
                          (is_some_of_iff claims.iss "https://appleid.apple.com").0 (ground arith);
                      live = ground arith;
                      audience = (is_some_of_iff claims.aud client).0 (ground arith);
                      key = key;
                      known = known;
                      signed = ground arith;
                    }
              ]
            ]
          ]
        ]
      ]

  verify_apple_identity_token_complete :
      (codec : AppleCodec) (client_id : Option String) (keys : List AppleJwk) (now : ℕ)
      (token : String) (claims : AppleClaims) (w : World P)
      → IsAppleToken codec client_id keys now token claims
      → verify_apple_identity_token codec client_id keys now token w ≡ (ok claims, w)
  unfolding verify_apple_identity_token verify_apple_signature
  verify_apple_identity_token_complete codec client_id keys now token claims w r =
      let configured = r.configured in
      let some_client = r.some_client in
      let split = r.split in
      let header_read = r.header_read in
      let claims_read = r.claims_read in
      let algorithm = (is_some_of_iff r.header.alg "RS256").1 r.algorithm in
      let issuer = (is_some_of_iff claims.iss "https://appleid.apple.com").1 r.issuer in
      let live = r.live in
      let audience = (is_some_of_iff claims.aud r.client).1 r.audience in
      let known = r.known in let signed = r.signed in ground arith

  -- A token is accepted exactly if Apple login is configured and the token has three parts, says
  -- RS256, comes from Apple for this application, has not expired, and is signed by a key of Apple.
  pub verify_apple_identity_token_iff :
      (codec : AppleCodec) (client_id : Option String) (keys : List AppleJwk) (now : ℕ)
      (token : String) (claims : AppleClaims) (w : World P)
      → ((verify_apple_identity_token codec client_id keys now token w).0 ≡ ok claims)
        ↔ IsAppleToken codec client_id keys now token claims
  verify_apple_identity_token_iff codec client_id keys now token claims w = (
    verify_apple_identity_token_sound codec client_id keys now token claims w,
    λ r.
        let run = verify_apple_identity_token_complete codec client_id keys now token claims w r in
        rw run refl,
  )
