-- ===== src/Proofs/Codes.antt =====
-- One-time codes: src/common/utils/otp.util.ts. `bcrypt` is a parameter.
use gp_connect_server.Common.{ℕ, ◌+◌, ◌*◌, ◌≡◌, Bool, true, String}

-- What the code relies on of `bcrypt`: a code matches its own hash, under any salt.
pub record Bcrypt : Type 0 where
  pub hash : (salt plain : String) → String
  pub compare : (plain hashed : String) → Bool
  pub compare-hash : (salt plain : String) → compare plain (hash salt plain) ≡ true

pub record Otp : Type 0 where
  pub plain : String
  pub hash : String
  pub expires_at : ℕ

abbrev pub minute_in_ms : ℕ
minute_in_ms = 60000

-- `generateOtp` with its default duration of 15 minutes. The digits that `randomInt` draws and the
-- salt of the hash are given.
unfoldable pub generate_otp : Bcrypt → (plain salt : String) → (now : ℕ) → Otp
generate_otp b plain salt now = record {
  plain = plain;
  hash = b.hash salt plain;
  expires_at = now + 15 * minute_in_ms;
}

unfoldable pub verify_otp : Bcrypt → (plain hash : String) → Bool
verify_otp b plain hash = b.compare plain hash
