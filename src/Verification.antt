-- ===== src/Verification.antt =====
-- src/users/user-verification.service.ts and src/users/generateEmailToken.ts: proofs of control of
-- an address or a phone number.
mod Service
pub mod Otp
pub mod Email
pub mod Links
unfoldable pub use Service.*
