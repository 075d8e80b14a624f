-- ===== src/Proofs.antt =====
-- Proofs of pickup and of delivery by one-time codes: src/proof/proof.service.ts and
-- src/common/utils/otp.util.ts.
mod Codes
mod Service
pub mod Guessing
pub mod Consume
pub mod Commit
pub mod Stale
pub mod Issue
unfoldable pub use Codes.*
unfoldable pub use Service.*
