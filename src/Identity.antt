-- ===== src/Identity.antt =====
-- src/identity/identity.service.ts: the verification of identities and the KYC badge.
mod Service
pub mod Events
pub mod Badge
pub mod Gate
unfoldable pub use Service.*
