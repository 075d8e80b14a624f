-- ===== src/Offers.antt =====
-- Offers made in a conversation: src/offers/offers.service.ts.
mod Service
pub mod Acceptance
pub mod Rows
pub mod Guards
pub mod Accept
pub mod Reject
unfoldable pub use Service.*
