-- ===== src/Disputes.antt =====
-- Disputes on missions: src/disputes/disputes.service.ts.
mod Service
pub mod Resolution
pub mod Laws
unfoldable pub use Service.*
