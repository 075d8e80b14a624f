-- ===== src/Blocks.antt =====
-- Blocks between users: src/blocks/blocks.service.ts.
mod Service
pub mod Laws
unfoldable pub use Service.*
