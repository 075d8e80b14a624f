-- ===== src/Advertisements.antt =====
-- Advertisements: src/advertisements/advertisements.service.ts.
mod Service
mod Search
pub mod Withdrawal
pub mod Dossier
pub mod Publishing
pub mod Pages
pub mod Reach
unfoldable pub use Service.*
unfoldable pub use Search.*
