-- ===== src/Csrf.antt =====
-- src/common/guards/csrf.guard.ts: which requests are refused as forged across sites.
mod Guard
pub mod Trust
unfoldable pub use Guard.*
