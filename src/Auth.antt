-- ===== src/Auth.antt =====
-- src/auth/auth.service.ts and src/auth/guards: sessions, one-time codes and external providers.
mod Service
mod Claims
pub mod Linking
pub mod Takeover
pub mod Login
pub mod Apple
unfoldable pub use Service.*
unfoldable pub use Claims.*
