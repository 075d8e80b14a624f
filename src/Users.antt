-- ===== src/Users.antt =====
-- src/users/users.service.ts: accounts.
mod Service
mod Contacts
pub mod Profile
pub mod Channels
pub mod Removal
pub mod Forgotten
unfoldable pub use Service.*
