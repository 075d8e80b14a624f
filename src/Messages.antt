-- ===== src/Messages.antt =====
-- Messages of a conversation: src/messages/messages.service.ts and its controller.
mod Service
pub mod Laws
pub mod Guards
unfoldable pub use Service.*
