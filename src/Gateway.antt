-- ===== src/Gateway.antt =====
-- src/chat/chat.gateway.ts: the sockets of the chat, their authentication and their rooms.
mod Strings
mod Service
pub mod Cookies
pub mod Rooms
unfoldable pub use Strings.*
unfoldable pub use Service.*
