-- ===== src/Conversations.antt =====
-- Conversations between a shipper and a carrier about an advertisement:
-- src/conversations/conversations.service.ts and the route that opens one.
mod Service
pub mod Laws
pub mod Opening
unfoldable pub use Service.*
