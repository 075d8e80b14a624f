-- ===== src/Ratings.antt =====
-- Ratings of completed missions: src/ratings/ratings.service.ts.
mod Service
pub mod Laws
unfoldable pub use Service.*
