-- ===== src/MissionRoutes.antt =====
-- The routes of the missions: src/missions/missions.controller.ts.
mod Routes
pub mod Updates
pub mod Cancelling
unfoldable pub use Routes.*
