-- ===== src/Missions.antt =====
-- Missions: src/missions/missions.service.ts.
mod Service
mod Effects
pub mod Transitions
pub mod SideEffects
pub mod Linking
unfoldable pub use Service.*
unfoldable pub use Effects.*
