-- ===== src/Appointments.antt =====
-- Appointments proposed in a conversation: src/appointments/appointments.service.ts.
mod Service
pub mod Laws
unfoldable pub use Service.*
