-- ===== src/Reports.antt =====
-- Reports to the admins: src/reports/reports.service.ts.
mod Service
pub mod Laws
unfoldable pub use Service.*
