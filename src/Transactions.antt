-- ===== src/Transactions.antt =====
-- Payments: src/transactions/transactions.service.ts.
mod Service
pub mod Laws
unfoldable pub use Service.*
