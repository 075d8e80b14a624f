-- ===== src/Schema.antt =====
-- The data model of prisma/schema.prisma: enumerations and rows.
mod Enums
mod Rows
pub use Enums.*
pub use Rows.*
