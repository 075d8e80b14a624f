-- ===== src/Prisma.antt =====
-- The database as the services see it: the delegates of `DatabaseService`, which are parameters,
-- and the tables that they act on, with the events that the handlers have emitted.
mod Interface
mod Client
mod Locks
mod Unique
mod Replace
mod Absence
mod Memory
pub mod InMemory
pub use Interface.{Delegate, Within, written, kept}
pub use Client.*
pub use Locks.*
pub use Unique.*
pub use Replace.*
pub use Absence.*
