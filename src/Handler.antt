-- ===== src/Handler.antt =====
-- Request handlers as values: a handler runs on the database and returns or throws. What it wrote
-- before a throw stays written, except inside `transaction`.
mod Exceptions
mod Monad
mod Queries
pub mod Inversion
pub use Exceptions.{Exception, Reason}
pub use Monad.*
unfoldable pub use Queries.*
pub use Inversion.{Result-cases}
