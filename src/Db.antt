-- ===== src/Db.antt =====
-- The database of database/schema.prisma, and the monad in which the services are written.
mod Rows
mod Monad
pub mod Guarantee
pub mod Redis
pub mod Users
pub use Rows.*
unfoldable pub use Monad.*
