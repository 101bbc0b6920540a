-- ===== src/Db.antt =====
-- The database of apps/api/prisma/schema.prisma as the services see it: its rows (Db/Rows
-- and Db/Documents), the store of tables (Db/Tables), results and the transaction monad (Db/Monad), what the database engine decides
-- (Db/Backend) and the single-row statements of a Prisma transaction client (Db/Statements).
mod Rows
mod Documents
mod Tables
mod Monad
mod Backend
mod Statements
pub use Rows.*
pub use Documents.*
pub use Tables.*
pub use Monad.*
pub use Backend.*
unfoldable pub use Statements.*
