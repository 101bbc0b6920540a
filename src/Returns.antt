-- ===== src/Returns.antt =====
-- apps/api/src/modules/returns/returns.service.ts: receipts of returned goods, the decision on each of
-- their lines and the processing that restocks or discards them.
mod Receive
mod Change
mod Process
pub mod Booked
pub mod Settled
unfoldable pub use Receive.*
unfoldable pub use Change.*
unfoldable pub use Process.*
