-- ===== src/Picking.antt =====
-- apps/api/src/modules/outbound-picking/outbound-picking.service.ts, by its operations: the
-- reservation of stock for order lines (Reserve), its release (Release), the submission of a pick
-- (Submit) and manual picks (Manual). `new Date()` is the argument `now`; logging is left out.
pub mod Reserve
pub mod Release
pub mod Submit
pub mod Manual
