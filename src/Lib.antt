-- ===== src/Lib.antt =====
-- WarehouseHub's inventory: orders, reservations, picking and shipping, transfers between
-- warehouses, stocktaking, inbound uploads, returns and shipping notices (apps/api/src/modules), and the theorems that keep its stock figures right.
--
-- The program. A NestJS API over PostgreSQL (Prisma). An order of a customer has lines; each line
-- reserves stock, first expired first out, by pick allocations that raise the `reserved` column of
-- stock rows; picking, verification and shipping move the order through its statuses; the completed
-- shipment commits the allocations and takes the picked quantities from `onHand`. Edits and
-- cancellations release reservations again. The figures agree only if all these services keep the
-- stock rows and the allocations in step: that is what the development is about.
--
-- The files, with the code each models:
--   Base        lists, integers and tables; no code of the program
--   Db          apps/api/prisma/schema.prisma: Rows and Documents have the rows and enums, Tables
--               the store, Monad the transactions and exceptions, Backend the database engine,
--               Statements the Prisma calls on one row
--   Picking     outbound-picking/outbound-picking.service.ts: Reserve (reserveAdditionalForLineTx,
--               reserveForOrderTx), Release (releaseQtyForLineTx, releaseAllForOrderTx), Submit
--               (submit), Manual (manualPick)
--   Orders      outbound-orders/outbound-orders.service.ts: create, addLine, updateLine, cancelLine,
--               cancelOrder, with the rollback of a picked order that is edited
--   Shipping    outbound-shipping/outbound-shipping.service.ts: verify, start, complete
--   Transfers   transfers/transfers.service.ts: create, confirm, cancel
--   Stocktaking stocktaking/stocktaking.service.ts: create, addLines, updateLineActualQty, confirm
--   Notices     asn/asn.service.ts: create, cancel
--   Items       items/items.service.ts: create, update, deactivate, activate
--   Inbound     inbound/inbound.service.ts: createUpload, confirmUpload, cancelUpload
--   Returns     returns/returns.service.ts: Receive (create, update, cancel, decide), Process
--               (process); Booked and Settled prove what they leave behind
--   Stocks      stocks/stocks.service.ts: updateStock
--   Lots        the lookup of lots and warehouses in the last two services
--   Workflow    the requests of the three outbound controllers in any order; Final: what becomes of
--               delivered and cancelled orders
--   Operations  the requests of a company to these services, except Items and Stocks, in any
--               order; UploadRuns and ReturnRuns: those to one service
--   Journal     the inventory journal (inventoryTxLine) against the stock rows
--   Frames      calls that leave a part of the store alone, or keep an invariant
--   Ledger      what the tables agree on (`IsSound`), and the two moves that keep it
--   Examples    a concrete engine and database, and the witnesses
--
-- How the code is modelled. A service method is a do block over `Tx`: it reads and updates the
-- store (all tables) and returns or throws; a throw carries no store, since `$transaction` rolls
-- back. Each call is one step: calls do not interleave. A method's arguments stand in the source's
-- order, with the time of the call (`new Date()`) as the argument `now`. Tables are lists; a query
-- without `orderBy` reads them in the order of the list. Identifiers (UUIDs) are numbers, which are
-- only compared. Quantities are Decimal(18, 3) columns that the code reads as JavaScript numbers;
-- here they are integers in thousandths (costs in ten-thousandths) with exact arithmetic. For whole
-- numbers of eighths of a unit, up to the largest value of such a column, doubles are exact too. For
-- other decimals they are not: the loops that subtract (reserveAdditionalForLineTx,
-- releaseQtyForLineTx) can end with a rest far below a thousandth, which the source takes for a
-- positive quantity. How much they take and leave over, and that a release does not throw, is
-- therefore proved for whole numbers of eighths (Base/Eighths); the
-- invariants of the ledger hold all the same, since the columns store thousandths. The database
-- engine and the generator of identifiers are not in the repository: they are the parameter
-- `Engine`, with the documented behaviour of `findMany` and of `@default(uuid())` as `IsEngine`;
-- JavaScript's `trim` and the rounding to tenths (`toFixed(1)`, by the laws `IsToTenths`) are
-- arguments of the methods that call them. The services for stocktaking lines and items write
-- without a transaction; each of their calls has one write that can fail, the first.
-- No loop needs fuel: each runs over a list that a query returned.
--
-- Not modelled: the read views and the Excel exports of these services, logging, the HTTP layer,
-- authentication, the parsing of Excel sheets, and the modules for users, customers, companies,
-- branches, warehouses, dashboards, forecasts, costs, temperatures and mail, and the web and mobile clients.
pub mod Base
pub mod Db
pub mod Picking
pub mod Orders
pub mod Shipping
pub mod Ledger
pub mod Frames
pub mod Journal
pub mod Lots
pub mod Stocks
pub mod Items
pub mod Inbound
pub mod Returns
pub mod Transfers
pub mod Stocktaking
pub mod Notices
pub mod Workflow
pub mod Operations
pub mod Examples
