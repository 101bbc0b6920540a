-- ===== src/Db/Tables.antt =====
-- The store: every table of the modelled part of the database.
use warehousehub.Base.{List}
use warehousehub.Db.Rows.{
  Warehouse, Item, Customer, Lot, Stock, Order, Line, Allocation, InventoryTx, InventoryTxLine,
}
use warehousehub.Db.Documents.{
  Transfer, Stocktaking, CountLine, Branch, Asn, Upload, Receipt, ReceiptLine,
}

pub record Store : Type 0 where
  pub warehouses : List Warehouse
  pub items : List Item
  pub customers : List Customer
  pub lots : List Lot
  pub stocks : List Stock
  pub orders : List Order
  pub lines : List Line
  pub allocations : List Allocation
  pub txs : List InventoryTx
  pub tx_lines : List InventoryTxLine
  pub transfers : List Transfer
  pub stocktakings : List Stocktaking
  pub count_lines : List CountLine
  pub branches : List Branch
  pub asns : List Asn
  pub uploads : List Upload
  pub receipts : List Receipt
  pub receipt_lines : List ReceiptLine
