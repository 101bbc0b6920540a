-- ===== src/Db/Statements.antt =====
-- The statements of a Prisma transaction client on single rows, found by a unique column.
use warehousehub.Base.{
  ℕ, Bool, Option, none, some, ◌∷◌, ◌==◌, ◌&&◌, length, keep, not, ℤ, pos, ◌+ℤ◌, find_by, exists_by,
  if◌then◌else◌, update_first, update_many,
}
use warehousehub.Db.Rows.{
  StockKey, has_key, Item, Lot, Stock, Order, Line, Allocation, InventoryTx, InventoryTxLine,
}
use warehousehub.Db.Backend.{Engine}
use warehousehub.Db.Documents.{Upload, Receipt, ReceiptLine, Transfer, Stocktaking, CountLine, Asn}
use warehousehub.Db.Tables.{Store}
use warehousehub.Db.Monad.{record_missing, unique_violation, ok, err, Tx}

-- `tx.stock.update`
unfoldable pub update_stock : (Stock → Bool) → (Stock → Stock) → Tx (Unit {0})
update_stock p f s = elim (update_first p f s.stocks) [
  | none ↦ err record_missing
  | some l ↦ ok tt (record s { stocks = l })
]

-- `tx.pickAllocation.update({ where: { id } })`
unfoldable pub update_allocation : ℕ → (Allocation → Allocation) → Tx (Unit {0})
update_allocation id f s = elim (update_first (λ a. a.id == id) f s.allocations) [
  | none ↦ err record_missing
  | some l ↦ ok tt (record s { allocations = l })
]

-- `tx.outboundOrder.update({ where: { id } })`
unfoldable pub update_order : ℕ → (Order → Order) → Tx (Unit {0})
update_order id f s = elim (update_first (λ o. o.id == id) f s.orders) [
  | none ↦ err record_missing
  | some l ↦ ok tt (record s { orders = l })
]

-- `tx.outboundLine.update({ where: { id } })`
unfoldable pub update_line_row : ℕ → (Line → Line) → Tx (Unit {0})
update_line_row id f s = elim (update_first (λ l. l.id == id) f s.lines) [
  | none ↦ err record_missing
  | some l ↦ ok tt (record s { lines = l })
]

-- `tx.outboundLine.updateMany`
unfoldable pub update_line_rows : (Line → Bool) → (Line → Line) → Tx (Unit {0})
update_line_rows p f s = ok tt (record s { lines = update_many p f s.lines })

unfoldable pub insert_allocation : Allocation → Tx (Unit {0})
insert_allocation a s = ok tt (record s { allocations = a ∷ s.allocations })

unfoldable pub insert_order : Order → Tx (Unit {0})
insert_order o s = ok tt (record s { orders = o ∷ s.orders })

unfoldable pub insert_line : Line → Tx (Unit {0})
insert_line l s = ok tt (record s { lines = l ∷ s.lines })

unfoldable pub insert_tx : InventoryTx → Tx (Unit {0})
insert_tx t s = ok tt (record s { txs = t ∷ s.txs })

-- `findFirst({ where: { id, companyId } })` on the orders.
abbrev pub find_order : ℕ → ℕ → Store → Option Order
find_order company id s = find_by (λ o. (o.id == id) && (o.company == company)) s.orders

-- `tx.stock.updateMany`
unfoldable pub update_stock_rows : (Stock → Bool) → (Stock → Stock) → Tx (Unit {0})
update_stock_rows p f s = ok tt (record s { stocks = update_many p f s.stocks })

unfoldable pub insert_stock : Stock → Tx (Unit {0})
insert_stock r s = ok tt (record s { stocks = r ∷ s.stocks })

unfoldable pub insert_tx_line : InventoryTxLine → Tx (Unit {0})
insert_tx_line l s = ok tt (record s { tx_lines = l ∷ s.tx_lines })

unfoldable pub insert_transfer : Transfer → Tx (Unit {0})
insert_transfer t s = ok tt (record s { transfers = t ∷ s.transfers })

-- `transfer.update({ where: { id } })`
unfoldable pub update_transfer : ℕ → (Transfer → Transfer) → Tx (Unit {0})
update_transfer id f s = elim (update_first (λ t. t.id == id) f s.transfers) [
  | none ↦ err record_missing
  | some l ↦ ok tt (record s { transfers = l })
]

unfoldable pub insert_stocktaking : Stocktaking → Tx (Unit {0})
insert_stocktaking c s = ok tt (record s { stocktakings = c ∷ s.stocktakings })

-- `stocktaking.update({ where: { id } })`
unfoldable pub update_stocktaking : ℕ → (Stocktaking → Stocktaking) → Tx (Unit {0})
update_stocktaking id f s = elim (update_first (λ c. c.id == id) f s.stocktakings) [
  | none ↦ err record_missing
  | some l ↦ ok tt (record s { stocktakings = l })
]

-- `@@unique([stocktakingId, lotId])`
unfoldable pub insert_count_line : CountLine → Tx (Unit {0})
insert_count_line c s =
    if exists_by (λ x. (x.stocktaking == c.stocktaking) && (x.lot == c.lot)) s.count_lines
    then err unique_violation
    else ok tt (record s { count_lines = c ∷ s.count_lines })

-- `stocktakingLine.update({ where: { id } })`
unfoldable pub update_count_line : ℕ → (CountLine → CountLine) → Tx (Unit {0})
update_count_line id f s = elim (update_first (λ c. c.id == id) f s.count_lines) [
  | none ↦ err record_missing
  | some l ↦ ok tt (record s { count_lines = l })
]

unfoldable pub insert_asn : Asn → Tx (Unit {0})
insert_asn a s = ok tt (record s { asns = a ∷ s.asns })

-- `asn.update({ where: { id } })`
unfoldable pub update_asn : ℕ → (Asn → Asn) → Tx (Unit {0})
update_asn id f s = elim (update_first (λ a. a.id == id) f s.asns) [
  | none ↦ err record_missing
  | some l ↦ ok tt (record s { asns = l })
]

-- `tx.stock.upsert` by the unique key: the quantity is added, or a row is created with it.
unfoldable pub upsert_stock : Engine → StockKey → ℤ → Tx (Unit {0})
upsert_stock e k qty s = elim (find_by (has_key k) s.stocks) [
  | some r ↦ update_stock (λ x. x.id == r.id) (λ x. record x { on_hand = x.on_hand +ℤ qty }) s
  | none ↦
      insert_stock
        (record {
          id = e.new_id s;
          company = k.company;
          warehouse = k.warehouse;
          lot = k.lot;
          on_hand = qty;
          reserved = pos 0;
        })
        s
]

unfoldable pub insert_item : Item → Tx (Unit {0})
insert_item i s = ok tt (record s { items = i ∷ s.items })

-- `item.update({ where: { id } })`
unfoldable pub update_item : ℕ → (Item → Item) → Tx (Unit {0})
update_item id f s = elim (update_first (λ i. i.id == id) f s.items) [
  | none ↦ err record_missing
  | some l ↦ ok tt (record s { items = l })
]

unfoldable pub insert_lot : Lot → Tx (Unit {0})
insert_lot l s = ok tt (record s { lots = l ∷ s.lots })

unfoldable pub insert_upload : Upload → Tx (Unit {0})
insert_upload u s = ok tt (record s { uploads = u ∷ s.uploads })

-- `inboundUpload.updateMany`, which returns the number of rows.
unfoldable pub update_uploads : (Upload → Bool) → (Upload → Upload) → Tx ℕ
update_uploads p f s =
    ok (length (keep p s.uploads)) (record s { uploads = update_many p f s.uploads })

unfoldable pub insert_receipt : Receipt → Tx (Unit {0})
insert_receipt r s = ok tt (record s { receipts = r ∷ s.receipts })

-- `returnReceipt.update({ where: { id } })`
unfoldable pub update_receipt : ℕ → (Receipt → Receipt) → Tx (Unit {0})
update_receipt id f s = elim (update_first (λ r. r.id == id) f s.receipts) [
  | none ↦ err record_missing
  | some l ↦ ok tt (record s { receipts = l })
]

unfoldable pub insert_receipt_line : ReceiptLine → Tx (Unit {0})
insert_receipt_line r s = ok tt (record s { receipt_lines = r ∷ s.receipt_lines })

-- `returnReceiptLine.update({ where: { id } })`
unfoldable pub update_receipt_line : ℕ → (ReceiptLine → ReceiptLine) → Tx (Unit {0})
update_receipt_line id f s = elim (update_first (λ r. r.id == id) f s.receipt_lines) [
  | none ↦ err record_missing
  | some l ↦ ok tt (record s { receipt_lines = l })
]

-- `returnReceiptLine.delete({ where: { id } })`
unfoldable pub delete_receipt_line : ℕ → Tx (Unit {0})
delete_receipt_line id s =
    if exists_by (λ (r : ReceiptLine). r.id == id) s.receipt_lines
    then ok tt
        (record s { receipt_lines = keep (λ (r : ReceiptLine). not (r.id == id)) s.receipt_lines })
    else err record_missing
