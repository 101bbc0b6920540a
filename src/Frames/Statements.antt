-- ===== src/Frames/Statements.antt =====
-- The statements leave every part of the store alone that does not read their table.
use warehousehub.Base.{
  ℕ, ◌≡◌, Bool, ℤ, ◌+ℤ◌, List, ◌==◌, update_first, Option-cases, inl, inr, find_by,
}
use warehousehub.Db.{
  Store, StockKey, has_key, Allocation, InventoryTx, InventoryTxLine, Item, Line, Lot, Order,
  Receipt, ReceiptLine, Stock, Engine, insert_tx, insert_tx_line, insert_item, insert_lot,
  insert_stock, insert_receipt, insert_receipt_line, insert_allocation, insert_line, update_item,
  update_receipt, update_receipt_line, update_allocation, update_line_row, update_order,
  update_stock, upsert_stock, update_line_rows,
}
use warehousehub.Frames.{Leaves}

module _ {X : Type 0} (f : Store → X) where
  pub Leaves-insert_tx :
      ((s : Store) (l : List InventoryTx) → f (record s { txs = l }) ≡ f s)
      → (x : InventoryTx) → Leaves f (insert_tx x)
  unfolding insert_tx
  Leaves-insert_tx h x = record { apply = λ s. h s _ }

  pub Leaves-insert_tx_line :
      ((s : Store) (l : List InventoryTxLine) → f (record s { tx_lines = l }) ≡ f s)
      → (x : InventoryTxLine) → Leaves f (insert_tx_line x)
  unfolding insert_tx_line
  Leaves-insert_tx_line h x = record { apply = λ s. h s _ }

  pub Leaves-insert_item :
      ((s : Store) (l : List Item) → f (record s { items = l }) ≡ f s)
      → (x : Item) → Leaves f (insert_item x)
  unfolding insert_item
  Leaves-insert_item h x = record { apply = λ s. h s _ }

  pub Leaves-insert_lot :
      ((s : Store) (l : List Lot) → f (record s { lots = l }) ≡ f s)
      → (x : Lot) → Leaves f (insert_lot x)
  unfolding insert_lot
  Leaves-insert_lot h x = record { apply = λ s. h s _ }

  pub Leaves-insert_stock :
      ((s : Store) (l : List Stock) → f (record s { stocks = l }) ≡ f s)
      → (x : Stock) → Leaves f (insert_stock x)
  unfolding insert_stock
  Leaves-insert_stock h x = record { apply = λ s. h s _ }

  pub Leaves-insert_receipt :
      ((s : Store) (l : List Receipt) → f (record s { receipts = l }) ≡ f s)
      → (x : Receipt) → Leaves f (insert_receipt x)
  unfolding insert_receipt
  Leaves-insert_receipt h x = record { apply = λ s. h s _ }

  pub Leaves-insert_receipt_line :
      ((s : Store) (l : List ReceiptLine) → f (record s { receipt_lines = l }) ≡ f s)
      → (x : ReceiptLine) → Leaves f (insert_receipt_line x)
  unfolding insert_receipt_line
  Leaves-insert_receipt_line h x = record { apply = λ s. h s _ }

  pub Leaves-insert_allocation :
      ((s : Store) (l : List Allocation) → f (record s { allocations = l }) ≡ f s)
      → (x : Allocation) → Leaves f (insert_allocation x)
  unfolding insert_allocation
  Leaves-insert_allocation h x = record { apply = λ s. h s _ }

  pub Leaves-insert_line :
      ((s : Store) (l : List Line) → f (record s { lines = l }) ≡ f s)
      → (x : Line) → Leaves f (insert_line x)
  unfolding insert_line
  Leaves-insert_line h x = record { apply = λ s. h s _ }

  pub Leaves-update_item :
      ((s : Store) (l : List Item) → f (record s { items = l }) ≡ f s)
      → (id : ℕ) (g : Item → Item) → Leaves f (update_item id g)
  unfolding update_item
  Leaves-update_item h id g = record {
    apply = λ s. elim (Option-cases (update_first (λ x. x.id == id) g s.items)) [
      | inl missing ↦ rw (missing, update_item) tt
      | inr (l, upd) ↦ rw (upd, update_item) (h s l)
    ];
  }

  pub Leaves-update_receipt :
      ((s : Store) (l : List Receipt) → f (record s { receipts = l }) ≡ f s)
      → (id : ℕ) (g : Receipt → Receipt) → Leaves f (update_receipt id g)
  unfolding update_receipt
  Leaves-update_receipt h id g = record {
    apply = λ s. elim (Option-cases (update_first (λ x. x.id == id) g s.receipts)) [
      | inl missing ↦ rw (missing, update_receipt) tt
      | inr (l, upd) ↦ rw (upd, update_receipt) (h s l)
    ];
  }

  pub Leaves-update_receipt_line :
      ((s : Store) (l : List ReceiptLine) → f (record s { receipt_lines = l }) ≡ f s)
      → (id : ℕ) (g : ReceiptLine → ReceiptLine) → Leaves f (update_receipt_line id g)
  unfolding update_receipt_line
  Leaves-update_receipt_line h id g = record {
    apply = λ s. elim (Option-cases (update_first (λ x. x.id == id) g s.receipt_lines)) [
      | inl missing ↦ rw (missing, update_receipt_line) tt
      | inr (l, upd) ↦ rw (upd, update_receipt_line) (h s l)
    ];
  }

  pub Leaves-update_allocation :
      ((s : Store) (l : List Allocation) → f (record s { allocations = l }) ≡ f s)
      → (id : ℕ) (g : Allocation → Allocation) → Leaves f (update_allocation id g)
  unfolding update_allocation
  Leaves-update_allocation h id g = record {
    apply = λ s. elim (Option-cases (update_first (λ x. x.id == id) g s.allocations)) [
      | inl missing ↦ rw (missing, update_allocation) tt
      | inr (l, upd) ↦ rw (upd, update_allocation) (h s l)
    ];
  }

  pub Leaves-update_line_row :
      ((s : Store) (l : List Line) → f (record s { lines = l }) ≡ f s)
      → (id : ℕ) (g : Line → Line) → Leaves f (update_line_row id g)
  unfolding update_line_row
  Leaves-update_line_row h id g = record {
    apply = λ s. elim (Option-cases (update_first (λ x. x.id == id) g s.lines)) [
      | inl missing ↦ rw (missing, update_line_row) tt
      | inr (l, upd) ↦ rw (upd, update_line_row) (h s l)
    ];
  }

  pub Leaves-update_order :
      ((s : Store) (l : List Order) → f (record s { orders = l }) ≡ f s)
      → (id : ℕ) (g : Order → Order) → Leaves f (update_order id g)
  unfolding update_order
  Leaves-update_order h id g = record {
    apply = λ s. elim (Option-cases (update_first (λ x. x.id == id) g s.orders)) [
      | inl missing ↦ rw (missing, update_order) tt
      | inr (l, upd) ↦ rw (upd, update_order) (h s l)
    ];
  }

  pub Leaves-update_line_rows :
      ((s : Store) (l : List Line) → f (record s { lines = l }) ≡ f s)
      → (p : Line → Bool) (g : Line → Line) → Leaves f (update_line_rows p g)
  unfolding update_line_rows
  Leaves-update_line_rows h p g = record { apply = λ s. h s _ }

  pub Leaves-update_stock :
      ((s : Store) (l : List Stock) → f (record s { stocks = l }) ≡ f s)
      → (p : Stock → Bool) (g : Stock → Stock) → Leaves f (update_stock p g)
  unfolding update_stock
  Leaves-update_stock h p g = record {
    apply = λ s. elim (Option-cases (update_first p g s.stocks)) [
      | inl missing ↦ rw (missing, update_stock) tt
      | inr (l, upd) ↦ rw (upd, update_stock) (h s l)
    ];
  }

  pub Leaves-upsert_stock :
      ((s : Store) (l : List Stock) → f (record s { stocks = l }) ≡ f s)
      → (e : Engine) (k : StockKey) (q : ℤ) → Leaves f (upsert_stock e k q)
  unfolding upsert_stock insert_stock
  Leaves-upsert_stock h e k q = record {
    apply = λ s. elim (Option-cases (find_by (has_key k) s.stocks)) [
      | inl missing ↦ rw (missing, upsert_stock) (h s _)
      | inr (r, found) ↦
          rw (found, upsert_stock)
            ((Leaves-update_stock h (λ (x : Stock). x.id == r.id)
                (λ x. record x { on_hand = x.on_hand +ℤ q })).apply
              s)
    ];
  }

pub ruleset statements = (
  Leaves-insert_tx, Leaves-insert_tx_line, Leaves-insert_item, Leaves-insert_lot,
  Leaves-insert_stock, Leaves-insert_receipt, Leaves-insert_receipt_line, Leaves-insert_allocation,
  Leaves-insert_line, Leaves-update_item, Leaves-update_receipt, Leaves-update_receipt_line,
  Leaves-update_allocation, Leaves-update_line_row, Leaves-update_order, Leaves-update_line_rows,
  Leaves-update_stock, Leaves-upsert_stock,
)
