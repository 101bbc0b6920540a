-- ===== src/Journal/Leaves.antt =====
-- Calls that change neither the stock rows nor the journal lines.
use warehousehub.Base.{
  ℕ, ◌≡◌, refl, Bool, true, false, Option, none, some, ◌==◌, update_first, Option-cases, inl, inr,
  ◌&&◌, exists_by, Bool-cases,
}
use warehousehub.Db.{
  Allocation, Order, Line, insert_allocation, insert_order, insert_line, update_allocation,
  update_order, update_line_row, update_line_rows, CountLine, Asn, insert_transfer,
  insert_stocktaking, insert_asn, insert_upload, update_count_line, update_asn, insert_count_line,
  Store, Item, Lot, Transfer, Stocktaking, Upload, Receipt, ReceiptLine, InventoryTx, Error, Tx,
  pure, throw_if, or_throw, gets, Post, insert_tx, update_transfer, update_stocktaking, insert_item,
  update_item, insert_lot, update_uploads, insert_receipt, update_receipt, insert_receipt_line,
  update_receipt_line, delete_receipt_line,
}

-- A call that changes neither the stock rows nor the journal lines.
pub record LeavesStock {A : Type 0} (m : Tx A) : Type 0 where
  pub apply : (s : Store) → Post (λ _ t. (t.stocks ≡ s.stocks) × (t.tx_lines ≡ s.tx_lines)) (m s)

pub LeavesStock-pure : {A : Type 0} (a : A) → LeavesStock (pure a)
LeavesStock-pure a = record { apply = λ s. (refl, refl) }

pub LeavesStock-gets : {A : Type 0} (f : Store → A) → LeavesStock (gets f)
LeavesStock-gets f = record { apply = λ s. (refl, refl) }

pub LeavesStock-throw_if : (b : Bool) (x : Error) → LeavesStock (throw_if b x)
LeavesStock-throw_if true x = record { apply = λ s. tt }
LeavesStock-throw_if false x = record { apply = λ s. (refl, refl) }

pub LeavesStock-or_throw : {A : Type 0} (o : Option A) (x : Error) → LeavesStock (or_throw o x)
LeavesStock-or_throw none x = record { apply = λ s. tt }
LeavesStock-or_throw (some a) x = record { apply = λ s. (refl, refl) }

pub LeavesStock-insert_tx : (t : InventoryTx) → LeavesStock (insert_tx t)
unfolding insert_tx
LeavesStock-insert_tx t = record { apply = λ s. (refl, refl) }

pub LeavesStock-update_transfer :
    (id : ℕ) (f : Transfer → Transfer) → LeavesStock (update_transfer id f)
unfolding update_transfer
LeavesStock-update_transfer id f = record {
  apply = λ s. elim (Option-cases (update_first (λ t. t.id == id) f s.transfers)) [
    | inl e ↦ rw (e, update_transfer) tt
    | inr (l, e) ↦ rw (e, update_transfer) (refl, refl)
  ];
}

pub LeavesStock-update_stocktaking :
    (id : ℕ) (f : Stocktaking → Stocktaking) → LeavesStock (update_stocktaking id f)
unfolding update_stocktaking
LeavesStock-update_stocktaking id f = record {
  apply = λ s. elim (Option-cases (update_first (λ c. c.id == id) f s.stocktakings)) [
    | inl e ↦ rw (e, update_stocktaking) tt
    | inr (l, e) ↦ rw (e, update_stocktaking) (refl, refl)
  ];
}

pub LeavesStock-insert_item : (i : Item) → LeavesStock (insert_item i)
unfolding insert_item
LeavesStock-insert_item i = record { apply = λ s. (refl, refl) }

pub LeavesStock-update_item : (id : ℕ) (f : Item → Item) → LeavesStock (update_item id f)
unfolding update_item
LeavesStock-update_item id f = record {
  apply = λ s. elim (Option-cases (update_first (λ i. i.id == id) f s.items)) [
    | inl e ↦ rw (e, update_item) tt
    | inr (l, e) ↦ rw (e, update_item) (refl, refl)
  ];
}

pub LeavesStock-insert_lot : (l : Lot) → LeavesStock (insert_lot l)
unfolding insert_lot
LeavesStock-insert_lot l = record { apply = λ s. (refl, refl) }

pub LeavesStock-update_uploads :
    (p : Upload → Bool) (f : Upload → Upload) → LeavesStock (update_uploads p f)
unfolding update_uploads
LeavesStock-update_uploads p f = record { apply = λ s. (refl, refl) }

pub LeavesStock-update_receipt :
    (id : ℕ) (f : Receipt → Receipt) → LeavesStock (update_receipt id f)
unfolding update_receipt
LeavesStock-update_receipt id f = record {
  apply = λ s. elim (Option-cases (update_first (λ r. r.id == id) f s.receipts)) [
    | inl e ↦ rw (e, update_receipt) tt
    | inr (l, e) ↦ rw (e, update_receipt) (refl, refl)
  ];
}

pub LeavesStock-update_receipt_line :
    (id : ℕ) (f : ReceiptLine → ReceiptLine) → LeavesStock (update_receipt_line id f)
unfolding update_receipt_line
LeavesStock-update_receipt_line id f = record {
  apply = λ s. elim (Option-cases (update_first (λ r. r.id == id) f s.receipt_lines)) [
    | inl e ↦ rw (e, update_receipt_line) tt
    | inr (l, e) ↦ rw (e, update_receipt_line) (refl, refl)
  ];
}

pub LeavesStock-insert_transfer : (t : Transfer) → LeavesStock (insert_transfer t)
unfolding insert_transfer
LeavesStock-insert_transfer t = record { apply = λ s. (refl, refl) }

pub LeavesStock-insert_stocktaking : (c : Stocktaking) → LeavesStock (insert_stocktaking c)
unfolding insert_stocktaking
LeavesStock-insert_stocktaking c = record { apply = λ s. (refl, refl) }

pub LeavesStock-insert_asn : (a : Asn) → LeavesStock (insert_asn a)
unfolding insert_asn
LeavesStock-insert_asn a = record { apply = λ s. (refl, refl) }

pub LeavesStock-insert_upload : (u : Upload) → LeavesStock (insert_upload u)
unfolding insert_upload
LeavesStock-insert_upload u = record { apply = λ s. (refl, refl) }

pub LeavesStock-insert_receipt : (r : Receipt) → LeavesStock (insert_receipt r)
unfolding insert_receipt
LeavesStock-insert_receipt r = record { apply = λ s. (refl, refl) }

pub LeavesStock-insert_receipt_line : (l : ReceiptLine) → LeavesStock (insert_receipt_line l)
unfolding insert_receipt_line
LeavesStock-insert_receipt_line l = record { apply = λ s. (refl, refl) }

pub LeavesStock-update_count_line :
    (id : ℕ) (f : CountLine → CountLine) → LeavesStock (update_count_line id f)
unfolding update_count_line
LeavesStock-update_count_line id f = record {
  apply = λ s. elim (Option-cases (update_first (λ x. x.id == id) f s.count_lines)) [
    | inl e ↦ rw (e, update_count_line) tt
    | inr (l, e) ↦ rw (e, update_count_line) (refl, refl)
  ];
}

pub LeavesStock-update_asn : (id : ℕ) (f : Asn → Asn) → LeavesStock (update_asn id f)
unfolding update_asn
LeavesStock-update_asn id f = record {
  apply = λ s. elim (Option-cases (update_first (λ x. x.id == id) f s.asns)) [
    | inl e ↦ rw (e, update_asn) tt
    | inr (l, e) ↦ rw (e, update_asn) (refl, refl)
  ];
}

pub LeavesStock-insert_count_line : (c : CountLine) → LeavesStock (insert_count_line c)
unfolding insert_count_line
LeavesStock-insert_count_line c = record {
  apply = λ s.
      elim (Bool-cases
        (exists_by (λ x. (x.stocktaking == c.stocktaking) && (x.lot == c.lot)) s.count_lines)) [
          | inl taken ↦ rw (taken, insert_count_line) tt
          | inr free ↦ rw (free, insert_count_line) (refl, refl)
        ];
}

pub LeavesStock-delete_receipt_line : (id : ℕ) → LeavesStock (delete_receipt_line id)
unfolding delete_receipt_line
LeavesStock-delete_receipt_line id = record {
  apply = λ s. elim (Bool-cases (exists_by (λ (r : ReceiptLine). r.id == id) s.receipt_lines)) [
    | inl there ↦ rw (there, delete_receipt_line) (refl, refl)
    | inr missing ↦ rw (missing, delete_receipt_line) tt
  ];
}

pub LeavesStock-insert_allocation : (a : Allocation) → LeavesStock (insert_allocation a)
unfolding insert_allocation
LeavesStock-insert_allocation a = record { apply = λ s. (refl, refl) }

pub LeavesStock-insert_order : (o : Order) → LeavesStock (insert_order o)
unfolding insert_order
LeavesStock-insert_order o = record { apply = λ s. (refl, refl) }

pub LeavesStock-insert_line : (l : Line) → LeavesStock (insert_line l)
unfolding insert_line
LeavesStock-insert_line l = record { apply = λ s. (refl, refl) }

pub LeavesStock-update_allocation :
    (id : ℕ) (f : Allocation → Allocation) → LeavesStock (update_allocation id f)
unfolding update_allocation
LeavesStock-update_allocation id f = record {
  apply = λ s. elim (Option-cases (update_first (λ x. x.id == id) f s.allocations)) [
    | inl e ↦ rw (e, update_allocation) tt
    | inr (l, e) ↦ rw (e, update_allocation) (refl, refl)
  ];
}

pub LeavesStock-update_order : (id : ℕ) (f : Order → Order) → LeavesStock (update_order id f)
unfolding update_order
LeavesStock-update_order id f = record {
  apply = λ s. elim (Option-cases (update_first (λ x. x.id == id) f s.orders)) [
    | inl e ↦ rw (e, update_order) tt
    | inr (l, e) ↦ rw (e, update_order) (refl, refl)
  ];
}

pub LeavesStock-update_line_row : (id : ℕ) (f : Line → Line) → LeavesStock (update_line_row id f)
unfolding update_line_row
LeavesStock-update_line_row id f = record {
  apply = λ s. elim (Option-cases (update_first (λ x. x.id == id) f s.lines)) [
    | inl e ↦ rw (e, update_line_row) tt
    | inr (l, e) ↦ rw (e, update_line_row) (refl, refl)
  ];
}

pub LeavesStock-update_line_rows :
    (p : Line → Bool) (f : Line → Line) → LeavesStock (update_line_rows p f)
unfolding update_line_rows
LeavesStock-update_line_rows p f = record { apply = λ s. (refl, refl) }

pub ruleset leaves_stock = (
  LeavesStock-pure, LeavesStock-gets, LeavesStock-throw_if, LeavesStock-or_throw,
  LeavesStock-insert_tx, LeavesStock-update_transfer, LeavesStock-update_stocktaking,
  LeavesStock-insert_item, LeavesStock-update_item, LeavesStock-insert_lot,
  LeavesStock-update_uploads, LeavesStock-update_receipt, LeavesStock-update_receipt_line,
  LeavesStock-insert_transfer, LeavesStock-insert_stocktaking, LeavesStock-insert_asn,
  LeavesStock-insert_upload, LeavesStock-insert_receipt, LeavesStock-insert_receipt_line,
  LeavesStock-update_count_line, LeavesStock-update_asn, LeavesStock-insert_count_line,
  LeavesStock-delete_receipt_line, LeavesStock-insert_allocation, LeavesStock-insert_order,
  LeavesStock-insert_line, LeavesStock-update_allocation, LeavesStock-update_order,
  LeavesStock-update_line_row, LeavesStock-update_line_rows,
)
