-- ===== src/Returns/Booked.antt =====
-- ReturnsService: the journal accounts for what is restocked, and no other call changes stock rows.
use warehousehub.Base.{ℕ, refl, ℤ, Option, none, some, List, [], ◌∷◌}
use warehousehub.Db.{
  InventoryTxLine, ReceiptLine, ReturnDecision, TxType, Engine, IsEngine, Post-bind, ◌>>=◌, ◌>>◌,
  pure, upsert_stock, insert_tx_line, insert_tx,
}
use warehousehub.Ledger.{lot_key}
use warehousehub.Journal.{Books}
use warehousehub.Journal.Booked.{Booked, booked, Booked-bind}
use warehousehub.Journal.Upsert.{Raises, upsert_stock-Raises, Raises-Books}
use warehousehub.Inbound.Confirmed.{Booked-get_or_create_lot}
use warehousehub.Returns.{
  ReturnTxs, ensure_tx, return_lot, restock_line, discard_line, apply_decision, process_decided,
  process_line, process_lines, complete_receipt, process_receipt,
}

module _ (e : Engine) (laws : IsEngine e) (company : ℕ) where
  -- A stock row is raised, an entry of the journal is made if need be, and its line is written.
  Booked-restock :
      (user receipt warehouse lot : ℕ) (qty : ℤ) (f : ℕ → ReturnTxs) (o : Option ℕ)
      → Booked company (
          upsert_stock e (lot_key company warehouse lot) qty
          >> (ensure_tx e company user receipt TxType.return_restock o >>= λ tx.
              insert_tx_line (record {
                tx = tx;
                warehouse = warehouse;
                lot = lot;
                qty_delta = qty;
                unit_cost = none;
              })
              >> pure (f tx)))
  unfolding ensure_tx insert_tx insert_tx_line
  Booked-restock user receipt warehouse lot qty f none = record {
    apply = λ s v.
        Post-bind (λ _ t. Raises company warehouse lot qty s t) (λ _ t. Books company s t)
          (upsert_stock e (lot_key company warehouse lot) qty) _ s
          (upsert_stock-Raises e laws company warehouse lot qty s v)
          (λ _ t _ h.
            let entry : InventoryTxLine = record {
              tx = e.new_id t;
              warehouse = warehouse;
              lot = lot;
              qty_delta = qty;
              unit_cost = none;
            } in
            let b = Raises-Books e laws company warehouse lot qty s t entry h (refl, refl, refl) in
            record { shelved = b.shelved; booked = b.booked });
  }
  Booked-restock user receipt warehouse lot qty f (some tx) = record {
    apply = λ s v.
        Post-bind (λ _ t. Raises company warehouse lot qty s t) (λ _ t. Books company s t)
          (upsert_stock e (lot_key company warehouse lot) qty) _ s
          (upsert_stock-Raises e laws company warehouse lot qty s v)
          (λ _ t _ h. Raises-Books e laws company warehouse lot qty s t _ h (refl, refl, refl));
  }

  Booked-return_lot :
      (item now : ℕ) (expiry : Option ℕ) → Booked company (return_lot e company item now expiry)
  unfolding return_lot
  Booked-return_lot item now none = search (booked, Booked-get_or_create_lot e laws) depth 12
  Booked-return_lot item now (some t) = search (booked, Booked-get_or_create_lot e laws) depth 12

  Booked-restock_line :
      (user receipt now : ℕ) (l : ReceiptLine) (txs : ReturnTxs)
      → Booked company (restock_line e company user receipt now l txs)
  unfolding restock_line
  Booked-restock_line user receipt now l txs =
      search (booked, Booked-return_lot, Booked-restock) depth 16

  Booked-ensure_tx :
      (user receipt : ℕ) (kind : TxType) (o : Option ℕ)
      → Booked company (ensure_tx e company user receipt kind o)
  unfolding ensure_tx
  Booked-ensure_tx user receipt kind none = search (booked) depth 12
  Booked-ensure_tx user receipt kind (some tx) = search (booked) depth 12

  Booked-discard_line :
      (user receipt : ℕ) (txs : ReturnTxs)
      → Booked company (discard_line e company user receipt txs)
  unfolding discard_line
  Booked-discard_line user receipt txs = search (booked, Booked-ensure_tx) depth 12

  Booked-apply_decision :
      (user receipt now : ℕ) (l : ReceiptLine) (txs : ReturnTxs) (d : ReturnDecision)
      → Booked company (apply_decision e company user receipt now l txs d)
  unfolding apply_decision
  Booked-apply_decision user receipt now l txs ReturnDecision.restock =
      Booked-restock_line user receipt now l txs
  Booked-apply_decision user receipt now l txs ReturnDecision.discard =
      Booked-discard_line user receipt txs

  Booked-process_decided :
      (user receipt now : ℕ) (l : ReceiptLine) (txs : ReturnTxs) (d : ReturnDecision)
      → Booked company (process_decided e company user receipt now l txs d)
  unfolding process_decided
  Booked-process_decided user receipt now l txs d = search (booked, Booked-apply_decision) depth 12

  Booked-process_line :
      (user receipt now : ℕ) (l : ReceiptLine) (txs : ReturnTxs)
      → Booked company (process_line e company user receipt now l txs)
  unfolding process_line
  Booked-process_line user receipt now l txs = search (booked, Booked-process_decided) depth 12

  Booked-process_lines :
      (user receipt now : ℕ) (ls : List ReceiptLine) (txs : ReturnTxs)
      → Booked company (process_lines e company user receipt now ls txs)
  unfolding process_lines
  Booked-process_lines user receipt now [] txs = search (booked) depth 12
  Booked-process_lines user receipt now (l ∷ ls) txs =
      Booked-bind company _ _ (Booked-process_line user receipt now l txs)
        (λ txs'. Booked-process_lines user receipt now ls txs')

  Booked-complete_receipt :
      (user receipt now : ℕ) → Booked company (complete_receipt user receipt now)
  unfolding complete_receipt
  Booked-complete_receipt user receipt now = search (booked) depth 12

  pub process_receipt-Booked :
      (user id now : ℕ) (line_ids : List ℕ)
      → Booked company (process_receipt e company user id line_ids now)
  unfolding process_receipt
  process_receipt-Booked user id now line_ids =
      search (booked, Booked-process_lines, Booked-complete_receipt) depth 20
