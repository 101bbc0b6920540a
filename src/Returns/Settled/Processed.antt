-- ===== src/Returns/Settled/Processed.antt =====
-- ReturnsService: cancellation, decision and processing keep the completed receipts without lines that
-- are left to process.
use warehousehub.Base.{
  ℕ, ◌+◌, ◌≡◌, refl, true, false, Option, none, some, List, [], ◌∷◌, ◌==◌, update_first,
  Option-cases, Bool-cases, inl, inr, arith,
}
use warehousehub.Db.{
  Lot, Receipt, ReceiptLine, ReturnDecision, ReturnStatus, TxType, Engine, IsEngine, update_receipt,
}
use warehousehub.Frames.{Leaves, frames}
use warehousehub.Frames.Statements.{statements}
use warehousehub.Frames.Invariants.{Keeps, Keeps-bind, invariants}
use warehousehub.Lots.{create_lot, get_or_create_lot}
use warehousehub.Returns.{
  LineDecision, cancel_receipt, decide_lines, decide_receipt, ReturnTxs, ensure_tx, return_lot,
  restock_line, discard_line, apply_decision, process_decided, process_line, process_lines,
  remaining_lines, complete_receipt, process_receipt,
}
use warehousehub.Returns.Settled.{is_completed, IsSettled-complete}
use warehousehub.Returns.Settled.Rows.{
  IsSettledStore, returns_of, settled-Leaves, IsSettled-update_line_row, update_status,
}

-- A receipt gets a status that is not COMPLETED.
update_uncompleted :
    (id : ℕ) (f : Receipt → Receipt)
    → ((r : Receipt) → ((f r).id ≡ r.id) × (is_completed (f r).status ≡ false))
    → Keeps IsSettledStore (update_receipt id f)
update_uncompleted id f h =
    update_status id f (λ r. (h r).0) (λ r k. let n = (h r).1 in absurd (cc))

module _ (e : Engine) (laws : IsEngine e) (company : ℕ) where
  pub cancel_receipt-Settled : (id : ℕ) → Keeps IsSettledStore (cancel_receipt company id)
  unfolding cancel_receipt
  cancel_receipt-Settled id = search (invariants, update_uncompleted) depth 20

  decide_lines-Settled :
      (user now : ℕ) (known : List ReceiptLine) (ds : List LineDecision)
      → Keeps IsSettledStore (decide_lines user now known ds)
  unfolding decide_lines
  decide_lines-Settled user now known [] = search (invariants) depth 12
  decide_lines-Settled user now known (d ∷ ds) =
      let rest = decide_lines-Settled user now known ds in
      search (invariants, IsSettled-update_line_row) depth 16

  pub decide_receipt-Settled :
      (user id now : ℕ) (ds : List LineDecision)
      → Keeps IsSettledStore (decide_receipt company user id ds now)
  unfolding decide_receipt
  decide_receipt-Settled user id now ds =
      search (invariants, decide_lines-Settled, update_uncompleted) depth 24 fits 20000

  create_lot-Leaves :
      (item now : ℕ) (expiry : Option ℕ) (o : Option Lot)
      → Leaves returns_of (create_lot e company item expiry now o)
  unfolding create_lot
  create_lot-Leaves item now expiry none = search (frames, statements) depth 12
  create_lot-Leaves item now expiry (some l) = search (frames) depth 12

  return_lot-Leaves :
      (item now : ℕ) (expiry : Option ℕ) → Leaves returns_of (return_lot e company item now expiry)
  unfolding return_lot get_or_create_lot
  return_lot-Leaves item now none = search (frames, create_lot-Leaves) depth 12
  return_lot-Leaves item now (some t) = search (frames, create_lot-Leaves) depth 12

  ensure_tx-Leaves :
      (user receipt : ℕ) (kind : TxType) (o : Option ℕ)
      → Leaves returns_of (ensure_tx e company user receipt kind o)
  unfolding ensure_tx
  ensure_tx-Leaves user receipt kind none = search (frames, statements) depth 12
  ensure_tx-Leaves user receipt kind (some tx) = search (frames) depth 12

  apply_decision-Leaves :
      (user receipt now : ℕ) (l : ReceiptLine) (txs : ReturnTxs) (d : ReturnDecision)
      → Leaves returns_of (apply_decision e company user receipt now l txs d)
  unfolding apply_decision restock_line discard_line
  apply_decision-Leaves user receipt now l txs ReturnDecision.restock =
      search (frames, statements, return_lot-Leaves, ensure_tx-Leaves) depth 20 fits 20000
  apply_decision-Leaves user receipt now l txs ReturnDecision.discard =
      search (frames, ensure_tx-Leaves) depth 12

  process_line-Settled :
      (user receipt now : ℕ) (l : ReceiptLine) (txs : ReturnTxs)
      → Keeps IsSettledStore (process_line e company user receipt now l txs)
  unfolding process_line process_decided
  process_line-Settled user receipt now l txs =
      search (invariants, settled-Leaves, apply_decision-Leaves, IsSettled-update_line_row) depth 20
        fits 20000

  process_lines-Settled :
      (user receipt now : ℕ) (ls : List ReceiptLine) (txs : ReturnTxs)
      → Keeps IsSettledStore (process_lines e company user receipt now ls txs)
  unfolding process_lines
  process_lines-Settled user receipt now [] txs = search (invariants) depth 12
  process_lines-Settled user receipt now (l ∷ ls) txs =
      Keeps-bind IsSettledStore _ _ (process_line-Settled user receipt now l txs)
        (λ txs'. process_lines-Settled user receipt now ls txs')

  complete_receipt-Settled :
      (user receipt now : ℕ) → Keeps IsSettledStore (complete_receipt user receipt now)
  unfolding complete_receipt update_receipt
  complete_receipt-Settled user receipt now = record {
    apply = λ s v. elim (Bool-cases (remaining_lines receipt s == 0)) [
      | inr more ↦ rw more v
      | inl done ↦
          elim (Option-cases
            (update_first (λ r. r.id == receipt) (completed_by user now) s.receipts)) [
              | inl missing ↦ rw done (rw (missing, update_receipt) tt)
              | inr (l, upd) ↦ rw done (
                  rw (upd, update_receipt)
                    (IsSettled-complete s.receipts s.receipt_lines v receipt (completed_by user now)
                      (λ _. refl) (zero_of (remaining_lines receipt s) done) upd))
            ]
    ];
  }
    where
      completed_by : ℕ → ℕ → Receipt → Receipt
      completed_by user now x = record x {
        status = ReturnStatus.completed;
        completed_by = some user;
        completed_at = some now;
        version = x.version + 1;
      }

      zero_of : (n : ℕ) → (n == 0) ≡ true → n ≡ 0
      zero_of n h = ground arith

  pub process_receipt-Settled :
      (user id now : ℕ) (line_ids : List ℕ)
      → Keeps IsSettledStore (process_receipt e company user id line_ids now)
  unfolding process_receipt
  process_receipt-Settled user id now line_ids =
      search (invariants, process_lines-Settled, complete_receipt-Settled) depth 24 fits 20000
