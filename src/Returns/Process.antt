-- ===== src/Returns/Process.antt =====
-- returns.service.ts: `process`.
use warehousehub.Base.{
  ℕ, ◌+◌, Bool, Option, none, some, List, [], ◌∷◌, ◌==◌, ◌&&◌, not, keep, find_by, length, contains,
  if◌then◌else◌,
}
use warehousehub.Db.{
  Store, Warehouse, StorageType, ReceiptLine, ReturnStatus, is_decided, ReturnDecision, TxType,
  Engine, Tx, pure, throw_if, or_throw, gets, ◌>>=◌, ◌>>◌, not_found, bad_request, lines_required,
  receipt_not_found, only_decided, invalid_lines, decision_required, warehouse_missing, insert_tx,
  insert_tx_line, upsert_stock, update_receipt, update_receipt_line,
}
use warehousehub.Ledger.{lot_key}
use warehousehub.Lots.{has_no_expiry, expires_at, get_or_create_lot, same_storage}
use warehousehub.Returns.Receive.{find_receipt, lines_of}
use warehousehub.Returns.Change.{has_value}

-- The journal entries of the call, `restockTxId` and `discardTxId`.
pub record ReturnTxs : Type 0 where
  pub restock_tx : Option ℕ
  pub discard_tx : Option ℕ

-- ensureRestockTx, ensureDiscardTx
unfoldable pub ensure_tx : Engine → ℕ → ℕ → ℕ → TxType → Option ℕ → Tx ℕ
ensure_tx e company user receipt kind (some tx) = pure tx
ensure_tx e company user receipt kind none = do
  tx ← gets e.new_id
  insert_tx (record { id = tx; company = company; kind = kind; actor = user; ref_id = receipt })
  pure tx

abbrev pub is_of_type : ℕ → StorageType → Warehouse → Bool
is_of_type company storage w = (w.company == company) && same_storage w.storage storage

-- The first warehouse of the type in the default region, or else the first of the type.
abbrev pub return_warehouse : ℕ → StorageType → Store → Option Warehouse
return_warehouse company storage s =
    let any = find_by (is_of_type company storage) s.warehouses in
    elim (find_by (λ w. is_of_type company storage w && w.is_default_region) s.warehouses) [
      | none ↦ any
      | some w ↦ some w
    ]

unfoldable pub return_lot : Engine → ℕ → ℕ → ℕ → Option ℕ → Tx ℕ
return_lot e company item now none = get_or_create_lot e company item has_no_expiry none now
return_lot e company item now (some t) =
    get_or_create_lot e company item (expires_at t) (some t) now

unfoldable pub restock_line : Engine → ℕ → ℕ → ℕ → ℕ → ReceiptLine → ReturnTxs → Tx ReturnTxs
restock_line e company user receipt now l txs = do
  w ← or_throw (← gets (return_warehouse company l.storage)) (bad_request warehouse_missing)
  lot ← return_lot e company l.item now l.expiry
  upsert_stock e (lot_key company w.id lot) l.qty
  tx ← ensure_tx e company user receipt TxType.return_restock txs.restock_tx
  insert_tx_line
      (record { tx = tx; warehouse = w.id; lot = lot; qty_delta = l.qty; unit_cost = none })
  pure (record txs { restock_tx = some tx })

unfoldable pub discard_line : Engine → ℕ → ℕ → ℕ → ReturnTxs → Tx ReturnTxs
discard_line e company user receipt txs = do
  tx ← ensure_tx e company user receipt TxType.return_discard txs.discard_tx
  pure (record txs { discard_tx = some tx })

unfoldable pub apply_decision :
    Engine → ℕ → ℕ → ℕ → ℕ → ReceiptLine → ReturnTxs → ReturnDecision → Tx ReturnTxs
apply_decision e company user receipt now l txs ReturnDecision.restock =
    restock_line e company user receipt now l txs
apply_decision e company user receipt now l txs ReturnDecision.discard =
    discard_line e company user receipt txs

-- The rest of the loop's body for a line that is not processed yet.
unfoldable pub process_decided :
    Engine → ℕ → ℕ → ℕ → ℕ → ReceiptLine → ReturnTxs → ReturnDecision → Tx ReturnTxs
process_decided e company user receipt now l txs d = do
  txs' ← apply_decision e company user receipt now l txs d
  update_receipt_line l.id
      (λ x. record x { processed_by = some user; processed_at = some now; version = x.version + 1 })
  pure txs'

unfoldable pub process_line : Engine → ℕ → ℕ → ℕ → ℕ → ReceiptLine → ReturnTxs → Tx ReturnTxs
process_line e company user receipt now l txs = do
  d ← or_throw l.decision (bad_request decision_required)
  if has_value l.processed_at then pure txs else process_decided e company user receipt now l txs d

unfoldable pub process_lines : Engine → ℕ → ℕ → ℕ → ℕ → List ReceiptLine → ReturnTxs → Tx ReturnTxs
process_lines e company user receipt now [] txs = pure txs
process_lines e company user receipt now (l ∷ ls) txs = do
  txs' ← process_line e company user receipt now l txs
  process_lines e company user receipt now ls txs'

abbrev pub remaining_lines : ℕ → Store → ℕ
remaining_lines receipt s =
    length (keep (λ l. (l.receipt == receipt) && not (has_value l.processed_at)) s.receipt_lines)

-- The receipt is completed when no line is left.
unfoldable pub complete_receipt : ℕ → ℕ → ℕ → Tx (Unit {0})
complete_receipt user receipt now = do
  remaining ← gets (remaining_lines receipt)
  if remaining == 0
      then update_receipt receipt (λ x. record x {
        status = ReturnStatus.completed;
        completed_by = some user;
        completed_at = some now;
        version = x.version + 1;
      })
      else pure tt

unfoldable pub process_receipt : Engine → ℕ → ℕ → ℕ → List ℕ → ℕ → Tx (Unit {0})
process_receipt e company user id line_ids now = do
  throw_if (length line_ids == 0) (bad_request lines_required)
  r ← or_throw (← gets (find_receipt company id)) (not_found receipt_not_found)
  known ← gets (lines_of id)
  throw_if (not (is_decided r.status)) (bad_request only_decided)
  throw_if
      (not (length (keep (λ (l : ReceiptLine). contains l.id line_ids) known) == length line_ids))
      (bad_request invalid_lines)
  txs ←
      process_lines e company user id now (keep (λ (l : ReceiptLine). contains l.id line_ids) known)
        (record { restock_tx = none; discard_tx = none })
  complete_receipt user id now
