-- ===== src/Transfers.antt =====
-- apps/api/src/modules/transfers/transfers.service.ts: transfers of lots between warehouses.
pub mod Rows
pub mod Balance
pub mod Confirm
pub mod Booked
use Prim.Native.String.{String}
use Prim.Native.String as Str
use warehousehub.Base.{
  ℕ, ℤ, pos, ◌+ℤ◌, ◌-ℤ◌, leb_ℤ, ltb_ℤ, Option, none, some, List, [], ◌∷◌, ◌==◌, ◌&&◌, not, find_by,
  length,
}
use warehousehub.Db.{
  Store, Stock, has_key, StockKey, Warehouse, Transfer, TransferLine, TransferStatus, is_pending,
  TxType, Engine, Tx, pure, throw_if, or_throw, gets, ◌>>=◌, ◌>>◌, not_found, bad_request,
  lines_required, same_warehouse, from_warehouse_not_found, to_warehouse_not_found,
  transfer_not_found, transfer_not_pending, transfer_stock_not_found, invalid_qty,
  insufficient_stock, insert_stock, insert_tx, insert_tx_line, insert_transfer, update_transfer,
  update_stock, update_stock_rows,
}
use warehousehub.Ledger.{lot_key}
use warehousehub.Picking.Reserve.{available}

-- The body of the request.
pub record NewTransfer : Type 0 where
  pub from_warehouse : ℕ
  pub to_warehouse : ℕ
  pub memo : Option String
  pub lines : List TransferLine

-- `value?.trim() || null`; `trim` is JavaScript's.
unfoldable pub trimmed : (String → String) → Option String → Option String
trimmed trim none = none
trimmed trim (some text) = non_empty (trim text)
  where
    non_empty : String → Option String
    non_empty Str.[] = none
    non_empty t = some t

abbrev pub find_warehouse : ℕ → ℕ → Store → Option Warehouse
find_warehouse company id s = find_by (λ w. (w.id == id) && (w.company == company)) s.warehouses

-- The result is the identifier of the new transfer.
unfoldable pub create_transfer : Engine → (String → String) → ℕ → ℕ → NewTransfer → Tx ℕ
create_transfer e trim company user dto = do
  throw_if (length dto.lines == 0) (bad_request lines_required)
  throw_if (dto.from_warehouse == dto.to_warehouse) (bad_request same_warehouse)
  from_wh ←
      or_throw (← gets (find_warehouse company dto.from_warehouse))
        (not_found from_warehouse_not_found)
  to_wh ←
      or_throw (← gets (find_warehouse company dto.to_warehouse)) (not_found to_warehouse_not_found)
  id ← gets e.new_id
  insert_transfer (record {
    id = id;
    company = company;
    from_warehouse = dto.from_warehouse;
    to_warehouse = dto.to_warehouse;
    status = TransferStatus.pending;
    memo = trimmed trim dto.memo;
    requested_by = user;
    confirmed_by = none;
    confirmed_at = none;
    lines = dto.lines;
  })
  pure id

abbrev pub find_transfer : ℕ → ℕ → Store → Option Transfer
find_transfer company id s = find_by (λ t. (t.id == id) && (t.company == company)) s.transfers

abbrev pub find_stock : StockKey → Store → Option Stock
find_stock k s = find_by (has_key k) s.stocks

-- The loop that checks every line against the stock of the source warehouse.
unfoldable pub check_lines : ℕ → ℕ → List TransferLine → Tx (Unit {0})
check_lines company from_wh [] = pure tt
check_lines company from_wh (l ∷ ls) = do
  r ←
      or_throw (← gets (find_stock (lot_key company from_wh l.lot)))
        (bad_request transfer_stock_not_found)
  throw_if (leb_ℤ l.qty (pos 0)) (bad_request invalid_qty)
  throw_if (ltb_ℤ (available r) l.qty) (bad_request insufficient_stock)
  check_lines company from_wh ls

abbrev pub take_on_hand : ℤ → Stock → Stock
take_on_hand qty r = record r { on_hand = r.on_hand -ℤ qty }

abbrev pub add_on_hand : ℤ → Stock → Stock
add_on_hand qty r = record r { on_hand = r.on_hand +ℤ qty }

-- The stock row of the target warehouse is raised, or created.
unfoldable pub receive : Engine → ℕ → ℕ → TransferLine → Option Stock → Tx (Unit {0})
receive e company to_wh l (some r) = update_stock (λ x. x.id == r.id) (add_on_hand l.qty)
receive e company to_wh l none = do
  id ← gets e.new_id
  insert_stock (record {
    id = id;
    company = company;
    warehouse = to_wh;
    lot = l.lot;
    on_hand = l.qty;
    reserved = pos 0;
  })

unfoldable pub move_line : Engine → ℕ → ℕ → ℕ → ℕ → TransferLine → Tx (Unit {0})
move_line e company tx from_wh to_wh l = do
  insert_tx_line (record {
    tx = tx;
    warehouse = from_wh;
    lot = l.lot;
    qty_delta = pos 0 -ℤ l.qty;
    unit_cost = none;
  })
  insert_tx_line
      (record { tx = tx; warehouse = to_wh; lot = l.lot; qty_delta = l.qty; unit_cost = none })
  update_stock_rows (has_key (lot_key company from_wh l.lot)) (take_on_hand l.qty)
  target ← gets (find_stock (lot_key company to_wh l.lot))
  receive e company to_wh l target

-- The loop that journals and moves every line.
unfoldable pub move_lines : Engine → ℕ → ℕ → ℕ → ℕ → List TransferLine → Tx (Unit {0})
move_lines e company tx from_wh to_wh [] = pure tt
move_lines e company tx from_wh to_wh (l ∷ ls) =
    move_line e company tx from_wh to_wh l >> move_lines e company tx from_wh to_wh ls

-- The checks, the journal entry and the moves of a pending transfer.
unfoldable pub apply_transfer : Engine → ℕ → ℕ → Transfer → Tx (Unit {0})
apply_transfer e company user t = do
  check_lines company t.from_warehouse t.lines
  tx ← gets e.new_id
  insert_tx
      (record { id = tx; company = company; kind = TxType.transfer; actor = user; ref_id = t.id })
  move_lines e company tx t.from_warehouse t.to_warehouse t.lines

unfoldable pub confirm_transfer : Engine → ℕ → ℕ → ℕ → ℕ → Tx (Unit {0})
confirm_transfer e company user id now = do
  t ← or_throw (← gets (find_transfer company id)) (not_found transfer_not_found)
  throw_if (not (is_pending t.status)) (bad_request transfer_not_pending)
  apply_transfer e company user t
  update_transfer id (λ r. record r {
    status = TransferStatus.confirmed;
    confirmed_by = some user;
    confirmed_at = some now;
  })

unfoldable pub cancel_transfer : ℕ → ℕ → Tx (Unit {0})
cancel_transfer company id = do
  t ← or_throw (← gets (find_transfer company id)) (not_found transfer_not_found)
  throw_if (not (is_pending t.status)) (bad_request transfer_not_pending)
  update_transfer id (λ r. record r { status = TransferStatus.cancelled })
