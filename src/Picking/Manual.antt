-- ===== src/Picking/Manual.antt =====
-- OutboundPickingService.manualPick.
pub mod Safety
use warehousehub.Base.{
  ℕ, false, ℤ, pos, ◌+ℤ◌, leb_ℤ, ltb_ℤ, Option, none, some, [], ◌∷◌, ◌==◌, ◌&&◌, not, find_by,
  if◌then◌else◌,
}
use warehousehub.Db.{
  Line, Allocation, Store, Stock, has_key, is_cancelled, is_active_line, OutboundStatus,
  same_status, has_status, PickSource, Engine, Tx, pure, throw_if, or_throw, gets, ◌>>=◌, ◌>>◌,
  not_found, bad_request, order_not_found, order_not_pickable, line_not_found, line_cancelled,
  qty_not_positive, stock_not_found, insufficient_stock, update_stock, update_order,
  update_line_rows, insert_allocation, find_order,
}
use warehousehub.Picking.Reserve.{add_reserved, order_lines, available, lot_row}

-- The body of the request.
pub record ManualPick : Type 0 where
  pub line : ℕ
  pub warehouse : ℕ
  pub lot : ℕ
  pub qty : ℤ

-- `stock.findFirst` with `lot: { itemId: line.itemId }`.
abbrev pub find_stock_of_item : ℕ → ManualPick → ℕ → Store → Option Stock
find_stock_of_item company dto item s =
    find_by
      (λ r.
        has_key (record { company = company; warehouse = dto.warehouse; lot = dto.lot }) r
        && elim (lot_row s r) [ none ↦ false | some l ↦ l.item == item ])
      s.stocks

abbrev pub manual_allocation : ℕ → ℕ → ℕ → ManualPick → ℕ → Allocation
manual_allocation id company line dto now = record {
  id = id;
  company = company;
  line = line;
  warehouse = dto.warehouse;
  lot = dto.lot;
  qty = dto.qty;
  picked = pos 0;
  source = PickSource.manual;
  is_released = false;
  released_at = none;
  is_committed = false;
  committed_at = none;
  created_at = now;
}

-- The picked quantities are reset unless the order is PICKING already.
unfoldable pub reset_picked : ℕ → OutboundStatus → Tx (Unit {0})
reset_picked order status =
    if same_status status OutboundStatus.picking
    then pure tt
    else update_line_rows (λ l. (l.order == order) && is_active_line l.status)
        (λ l. record l { picked = pos 0 })

-- The stock of a manual pick is found, checked and reserved.
unfoldable pub reserve_manually : Engine → ℕ → Line → ManualPick → ℕ → Tx (Unit {0})
reserve_manually e company line dto now = do
  throw_if (leb_ℤ dto.qty (pos 0)) (bad_request qty_not_positive)
  stock ← or_throw (← gets (find_stock_of_item company dto line.item)) (not_found stock_not_found)
  throw_if (ltb_ℤ (available stock) dto.qty) (bad_request insufficient_stock)
  update_stock (λ r. r.id == stock.id) (add_reserved dto.qty)
  id ← gets e.new_id
  insert_allocation (manual_allocation id company line.id dto now)

unfoldable pub manual_pick : Engine → ℕ → ℕ → ManualPick → ℕ → Tx (Unit {0})
manual_pick e company order dto now = do
  o ← or_throw (← gets (find_order company order)) (not_found order_not_found)
  throw_if
      (not (
        has_status o.status
          (OutboundStatus.picking ∷ OutboundStatus.picked ∷ OutboundStatus.ready_to_ship ∷ [])))
      (bad_request order_not_pickable)
  line ←
      or_throw (← gets (λ s. find_by (λ l. l.id == dto.line) (order_lines order s)))
        (not_found line_not_found)
  throw_if (is_cancelled line.status) (bad_request line_cancelled)
  reserve_manually e company line dto now
  reset_picked order o.status
  update_order order (λ r. record r {
    status = OutboundStatus.picking;
    verified_at = none;
    verified_by = none;
    shipping_started_at = none;
    shipping_started_by = none;
    delivered_at = none;
    delivered_by = none;
  })
