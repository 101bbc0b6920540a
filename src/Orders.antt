-- ===== src/Orders.antt =====
-- apps/api/src/modules/outbound-orders/outbound-orders.service.ts: the orders and their lines, and
-- the calls of the picking service that keep the reservations in step with them.
pub mod Cancelled
use Prim.Native.String.{String, ◌++◌ as str_append}
use Prim.Native.String as Str
use warehousehub.Base.{
  ℕ, ◌+◌, false, ℤ, pos, ◌-ℤ◌, leb_ℤ, ltb_ℤ, Option, none, some, List, [], ◌∷◌, ◌==◌, ◌&&◌, ◌||◌,
  not, keep, find_by, length, unique, contains, map, if◌then◌else◌,
}
use warehousehub.Db.{
  Store, Line, Item, Customer, is_cancelled, OutboundStatus, same_status, has_status, LineStatus,
  Engine, Tx, pure, throw_if, or_throw, gets, ◌>>=◌, ◌>>◌, not_found, bad_request, lines_required,
  customer_not_found, invalid_item, order_not_found, qty_not_positive, order_final,
  order_not_editable, line_not_found, line_cancelled, order_not_cancellable, update_order,
  update_line_row, update_line_rows, insert_order, insert_line, find_order,
}
use warehousehub.Base.{sum_of}
use warehousehub.Picking.Reserve.{reserve_additional_for_line, reserve_for_order}
use warehousehub.Picking.Release.{open_for_line, release_qty_for_line, release_all_for_order}

-- FINAL_STATUSES and EDITABLE_UNTIL_READY.
abbrev pub final_statuses : List OutboundStatus
final_statuses = OutboundStatus.shipping ∷ OutboundStatus.delivered ∷ OutboundStatus.cancelled ∷ []

abbrev pub editable_until_ready : List OutboundStatus
editable_until_ready =
    OutboundStatus.draft ∷ OutboundStatus.picking ∷ OutboundStatus.picked
    ∷ OutboundStatus.ready_to_ship ∷ []

-- ensureItemsBelongToCompanyTx
unfoldable pub ensure_items_belong : ℕ → List ℕ → Tx (Unit {0})
ensure_items_belong company ids s =
    let wanted = unique ids in
    let found : List Item = keep (λ i. (i.company == company) && contains i.id wanted) s.items in
    if length wanted == 0
    then pure tt s
    else throw_if (not (length found == length wanted)) (bad_request invalid_item) s

-- The rollback of a picked or verified order to PICKING: what the later stages recorded is cleared.
unfoldable pub roll_back : ℕ → Tx (Unit {0})
roll_back order = do
  update_line_rows (λ l. (l.order == order) && not (is_cancelled l.status))
      (λ l. record l { picked = pos 0; version = l.version + 1 })
  update_order order (λ r. record r {
    status = OutboundStatus.picking;
    version = r.version + 1;
    picked_submitted_by = none;
    picked_submitted_at = none;
    verified_by = none;
    verified_at = none;
    shipping_started_by = none;
    shipping_started_at = none;
    delivered_by = none;
    delivered_at = none;
  })

-- ensureEditableAndRollbackIfNeededTx
unfoldable pub ensure_editable_and_rollback : ℕ → OutboundStatus → Tx (Unit {0})
ensure_editable_and_rollback order status = do
  throw_if (has_status status final_statuses) (bad_request order_final)
  throw_if (not (has_status status editable_until_ready)) (bad_request order_not_editable)
  if same_status status OutboundStatus.picked || same_status status OutboundStatus.ready_to_ship
      then roll_back order
      else pure tt

-- The lines of the request.
pub record NewLine : Type 0 where
  pub item : ℕ
  pub requested : ℤ

pub record NewOrder : Type 0 where
  pub customer : ℕ
  pub planned_date : ℕ
  pub memo : Option String
  pub lines : List NewLine

abbrev pub line_row : ℕ → ℕ → NewLine → Line
line_row id order l = record {
  id = id;
  order = order;
  item = l.item;
  requested = l.requested;
  picked = pos 0;
  shipped = pos 0;
  delivered = pos 0;
  status = LineStatus.active;
  version = 1;
}

-- `lines: { create: [...] }`
unfoldable pub insert_lines : Engine → ℕ → List NewLine → Tx (Unit {0})
insert_lines e order [] = pure tt
insert_lines e order (l ∷ ls) = do
  id ← gets e.new_id
  insert_line (line_row id order l)
  insert_lines e order ls

-- The order with its lines and their reservations.
unfoldable pub write_order : Engine → ℕ → ℕ → NewOrder → ℕ → Tx ℕ
write_order e company user dto now = do
  order ← gets e.new_id
  insert_order (record {
    id = order;
    company = company;
    customer = dto.customer;
    planned_date = dto.planned_date;
    status = OutboundStatus.draft;
    created_by = user;
    picked_submitted_by = none;
    picked_submitted_at = none;
    verified_by = none;
    verified_at = none;
    shipping_started_by = none;
    shipping_started_at = none;
    delivered_by = none;
    delivered_at = none;
    memo = dto.memo;
    version = 1;
  })
  insert_lines e order dto.lines
  shortages ←
      reserve_for_order e company order now (OutboundStatus.draft ∷ OutboundStatus.picking ∷ [])
        false
  pure order

-- The result is the identifier of the new order.
unfoldable pub create : Engine → ℕ → ℕ → NewOrder → ℕ → Tx ℕ
create e company user dto now = do
  throw_if (length dto.lines == 0) (bad_request lines_required)
  ensure_items_belong company (map (λ l. l.item) dto.lines)
  customer ←
      or_throw
        (← gets (λ s.
          find_by (λ (c : Customer). (c.id == dto.customer) && (c.company == company)) s.customers))
        (not_found customer_not_found)
  write_order e company user dto now

-- `data: { status: PICKING, version: { increment: 1 } }`
abbrev pub touch_order : ℕ → Tx (Unit {0})
touch_order order =
    update_order order (λ r. record r { status = OutboundStatus.picking; version = r.version + 1 })

-- The result is the identifier of the new line.
unfoldable pub add_line : Engine → ℕ → ℕ → ℕ → ℤ → ℕ → Tx ℕ
add_line e company order item requested now = do
  throw_if (leb_ℤ requested (pos 0)) (bad_request qty_not_positive)
  ensure_items_belong company (item ∷ [])
  o ← or_throw (← gets (find_order company order)) (not_found order_not_found)
  ensure_editable_and_rollback order o.status
  line ← gets e.new_id
  insert_line (line_row line order (record { item = item; requested = requested }))
  r ← reserve_additional_for_line e company line item now requested
  touch_order order
  pure line

abbrev pub find_line : ℕ → ℕ → Store → Option Line
find_line order line s = find_by (λ l. (l.id == line) && (l.order == order)) s.lines

-- The reservations follow a change of the requested quantity by `diff`.
unfoldable pub adjust_reservation : Engine → ℕ → Line → ℤ → ℕ → Tx (Unit {0})
adjust_reservation e company l diff now = do
  if ltb_ℤ diff (pos 0) then release_qty_for_line e company l.id now (pos 0 -ℤ diff) else pure tt
  if ltb_ℤ (pos 0) diff
      then reserve_additional_for_line e company l.id l.item now diff >>= (λ _. pure tt)
      else pure tt

unfoldable pub update_line : Engine → ℕ → ℕ → ℕ → ℤ → ℕ → Tx (Unit {0})
update_line e company order line qty now = do
  throw_if (leb_ℤ qty (pos 0)) (bad_request qty_not_positive)
  o ← or_throw (← gets (find_order company order)) (not_found order_not_found)
  ensure_editable_and_rollback order o.status
  l ← or_throw (← gets (find_line order line)) (not_found line_not_found)
  throw_if (is_cancelled l.status) (bad_request line_cancelled)
  adjust_reservation e company l (qty -ℤ l.requested) now
  update_line_row line (λ r. record r { requested = qty; version = r.version + 1 })
  touch_order order

-- The aggregate `_sum: { qty: true }` over the open allocations of a line.
abbrev pub reserved_for_line : ℕ → ℕ → Store → ℤ
reserved_for_line company line s = sum_of (λ a. a.qty) (open_for_line company line s)

-- The part of `cancelLine` for a line that is not cancelled yet.
unfoldable pub cancel_line_row : Engine → ℕ → ℕ → ℕ → ℕ → Tx (Unit {0})
cancel_line_row e company order line now = do
  reserved ← gets (reserved_for_line company line)
  if ltb_ℤ (pos 0) reserved then release_qty_for_line e company line now reserved else pure tt
  update_line_row line
      (λ r. record r { status = LineStatus.cancelled; picked = pos 0; version = r.version + 1 })
  touch_order order

unfoldable pub cancel_line : Engine → ℕ → ℕ → ℕ → ℕ → Tx (Unit {0})
cancel_line e company order line now = do
  o ← or_throw (← gets (find_order company order)) (not_found order_not_found)
  ensure_editable_and_rollback order o.status
  l ← or_throw (← gets (find_line order line)) (not_found line_not_found)
  if is_cancelled l.status then pure tt else cancel_line_row e company order line now

-- `reason ? "[CANCELLED] " + reason : "[CANCELLED]"`
unfoldable pub cancel_memo : Option String → String
cancel_memo none = "[CANCELLED]"
cancel_memo (some Str.[]) = "[CANCELLED]"
cancel_memo (some reason) = str_append "[CANCELLED] " reason

unfoldable pub cancel_order : ℕ → ℕ → Option String → ℕ → Tx (Unit {0})
cancel_order company order reason now = do
  o ← or_throw (← gets (find_order company order)) (not_found order_not_found)
  throw_if
      (same_status o.status OutboundStatus.delivered
        || same_status o.status OutboundStatus.cancelled)
      (bad_request order_not_cancellable)
  released ← release_all_for_order company order now
  update_line_rows (λ l. (l.order == order) && not (is_cancelled l.status))
      (λ l. record l { status = LineStatus.cancelled; picked = pos 0; shipped = pos 0 })
  update_order order (λ r. record r {
    status = OutboundStatus.cancelled;
    picked_submitted_by = none;
    picked_submitted_at = none;
    verified_by = none;
    verified_at = none;
    shipping_started_by = none;
    shipping_started_at = none;
    delivered_by = none;
    delivered_at = none;
    memo = some (cancel_memo reason);
  })
