-- ===== src/Shipping.antt =====
-- apps/api/src/modules/outbound-shipping/outbound-shipping.service.ts: verification of a pick,
-- start of the shipment and its completion, which commits the stock.
pub mod Commit
use warehousehub.Base.{
  ℕ, Bool, true, false, ◌-ℤ◌, ltb_ℤ, none, some, List, [], ◌∷◌, ◌==◌, ◌&&◌, not, keep, find_by,
  length, if◌then◌else◌,
}
use warehousehub.Db.{
  Stock, Store, has_key, Line, Allocation, is_open, is_cancelled, is_active_line, OutboundStatus,
  same_status, TxType, Engine, Tx, pure, throw_if, or_throw, gets, ◌>>=◌, ◌>>◌, not_found,
  bad_request, order_not_found, only_picked, only_ready, only_shipping, no_allocations,
  picked_exceeds_reserved, update_stock, update_allocation, update_order, update_line_row,
  insert_tx, find_order,
}
use warehousehub.Picking.Reserve.{order_lines}
use warehousehub.Picking.Release.{stock_key}
use warehousehub.Picking.Submit.{Sums, sum_for, sum_by_line, picked_or_reserved}

unfoldable pub verify : ℕ → ℕ → ℕ → ℕ → Tx (Unit {0})
verify company user order now = do
  o ← or_throw (← gets (find_order company order)) (not_found order_not_found)
  throw_if (not (same_status o.status OutboundStatus.picked)) (bad_request only_picked)
  update_order order (λ r. record r {
    status = OutboundStatus.ready_to_ship;
    verified_by = some user;
    verified_at = some now;
  })

unfoldable pub start : ℕ → ℕ → ℕ → ℕ → Tx (Unit {0})
start company user order now = do
  o ← or_throw (← gets (find_order company order)) (not_found order_not_found)
  throw_if (not (same_status o.status OutboundStatus.ready_to_ship)) (bad_request only_ready)
  update_order order (λ r. record r {
    status = OutboundStatus.shipping;
    shipping_started_by = some user;
    shipping_started_at = some now;
  })

-- `outboundLine: { orderId, status: 'ACTIVE' }`
abbrev pub on_active_line : ℕ → Store → ℕ → Bool
on_active_line order s line = elim (find_by (λ l. l.id == line) s.lines) [
  | none ↦ false
  | some l ↦ (l.order == order) && is_active_line l.status
]

abbrev pub to_commit : ℕ → ℕ → Store → List Allocation
to_commit company order s =
    keep (λ a. (a.company == company) && on_active_line order s a.line && is_open a) s.allocations

abbrev pub commit_row : Allocation → Stock → Stock
commit_row a r = record r {
  reserved = r.reserved -ℤ a.qty;
  on_hand = r.on_hand -ℤ picked_or_reserved a;
}

abbrev pub mark_committed : ℕ → Allocation → Allocation
mark_committed now a = record a { is_committed = true; committed_at = some now }

unfoldable pub commit_one : ℕ → ℕ → Allocation → Tx (Unit {0})
commit_one company now a = do
  throw_if (ltb_ℤ a.qty (picked_or_reserved a)) (bad_request picked_exceeds_reserved)
  update_stock (has_key (stock_key company a)) (commit_row a)
  update_allocation a.id (mark_committed now)

unfoldable pub commit_loop : ℕ → ℕ → List Allocation → Tx (Unit {0})
commit_loop company now [] = pure tt
commit_loop company now (a ∷ rest) = commit_one company now a >> commit_loop company now rest

-- The open allocations of the active lines of the order are found and committed.
unfoldable pub commit_order : ℕ → ℕ → ℕ → Tx (List Allocation)
commit_order company order now = do
  found ← gets (to_commit company order)
  throw_if (length found == 0) (bad_request no_allocations)
  commit_loop company now found
  pure found

unfoldable pub ship_lines : Sums → List Line → Tx (Unit {0})
ship_lines m [] = pure tt
ship_lines m (l ∷ ls) =
    let rest = ship_lines m ls in
    let ship_this = update_line_row l.id (λ r. record r { shipped = sum_for l.id m }) >> rest in
    if is_cancelled l.status then rest else ship_this

unfoldable pub complete : Engine → ℕ → ℕ → ℕ → ℕ → Tx (Unit {0})
complete e company user order now = do
  o ← or_throw (← gets (find_order company order)) (not_found order_not_found)
  throw_if (not (same_status o.status OutboundStatus.shipping)) (bad_request only_shipping)
  lines ← gets (order_lines order)
  found ← commit_order company order now
  ship_lines (sum_by_line found []) lines
  update_order order (λ r. record r {
    status = OutboundStatus.delivered;
    delivered_by = some user;
    delivered_at = some now;
  })
  id ← gets e.new_id
  insert_tx (record {
    id = id;
    company = company;
    kind = TxType.outbound_confirm;
    actor = user;
    ref_id = order;
  })
