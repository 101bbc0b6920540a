-- ===== src/Picking/Submit.antt =====
-- OutboundPickingService.submit, and the sums per line that it shares with the completion of a
-- shipment (`new Map<string, number>()`).
use warehousehub.Base.{
  ℕ, ℤ, pos, ◌+ℤ◌, ltb_ℤ, none, some, List, [], ◌∷◌, ◌==◌, not, length, if◌then◌else◌,
}
use warehousehub.Db.{
  Allocation, Line, is_cancelled, OutboundStatus, same_status, Tx, pure, throw_if, or_throw, gets,
  ◌>>=◌, ◌>>◌, not_found, bad_request, order_not_found, only_picking, no_allocations,
  picked_exceeds_requested, update_order, update_line_row, find_order,
}
use warehousehub.Picking.Release.{open_for_order}
use warehousehub.Picking.Reserve.{order_lines}

-- `pickedQty > 0 ? pickedQty : reservedQty`
abbrev pub picked_or_reserved : Allocation → ℤ
picked_or_reserved a = if ltb_ℤ (pos 0) a.picked then a.picked else a.qty

abbrev pub Sums : Type 0
Sums = List (ℕ × ℤ)

-- `sums.get(line) ?? 0`
abbrev pub sum_for : ℕ → Sums → ℤ
sum_for line [] = pos 0
sum_for line ((k, v) ∷ m) = if k == line then v else sum_for line m

-- `sums.set(line, (sums.get(line) ?? 0) + qty)`
abbrev pub add_sum : ℕ → ℤ → Sums → Sums
add_sum line qty [] = (line, pos 0 +ℤ qty) ∷ []
add_sum line qty ((k, v) ∷ m) = if k == line then (k, v +ℤ qty) ∷ m else (k, v) ∷ add_sum line qty m

unfoldable pub sum_by_line : List Allocation → Sums → Sums
sum_by_line [] m = m
sum_by_line (a ∷ rest) m = sum_by_line rest (add_sum a.line (picked_or_reserved a) m)

unfoldable pub submit_lines : Sums → List Line → Tx (Unit {0})
submit_lines m [] = pure tt
submit_lines m (l ∷ ls) =
    let rest = submit_lines m ls in
    let submit_this = do
      throw_if (ltb_ℤ l.requested (sum_for l.id m)) (bad_request picked_exceeds_requested)
      update_line_row l.id (λ r. record r { picked = sum_for l.id m })
      rest
    in if is_cancelled l.status then rest else submit_this

unfoldable pub submit : ℕ → ℕ → ℕ → ℕ → Tx (Unit {0})
submit company user order now = do
  o ← or_throw (← gets (find_order company order)) (not_found order_not_found)
  throw_if (not (same_status o.status OutboundStatus.picking)) (bad_request only_picking)
  lines ← gets (order_lines order)
  found ← gets (open_for_order company order)
  throw_if (length found == 0) (bad_request no_allocations)
  submit_lines (sum_by_line found []) lines
  update_order order (λ r. record r {
    status = OutboundStatus.picked;
    picked_submitted_at = some now;
    picked_submitted_by = some user;
    verified_at = none;
    verified_by = none;
    shipping_started_at = none;
    shipping_started_by = none;
    delivered_at = none;
    delivered_by = none;
  })
