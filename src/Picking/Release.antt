-- ===== src/Picking/Release.antt =====
-- OutboundPickingService.releaseQtyForLineTx and releaseAllForOrderTx.
pub mod Step
pub mod Safety
pub mod PerLine
pub mod Decrements
pub mod PerOrder
use warehousehub.Base.{
  ℕ, Bool, true, false, ℤ, pos, ◌+ℤ◌, ◌-ℤ◌, leb_ℤ, ltb_ℤ, eqb_ℤ, min_ℤ, none, some, List, [], ◌∷◌,
  ◌==◌, ◌&&◌, keep, find_by, length, if◌then◌else◌,
}
use warehousehub.Db.{
  Stock, Store, StockKey, has_key, Allocation, is_open, Engine, Tx, pure, throw_if, gets, ◌>>=◌,
  ◌>>◌, bad_request, not_enough_reserved, update_stock, update_allocation,
}

-- The unique key of the stock row that an allocation points to.
abbrev pub stock_key : ℕ → Allocation → StockKey
stock_key company a = record { company = company; warehouse = a.warehouse; lot = a.lot }

-- `where: { companyId, outboundLineId, isReleased: false, isCommitted: false }`
abbrev pub open_for_line : ℕ → ℕ → Store → List Allocation
open_for_line company line s =
    keep (λ a. (a.company == company) && (a.line == line) && is_open a) s.allocations

-- `outboundLine: { orderId }`
abbrev pub belongs_to_order : ℕ → Store → ℕ → Bool
belongs_to_order order s line = elim (find_by (λ l. l.id == line) s.lines) [
  | none ↦ false
  | some l ↦ l.order == order
]

abbrev pub open_for_order : ℕ → ℕ → Store → List Allocation
open_for_order company order s =
    keep (λ a. (a.company == company) && belongs_to_order order s a.line && is_open a) s.allocations

-- The update of an allocation by `qty` released: wholly released, or cut down.
abbrev pub released_part : ℕ → ℤ → Allocation → Allocation → Allocation
released_part now qty snapshot a =
    if eqb_ℤ qty snapshot.qty
    then record a { is_released = true; released_at = some now }
    else record a { qty = snapshot.qty -ℤ qty }

-- `reserved: { decrement: qty }`
abbrev pub sub_reserved : ℤ → Stock → Stock
sub_reserved qty r = record r { reserved = r.reserved -ℤ qty }

unfoldable pub release_one : ℕ → ℕ → Allocation → ℤ → Tx (Unit {0})
release_one company now a qty = do
  update_stock (has_key (stock_key company a)) (sub_reserved qty)
  update_allocation a.id (released_part now qty a)

-- The loop over the open allocations, newest first; the result is what remains to be released. The
-- source subtracts doubles, which is exact for whole numbers of eighths of a unit (Base/Eighths): of
-- 0.8 less 0.7 less 0.1 it is left with a positive rest, which this loop is not.
unfoldable pub release_loop : ℕ → ℕ → List Allocation → ℤ → Tx ℤ
release_loop company now [] remaining = pure remaining
release_loop company now (a ∷ rest) remaining =
    let qty = min_ℤ a.qty remaining in
    let step = release_one company now a qty >> release_loop company now rest (remaining -ℤ qty) in
    if leb_ℤ remaining (pos 0) then pure remaining else step

unfoldable pub release_qty_for_line : Engine → ℕ → ℕ → ℕ → ℤ → Tx (Unit {0})
release_qty_for_line e company line now qty = if leb_ℤ qty (pos 0) then pure tt else do
  found ← gets (λ s. e.newest_first (open_for_line company line s))
  remaining ← release_loop company now found qty
  throw_if (ltb_ℤ (pos 0) remaining) (bad_request not_enough_reserved)

-- An entry of the map `stockDecrements`, in insertion order.
pub record Decrement : Type 0 where
  pub warehouse : ℕ
  pub lot : ℕ
  pub qty : ℤ

abbrev pub add_decrement : Allocation → List Decrement → List Decrement
add_decrement a [] = (record { warehouse = a.warehouse; lot = a.lot; qty = a.qty }) ∷ []
add_decrement a (d ∷ ds) =
    if (d.warehouse == a.warehouse) && (d.lot == a.lot)
    then (record d { qty = d.qty +ℤ a.qty }) ∷ ds
    else d ∷ add_decrement a ds

unfoldable pub stock_decrements : List Allocation → List Decrement → List Decrement
stock_decrements [] ds = ds
stock_decrements (a ∷ rest) ds = stock_decrements rest (add_decrement a ds)

unfoldable pub decrement_stocks : ℕ → List Decrement → Tx (Unit {0})
decrement_stocks company [] = pure tt
decrement_stocks company (d ∷ ds) =
    update_stock (has_key (record { company = company; warehouse = d.warehouse; lot = d.lot }))
      (sub_reserved d.qty)
    >> decrement_stocks company ds

unfoldable pub mark_released : ℕ → List Allocation → Tx (Unit {0})
mark_released now [] = pure tt
mark_released now (a ∷ rest) =
    update_allocation a.id (λ r. record r { is_released = true; released_at = some now })
    >> mark_released now rest

-- The result is `released`, the number of allocations.
unfoldable pub release_all_for_order : ℕ → ℕ → ℕ → Tx ℕ
release_all_for_order company order now = do
  found ← gets (open_for_order company order)
  decrement_stocks company (stock_decrements found [])
  mark_released now found
  pure (length found)
