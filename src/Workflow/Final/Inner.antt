-- ===== src/Workflow/Final/Inner.antt =====
-- Reserving, releasing and committing leave the orders alone.
use warehousehub.Base.{
  ℕ, refl, Bool, false, ℤ, List, [], ◌∷◌, ltb, length, unique, ◌==◌, ◌&&◌, not, keep, contains,
  Bool-cases, inl, inr,
}
use warehousehub.Db.{
  Store, Stock, Line, Item, Allocation, OutboundStatus, Engine, bad_request, invalid_item,
}
use warehousehub.Frames.{Leaves, frames, Leaves-then, Leaves-throw_if}
use warehousehub.Frames.Statements.{statements}
use warehousehub.Picking.Reserve.{
  reserve_one, reserve_loop, reserve_additional_for_line, reserve_lines, release_before_reserve,
}
use warehousehub.Picking.Release.{
  release_one, release_loop, release_qty_for_line, Decrement, decrement_stocks, open_for_order,
  mark_released, release_all_for_order,
}
use warehousehub.Picking.Manual.{ManualPick, reset_picked, reserve_manually}
use warehousehub.Picking.Submit.{Sums, submit_lines}
use warehousehub.Orders.{ensure_items_belong, NewLine, insert_lines, adjust_reservation}
use warehousehub.Shipping.{commit_one, commit_loop, commit_order, ship_lines}
use warehousehub.Workflow.Final.{orders_of}

module _ (company now : ℕ) where
  release_one-Leaves : (a : Allocation) (qty : ℤ) → Leaves orders_of (release_one company now a qty)
  unfolding release_one
  release_one-Leaves a qty = search (frames, statements) depth 12

  release_loop-Leaves :
      (found : List Allocation) (remaining : ℤ)
      → Leaves orders_of (release_loop company now found remaining)
  unfolding release_loop
  release_loop-Leaves [] remaining = search (frames) depth 12
  release_loop-Leaves (a ∷ rest) remaining =
      search (frames, release_one-Leaves, release_loop-Leaves rest) depth 12

  pub release_qty_for_line-Leaves :
      (e : Engine) (line : ℕ) (qty : ℤ)
      → Leaves orders_of (release_qty_for_line e company line now qty)
  unfolding release_qty_for_line
  release_qty_for_line-Leaves e line qty = search (frames, release_loop-Leaves) depth 16

  decrement_stocks-Leaves : (ds : List Decrement) → Leaves orders_of (decrement_stocks company ds)
  unfolding decrement_stocks
  decrement_stocks-Leaves [] = search (frames) depth 12
  decrement_stocks-Leaves (d ∷ ds) =
      Leaves-then orders_of _ _ (search (frames, statements) depth 12) (decrement_stocks-Leaves ds)

  mark_released-Leaves : (found : List Allocation) → Leaves orders_of (mark_released now found)
  unfolding mark_released
  mark_released-Leaves [] = search (frames) depth 12
  mark_released-Leaves (a ∷ rest) =
      Leaves-then orders_of _ _ (search (frames, statements) depth 12) (mark_released-Leaves rest)

  pub release_all_for_order-Leaves :
      (order : ℕ) → Leaves orders_of (release_all_for_order company order now)
  unfolding release_all_for_order
  release_all_for_order-Leaves order =
      search (frames, decrement_stocks-Leaves, mark_released-Leaves) depth 16

  commit_one-Leaves : (a : Allocation) → Leaves orders_of (commit_one company now a)
  unfolding commit_one
  commit_one-Leaves a = search (frames, statements) depth 12

  commit_loop-Leaves : (found : List Allocation) → Leaves orders_of (commit_loop company now found)
  unfolding commit_loop
  commit_loop-Leaves [] = search (frames) depth 12
  commit_loop-Leaves (a ∷ rest) =
      Leaves-then orders_of _ _ (commit_one-Leaves a) (commit_loop-Leaves rest)

  pub commit_order-Leaves : (order : ℕ) → Leaves orders_of (commit_order company order now)
  unfolding commit_order
  commit_order-Leaves order = search (frames, commit_loop-Leaves) depth 16

pub submit_lines-Leaves : (m : Sums) (ls : List Line) → Leaves orders_of (submit_lines m ls)
unfolding submit_lines
submit_lines-Leaves m [] = search (frames) depth 12
submit_lines-Leaves m (l ∷ ls) =
    let rest = submit_lines-Leaves m ls in search (frames, statements) depth 16

pub ship_lines-Leaves : (m : Sums) (ls : List Line) → Leaves orders_of (ship_lines m ls)
unfolding ship_lines
ship_lines-Leaves m [] = search (frames) depth 12
ship_lines-Leaves m (l ∷ ls) =
    let rest = ship_lines-Leaves m ls in search (frames, statements) depth 16

pub reset_picked-Leaves :
    (order : ℕ) (status : OutboundStatus) → Leaves orders_of (reset_picked order status)
unfolding reset_picked
reset_picked-Leaves order status = search (frames, statements) depth 12

module _ (e : Engine) (company now : ℕ) where
  reserve_loop-Leaves :
      (line : ℕ) (cs : List Stock) (remaining : ℤ)
      → Leaves orders_of (reserve_loop e company line now cs remaining)
  unfolding reserve_loop reserve_one
  reserve_loop-Leaves line [] remaining = search (frames) depth 12
  reserve_loop-Leaves line (c ∷ cs) remaining =
      search (frames, statements, reserve_loop-Leaves line cs) depth 16

  pub reserve_additional_for_line-Leaves :
      (line item : ℕ) (add : ℤ)
      → Leaves orders_of (reserve_additional_for_line e company line item now add)
  unfolding reserve_additional_for_line
  reserve_additional_for_line-Leaves line item add = search (frames, reserve_loop-Leaves) depth 16

  pub reserve_lines-Leaves : (ls : List Line) → Leaves orders_of (reserve_lines e company now ls)
  unfolding reserve_lines
  reserve_lines-Leaves [] = search (frames) depth 12
  reserve_lines-Leaves (l ∷ ls) =
      let rest = reserve_lines-Leaves ls in
      search (frames, reserve_additional_for_line-Leaves) depth 20

  pub release_before_reserve-Leaves :
      (order : ℕ) → Leaves orders_of (release_before_reserve company order now false)
  unfolding release_before_reserve
  release_before_reserve-Leaves order = record {
    apply = λ s. elim (Bool-cases (ltb 0 (length (open_for_order company order s)))) [
      | inl found ↦ rw found tt
      | inr empty ↦ rw empty refl
    ];
  }

  pub adjust_reservation-Leaves :
      (l : Line) (diff : ℤ) → Leaves orders_of (adjust_reservation e company l diff now)
  unfolding adjust_reservation
  adjust_reservation-Leaves l diff =
      search (frames, release_qty_for_line-Leaves, reserve_additional_for_line-Leaves) depth 16

  pub reserve_manually-Leaves :
      (line : Line) (dto : ManualPick) → Leaves orders_of (reserve_manually e company line dto now)
  unfolding reserve_manually
  reserve_manually-Leaves line dto = search (frames, statements) depth 20

  pub insert_lines-Leaves :
      (order : ℕ) (ls : List NewLine) → Leaves orders_of (insert_lines e order ls)
  unfolding insert_lines
  insert_lines-Leaves order [] = search (frames) depth 12
  insert_lines-Leaves order (l ∷ ls) =
      let rest = insert_lines-Leaves order ls in search (frames, statements) depth 16

  pub ensure_items_belong-Leaves :
      (ids : List ℕ) → Leaves orders_of (ensure_items_belong company ids)
  unfolding ensure_items_belong
  ensure_items_belong-Leaves ids = record {
    apply = λ s. elim (Bool-cases (length (unique ids) == 0)) [
      | inl empty ↦ rw empty refl
      | inr some_ids ↦
          rw some_ids ((Leaves-throw_if orders_of (absent s) (bad_request invalid_item)).apply s)
    ];
  }
    where
      absent : Store → Bool
      absent s = not (
          length (keep (λ (i : Item). (i.company == company) && contains i.id (unique ids)) s.items)
          == length (unique ids))
