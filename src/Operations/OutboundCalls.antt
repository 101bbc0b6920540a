-- ===== src/Operations/OutboundCalls.antt =====
-- The outbound calls that a controller makes, but the completion of a shipment, leave the physical
-- quantities and the journal alone.
use Prim.Native.String.{String}
use warehousehub.Base.{
  ℕ, Bool, ℤ, Option, List, [], ◌∷◌, ◌==◌, ◌&&◌, not, length, unique, keep, contains, Bool-cases,
  inl, inr,
}
use warehousehub.Db.{
  Store, Item, Line, OutboundStatus, Engine, pure, throw_if, bad_request, invalid_item,
}
use warehousehub.Journal.Leaves.{LeavesStock-pure, LeavesStock-throw_if}
use warehousehub.Journal.Booked.{Booked, booked, Booked-of_LeavesStock}
use warehousehub.Picking.Manual.{ManualPick, reset_picked, reserve_manually, manual_pick}
use warehousehub.Picking.Submit.{Sums, submit_lines, submit}
use warehousehub.Orders.{
  write_order, ensure_items_belong, roll_back, ensure_editable_and_rollback, NewLine, NewOrder,
  insert_lines, create, add_line, adjust_reservation, update_line, cancel_line_row, cancel_line,
  cancel_order,
}
use warehousehub.Shipping.{verify, start}
use warehousehub.Operations.Outbound.{
  Booked-reserve, Booked-release_qty_for_line, Booked-release_all_for_order,
  Booked-reserve_additional_for_line, reserve_for_order-Booked,
}

module _ (company : ℕ) where
  Booked-ensure_items_belong : (ids : List ℕ) → Booked company (ensure_items_belong company ids)
  unfolding ensure_items_belong
  Booked-ensure_items_belong ids = record {
    apply = λ s v. elim (Bool-cases (length (unique ids) == 0)) [
      | inl empty ↦
          rw empty ((Booked-of_LeavesStock company (pure tt) (LeavesStock-pure tt)).apply s v)
      | inr some_ids ↦ rw some_ids (
          (Booked-of_LeavesStock company (throw_if (absent s) (bad_request invalid_item))
              (LeavesStock-throw_if (absent s) (bad_request invalid_item))).apply
            s v)
    ];
  }
    where
      absent : Store → Bool
      absent s = not (
          length (keep (λ (i : Item). (i.company == company) && contains i.id (unique ids)) s.items)
          == length (unique ids))

  Booked-roll_back : (order : ℕ) → Booked company (roll_back order)
  unfolding roll_back
  Booked-roll_back order = search (booked) depth 12

  Booked-ensure_editable_and_rollback :
      (order : ℕ) (status : OutboundStatus)
      → Booked company (ensure_editable_and_rollback order status)
  unfolding ensure_editable_and_rollback
  Booked-ensure_editable_and_rollback order status = search (booked, Booked-roll_back) depth 16

  Booked-reset_picked :
      (order : ℕ) (status : OutboundStatus) → Booked company (reset_picked order status)
  unfolding reset_picked
  Booked-reset_picked order status = search (booked) depth 12

  Booked-submit_lines : (m : Sums) (ls : List Line) → Booked company (submit_lines m ls)
  unfolding submit_lines
  Booked-submit_lines m [] = search (booked) depth 12
  Booked-submit_lines m (l ∷ ls) = let rest = Booked-submit_lines m ls in search (booked) depth 16

  pub submit-Booked : (user order now : ℕ) → Booked company (submit company user order now)
  unfolding submit
  submit-Booked user order now = search (booked, Booked-submit_lines) depth 24 fits 20000

  pub verify-Booked : (user order now : ℕ) → Booked company (verify company user order now)
  unfolding verify
  verify-Booked user order now = search (booked) depth 16

  pub start-Booked : (user order now : ℕ) → Booked company (start company user order now)
  unfolding start
  start-Booked user order now = search (booked) depth 16

  pub cancel_order-Booked :
      (order now : ℕ) (reason : Option String)
      → Booked company (cancel_order company order reason now)
  unfolding cancel_order
  cancel_order-Booked order now reason = search (booked, Booked-release_all_for_order) depth 20

module _ (e : Engine) (company : ℕ) where
  Booked-insert_lines : (order : ℕ) (ls : List NewLine) → Booked company (insert_lines e order ls)
  unfolding insert_lines
  Booked-insert_lines order [] = search (booked) depth 12
  Booked-insert_lines order (l ∷ ls) =
      let rest = Booked-insert_lines order ls in search (booked) depth 16

  pub create-Booked :
      (user now : ℕ) (dto : NewOrder) → Booked company (create e company user dto now)
  unfolding create write_order
  create-Booked user now dto =
      search (booked, Booked-ensure_items_belong, Booked-insert_lines, reserve_for_order-Booked)
        depth 24 fits 20000

  pub add_line-Booked :
      (order item now : ℕ) (qty : ℤ) → Booked company (add_line e company order item qty now)
  unfolding add_line
  add_line-Booked order item now qty =
      search
        (
          booked, Booked-ensure_items_belong, Booked-ensure_editable_and_rollback,
          Booked-reserve_additional_for_line,
        )
        depth 24 fits 20000

  Booked-adjust_reservation :
      (l : Line) (diff : ℤ) (now : ℕ) → Booked company (adjust_reservation e company l diff now)
  unfolding adjust_reservation
  Booked-adjust_reservation l diff now =
      search (booked, Booked-release_qty_for_line, Booked-reserve_additional_for_line) depth 16

  pub update_line-Booked :
      (order line now : ℕ) (qty : ℤ) → Booked company (update_line e company order line qty now)
  unfolding update_line
  update_line-Booked order line now qty =
      search (booked, Booked-ensure_editable_and_rollback, Booked-adjust_reservation) depth 24 fits
        20000

  Booked-cancel_line_row :
      (order line now : ℕ) → Booked company (cancel_line_row e company order line now)
  unfolding cancel_line_row
  Booked-cancel_line_row order line now = search (booked, Booked-release_qty_for_line) depth 16

  pub cancel_line-Booked :
      (order line now : ℕ) → Booked company (cancel_line e company order line now)
  unfolding cancel_line
  cancel_line-Booked order line now =
      search (booked, Booked-ensure_editable_and_rollback, Booked-cancel_line_row) depth 20

  Booked-reserve_manually :
      (line : Line) (dto : ManualPick) (now : ℕ)
      → Booked company (reserve_manually e company line dto now)
  unfolding reserve_manually
  Booked-reserve_manually line dto now = search (booked, Booked-reserve) depth 20

  pub manual_pick-Booked :
      (order now : ℕ) (dto : ManualPick) → Booked company (manual_pick e company order dto now)
  unfolding manual_pick
  manual_pick-Booked order now dto =
      search (booked, Booked-reserve_manually, Booked-reset_picked) depth 24 fits 20000
