-- ===== src/Workflow/Final/Edits.antt =====
-- New orders and the edits of lines leave a delivered or cancelled order in its status.
use warehousehub.Base.{ℕ, All, ◌≡◌, true, false, ℤ, [], ◌∷◌, ◌==◌, arith, find_by-All, find_by_test}
use warehousehub.Db.{
  Store, Order, OutboundStatus, Engine, IsEngine, Tx, pure, ◌>>=◌, ◌>>◌, insert_order,
}
use warehousehub.Frames.Statements.{statements}
use warehousehub.Frames.Invariants.{Keeps, invariants, Keeps-then, Keeps-throw_if}
use warehousehub.Picking.Reserve.{reserve_for_order}
use warehousehub.Orders.{
  roll_back, ensure_editable_and_rollback, NewOrder, insert_lines, write_order, create, add_line,
  update_line, cancel_line_row, cancel_line,
}
use warehousehub.Workflow.Final.{RestsIn, rests-Leaves, update_other, is_final, Rests-call}
use warehousehub.Workflow.Final.Inner.{
  release_qty_for_line-Leaves, reserve_additional_for_line-Leaves, adjust_reservation-Leaves,
  insert_lines-Leaves, ensure_items_belong-Leaves,
}
use warehousehub.Workflow.Final.Calls.{reserve_for_order-Rests}

module _ (id : ℕ) (status : OutboundStatus) where
  -- The test at the start of an edit throws.
  ensure_refused :
      {B : Type 0} (order : ℕ) (st : OutboundStatus) (k : Tx B)
      → is_final st ≡ true
      → Keeps (RestsIn id status) (ensure_editable_and_rollback order st >> k)
  unfolding ensure_editable_and_rollback
  ensure_refused order OutboundStatus.draft k h = absurd (cc)
  ensure_refused order OutboundStatus.picking k h = absurd (cc)
  ensure_refused order OutboundStatus.picked k h = absurd (cc)
  ensure_refused order OutboundStatus.ready_to_ship k h = absurd (cc)
  ensure_refused order OutboundStatus.shipping k h = absurd (cc)
  ensure_refused order OutboundStatus.delivered k h = record { apply = λ s v. tt }
  ensure_refused order OutboundStatus.cancelled k h = record { apply = λ s v. tt }

  roll_back-Rests :
      (order : ℕ) → (order == id) ≡ false → Keeps (RestsIn id status) (roll_back order)
  unfolding roll_back
  roll_back-Rests order apart = search (invariants, rests-Leaves, statements, update_other) depth 16

  ensure_other :
      (order : ℕ) (st : OutboundStatus)
      → (order == id) ≡ false
      → Keeps (RestsIn id status) (ensure_editable_and_rollback order st)
  unfolding ensure_editable_and_rollback
  ensure_other order st apart = search (invariants, roll_back-Rests) depth 16

module _ (id : ℕ) (status : OutboundStatus) (final : is_final status ≡ true) (e : Engine)
    (company now : ℕ) where
  pub add_line-Rests :
      (order item : ℕ) (qty : ℤ) → Keeps (RestsIn id status) (add_line e company order item qty now)
  unfolding add_line
  add_line-Rests order item qty =
      Keeps-then (RestsIn id status) _ _ (Keeps-throw_if (RestsIn id status) _ _) (
        Keeps-then (RestsIn id status) _ _
          (rests-Leaves id status _ (ensure_items_belong-Leaves e company now (item ∷ [])))
          (Rests-call id status final company order _ _
            (λ o h. ensure_refused id status order o.status _ h)
            (λ apart o.
              search
                (
                  invariants, rests-Leaves, statements, ensure_other,
                  reserve_additional_for_line-Leaves, update_other,
                )
                depth 24 fits 20000)))

  pub update_line-Rests :
      (order line : ℕ) (qty : ℤ)
      → Keeps (RestsIn id status) (update_line e company order line qty now)
  unfolding update_line
  update_line-Rests order line qty =
      Keeps-then (RestsIn id status) _ _ (Keeps-throw_if (RestsIn id status) _ _) (
        Rests-call id status final company order _ _
          (λ o h. ensure_refused id status order o.status _ h)
          (λ apart o.
            search
              (
                invariants, rests-Leaves, statements, ensure_other, adjust_reservation-Leaves,
                update_other,
              )
              depth 24 fits 20000))

  cancel_line_row-Rests :
      (order line : ℕ)
      → (order == id) ≡ false
      → Keeps (RestsIn id status) (cancel_line_row e company order line now)
  unfolding cancel_line_row
  cancel_line_row-Rests order line apart =
      search (invariants, rests-Leaves, statements, release_qty_for_line-Leaves, update_other) depth
        20 fits 20000

  pub cancel_line-Rests :
      (order line : ℕ) → Keeps (RestsIn id status) (cancel_line e company order line now)
  unfolding cancel_line
  cancel_line-Rests order line =
      Rests-call id status final company order _ _
        (λ o h. ensure_refused id status order o.status _ h)
        (λ apart o. search (invariants, ensure_other, cancel_line_row-Rests) depth 20)

  new_differs : (n : ℕ) (o : Order) → (o.id == n) ≡ false → (o.id == id) ≡ true → (n == id) ≡ false
  new_differs n o apart same = ground arith

  -- A new order is another one.
  insert_order-Rests :
      (s : Store) (o : Order)
      → All (λ x. (x.id == o.id) ≡ false) s.orders
      → RestsIn id status s
      → RestsIn id status (record s { orders = o ∷ s.orders })
  insert_order-Rests s o fresh v = record {
    ids = (fresh, v.ids);
    order = v.order;
    found =
        rw
          (new_differs o.id v.order
            (find_by-All (λ x. (x.id == o.id) ≡ false) _ s.orders v.found fresh)
            (find_by_test _ s.orders v.found))
          v.found;
    rests = v.rests;
  }

  after_insert :
      (dto : NewOrder) (order : ℕ)
      → Keeps (RestsIn id status) (
          insert_lines e order dto.lines
          >> (reserve_for_order e company order now
                (OutboundStatus.draft ∷ OutboundStatus.picking ∷ [])
                false
              >>= λ _. pure order))
  after_insert dto order =
      let reserved = reserve_for_order-Rests id status final company now e order in
      search (invariants, rests-Leaves, insert_lines-Leaves) depth 16

module _ (id : ℕ) (status : OutboundStatus) (final : is_final status ≡ true) (e : Engine)
    (laws : IsEngine e) (company now : ℕ) where
  write_order-Rests :
      (user : ℕ) (dto : NewOrder) → Keeps (RestsIn id status) (write_order e company user dto now)
  unfolding write_order insert_order
  write_order-Rests user dto = record {
    apply = λ s v.
        (after_insert id status final e company now dto (e.new_id s)).apply _
          (insert_order-Rests id status final e company now s _ (laws.new_id-orders s) v);
  }

  pub create-Rests :
      (user : ℕ) (dto : NewOrder) → Keeps (RestsIn id status) (create e company user dto now)
  unfolding create
  create-Rests user dto =
      search (invariants, rests-Leaves, ensure_items_belong-Leaves, write_order-Rests) depth 20
