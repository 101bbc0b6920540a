-- ===== src/Workflow/Final/Calls.antt =====
-- Every outbound call leaves a delivered or cancelled order in its status.
use Prim.Native.String.{String}
use warehousehub.Base.{ℕ, ◌≡◌, refl, true, false, Option, [], ◌∷◌, ◌||◌, not}
use warehousehub.Db.{OutboundStatus, same_status, has_status, Engine}
use warehousehub.Frames.Statements.{statements}
use warehousehub.Frames.Invariants.{Keeps, invariants}
use warehousehub.Picking.Reserve.{reserve_for_order}
use warehousehub.Picking.Manual.{ManualPick, manual_pick}
use warehousehub.Picking.Submit.{submit}
use warehousehub.Orders.{cancel_order}
use warehousehub.Shipping.{verify, start, complete}
use warehousehub.Workflow.Final.{RestsIn, rests-Leaves, update_other, is_final, Rests-guarded}
use warehousehub.Workflow.Final.Inner.{
  release_all_for_order-Leaves, commit_order-Leaves, submit_lines-Leaves, ship_lines-Leaves,
  reset_picked-Leaves, reserve_lines-Leaves, release_before_reserve-Leaves, reserve_manually-Leaves,
}

module _ (id : ℕ) (status : OutboundStatus) (final : is_final status ≡ true) (company now : ℕ) where
  pub verify-Rests : (user order : ℕ) → Keeps (RestsIn id status) (verify company user order now)
  unfolding verify
  verify-Rests user order =
      Rests-guarded id status final (λ st. not (same_status st OutboundStatus.picked)) refl refl
        company order _ _ _ (λ apart o. update_other id status order _ apart (λ _. refl))

  pub start-Rests : (user order : ℕ) → Keeps (RestsIn id status) (start company user order now)
  unfolding start
  start-Rests user order =
      Rests-guarded id status final (λ st. not (same_status st OutboundStatus.ready_to_ship)) refl
        refl company order _ _ _ (λ apart o. update_other id status order _ apart (λ _. refl))

  pub submit-Rests : (user order : ℕ) → Keeps (RestsIn id status) (submit company user order now)
  unfolding submit
  submit-Rests user order =
      Rests-guarded id status final (λ st. not (same_status st OutboundStatus.picking)) refl refl
        company order _ _ _
        (λ apart o.
          search (invariants, rests-Leaves, submit_lines-Leaves, update_other) depth 20 fits 20000)

  pub complete-Rests :
      (e : Engine) (user order : ℕ) → Keeps (RestsIn id status) (complete e company user order now)
  unfolding complete
  complete-Rests e user order =
      Rests-guarded id status final (λ st. not (same_status st OutboundStatus.shipping)) refl refl
        company order _ _ _
        (λ apart o.
          search
            (
              invariants, rests-Leaves, statements, commit_order-Leaves, ship_lines-Leaves,
              update_other,
            )
            depth 20 fits 20000)

  pub cancel_order-Rests :
      (order : ℕ) (reason : Option String)
      → Keeps (RestsIn id status) (cancel_order company order reason now)
  unfolding cancel_order
  cancel_order-Rests order reason =
      Rests-guarded id status final
        (λ st. same_status st OutboundStatus.delivered || same_status st OutboundStatus.cancelled)
        refl refl company order _ _ _
        (λ apart o.
          search (invariants, rests-Leaves, statements, release_all_for_order-Leaves, update_other)
            depth 20 fits 20000)

  pub reserve_for_order-Rests :
      (e : Engine) (order : ℕ)
      → Keeps (RestsIn id status) (
          reserve_for_order e company order now
            (OutboundStatus.draft ∷ OutboundStatus.picking ∷ [])
            false)
  unfolding reserve_for_order
  reserve_for_order-Rests e order =
      Rests-guarded id status final
        (λ st. not (has_status st (OutboundStatus.draft ∷ OutboundStatus.picking ∷ []))) refl refl
        company order _ _ _
        (λ apart o.
          search
            (
              invariants, rests-Leaves, release_before_reserve-Leaves, reserve_lines-Leaves,
              update_other,
            )
            depth 20 fits 20000)

  pub manual_pick-Rests :
      (e : Engine) (order : ℕ) (dto : ManualPick)
      → Keeps (RestsIn id status) (manual_pick e company order dto now)
  unfolding manual_pick
  manual_pick-Rests e order dto =
      Rests-guarded id status final
        (λ st. not (
          has_status st
            (OutboundStatus.picking ∷ OutboundStatus.picked ∷ OutboundStatus.ready_to_ship ∷ [])))
        refl refl company order _ _ _
        (λ apart o.
          search
            (invariants, rests-Leaves, reserve_manually-Leaves, reset_picked-Leaves, update_other)
            depth 20 fits 20000)
