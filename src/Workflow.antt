-- ===== src/Workflow.antt =====
-- The outbound workflow as a whole: the calls that the controllers of outbound-orders,
-- outbound-picking and outbound-shipping make, one after the other in any order, each in a
-- transaction of its own. A call that throws leaves the store as it was.
pub mod Safety
pub mod Runs
pub mod Final
use Prim.Native.String.{String}
use warehousehub.Base.{ℕ, true, false, ℤ, Option, List, [], ◌∷◌}
use warehousehub.Db.{Store, Engine, OutboundStatus, Tx, Result, ok, err, pure, settle, ◌>>=◌}
use warehousehub.Picking.Reserve.{reserve_for_order}
use warehousehub.Picking.Submit.{submit}
use warehousehub.Picking.Manual.{ManualPick, manual_pick}
use warehousehub.Orders.{NewOrder, create, add_line, update_line, cancel_line, cancel_order}
use warehousehub.Shipping.{verify, start, complete}

-- A request to the outbound controllers.
pub data Command : Type 0 where
  create_order : NewOrder → Command
  new_line : ℕ → ℕ → ℤ → Command
  change_line : ℕ → ℕ → ℤ → Command
  drop_line : ℕ → ℕ → Command
  drop_order : ℕ → Option String → Command
  reserve_order : ℕ → Command
  pick_by_hand : ℕ → ManualPick → Command
  submit_pick : ℕ → Command
  verify_pick : ℕ → Command
  start_shipping : ℕ → Command
  complete_shipping : ℕ → Command

-- A request with the user who makes it and the time at which it is served.
pub record Call : Type 0 where
  pub company : ℕ
  pub user : ℕ
  pub now : ℕ
  pub command : Command

-- OutboundPickingService.reserveForOrder
abbrev pub reserve_for_draft : Engine → ℕ → ℕ → ℕ → Tx (Unit {0})
reserve_for_draft e company order now =
    reserve_for_order e company order now (OutboundStatus.draft ∷ OutboundStatus.picking ∷ []) false
    >>= λ _. pure tt

unfoldable pub perform : Engine → ℕ → ℕ → ℕ → Command → Tx (Unit {0})
perform e company user now (create_order dto) = create e company user dto now >>= λ _. pure tt
perform e company user now (new_line order item qty) =
    add_line e company order item qty now >>= λ _. pure tt
perform e company user now (change_line order line qty) = update_line e company order line qty now
perform e company user now (drop_line order line) = cancel_line e company order line now
perform e company user now (drop_order order reason) = cancel_order company order reason now
perform e company user now (reserve_order order) = reserve_for_draft e company order now
perform e company user now (pick_by_hand order dto) = manual_pick e company order dto now
perform e company user now (submit_pick order) = submit company user order now
perform e company user now (verify_pick order) = verify company user order now
perform e company user now (start_shipping order) = start company user order now
perform e company user now (complete_shipping order) = complete e company user order now

-- The store after a list of calls.
unfoldable pub run : Engine → List Call → Store → Store
run e [] s = s
run e (c ∷ cs) s = run e cs (settle s (perform e c.company c.user c.now c.command s))
