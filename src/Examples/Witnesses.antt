-- ===== src/Examples/Witnesses.antt =====
-- The theorems applied to the small database, and runs of the services on it.
use warehousehub.Base.{IsEighths, ◌≡◌, refl, pos, none, List, [], ◌∷◌, arith, length}
use warehousehub.Db.{
  Store, OutboundStatus, err, bad_request, not_enough_reserved, ok, Post, Returns,
}
use warehousehub.Ledger.{IsSoundStore, held_for_line}
use warehousehub.Picking.Reserve.{reserve_additional_for_line}
use warehousehub.Picking.Reserve.Shortfall.{
  uncovered, total_available, reserve_additional_for_line-uncovered,
}
use warehousehub.Picking.Reserve.PerLine.{ReservesLine, reserve_additional_for_line-ReservesLine}
use warehousehub.Picking.Release.{release_qty_for_line, release_all_for_order, open_for_order}
use warehousehub.Picking.Release.PerLine.{
  ReleasesLine, release_qty_for_line-ReleasesLine, release_qty_for_line_refused,
}
use warehousehub.Picking.Release.PerOrder.{ReleasesOrder, release_all_for_order-ReleasesOrder}
use warehousehub.Shipping.{commit_order, to_commit}
use warehousehub.Shipping.Commit.{Commits, commit_order_returns}
use warehousehub.Transfers.{confirm_transfer}
use warehousehub.Transfers.Confirm.{Confirms, confirm_transfer-Confirms}
use warehousehub.Stocktaking.{confirm_stocktaking}
use warehousehub.Stocktaking.Books.{Corrects}
use warehousehub.Stocktaking.Journal.{confirm_stocktaking-Corrects}
use warehousehub.Notices.{create_asn}
use warehousehub.Notices.Created.{Creates, create_asn-Creates}
use warehousehub.Orders.{cancel_order}
use warehousehub.Orders.Cancelled.{Cancels, cancel_order-Cancels}
use warehousehub.Workflow.{
  Command, Call, run, create_order, verify_pick, start_shipping, complete_shipping,
}
use warehousehub.Workflow.Runs.{run-IsSound}
use warehousehub.Picking.Reserve.OfItem.{stock_of_item}
use warehousehub.Examples.InEighths.{eighths, database-AreEighths}
use warehousehub.Examples.Sorting.{engine, engine-IsEngine}
use warehousehub.Examples.Database.{
  database, database-IsSound, database-held, database-IsShelved, transfer_database, count_database,
  a_notice,
}

abbrev call_of : Command → Call
call_of c = record { company = 1; user = 7; now = 20; command = c }

-- A new order for 8.000 units, and the order of the database on its way to the customer.
abbrev some_calls : List Call
some_calls =
    call_of (
      create_order (record {
        customer = 1;
        planned_date = 60;
        memo = none;
        lines = (record { item = 1; requested = pos 8000 }) ∷ [];
      }))
    ∷ call_of (verify_pick 1)
    ∷ call_of (start_shipping 1)
    ∷ call_of (complete_shipping 1)
    ∷ []

run-IsSound_example : IsSoundStore (run engine some_calls (database OutboundStatus.picked))
run-IsSound_example =
    run-IsSound engine engine-IsEngine some_calls (database OutboundStatus.picked)
      (database-IsSound OutboundStatus.picked)

reserve_additional_for_line-ReservesLine_example :
    Returns
      (λ r t. ReservesLine 1 1 (database OutboundStatus.picking) (pos 9000) r t)
      (reserve_additional_for_line engine 1 1 1 20 (pos 9000) (database OutboundStatus.picking))
reserve_additional_for_line-ReservesLine_example =
    reserve_additional_for_line-ReservesLine engine engine-IsEngine 1 1 1 20 (pos 9000)
      (database OutboundStatus.picking) (database-IsSound OutboundStatus.picking)

release_qty_for_line-ReleasesLine_example :
    Returns
      (λ _ t.
        ReleasesLine 1 1 (database OutboundStatus.picking) (pos 1000) t
        × IsEighths (held_for_line 1 1 t.allocations))
      (release_qty_for_line engine 1 1 20 (pos 1000) (database OutboundStatus.picking))
release_qty_for_line-ReleasesLine_example =
    release_qty_for_line-ReleasesLine engine engine-IsEngine 1 1 20 (pos 1000)
      (database OutboundStatus.picking) (database-IsSound OutboundStatus.picking) (omega arith)
      (rw (database-held OutboundStatus.picking) (omega arith)) (eighths 24, tt) (eighths 8)

release_qty_for_line_refused_example :
    release_qty_for_line engine 1 1 20 (pos 4000) (database OutboundStatus.picking)
    ≡ err (bad_request not_enough_reserved)
release_qty_for_line_refused_example =
    release_qty_for_line_refused engine engine-IsEngine 1 1 20 (pos 4000)
      (database OutboundStatus.picking) (database-IsSound OutboundStatus.picking)
      (rw (database-held OutboundStatus.picking) (omega arith))

release_all_for_order-ReleasesOrder_example :
    Returns
      (λ n t.
        (n ≡ length (open_for_order 1 1 (database OutboundStatus.picking)))
        × ReleasesOrder 1 1 (database OutboundStatus.picking) t)
      (release_all_for_order 1 1 20 (database OutboundStatus.picking))
release_all_for_order-ReleasesOrder_example =
    release_all_for_order-ReleasesOrder 1 1 20 (database OutboundStatus.picking)
      (database-IsSound OutboundStatus.picking)

commit_order_returns_example :
    (t : Store) × (commit_order 1 1 20 (database OutboundStatus.shipping)
      ≡ ok (to_commit 1 1 (database OutboundStatus.shipping)) t)
    × Commits
        (database OutboundStatus.shipping)
        (to_commit 1 1 (database OutboundStatus.shipping))
        t
commit_order_returns_example =
    commit_order_returns 1 20 1 (database OutboundStatus.shipping)
      (database-IsSound OutboundStatus.shipping) refl (refl, tt)

confirm_transfer-Confirms_example :
    Post
      (λ _ t. Confirms 1 1 transfer_database t)
      (confirm_transfer engine 1 7 1 20 transfer_database)
confirm_transfer-Confirms_example =
    confirm_transfer-Confirms engine engine-IsEngine 1 7 1 20 transfer_database database-IsShelved

confirm_stocktaking-Corrects_example :
    Post (λ _ t. Corrects 1 count_database t) (confirm_stocktaking engine 1 1 7 20 count_database)
confirm_stocktaking-Corrects_example =
    confirm_stocktaking-Corrects engine engine-IsEngine 1 1 7 20 count_database database-IsShelved
      (omega arith, (omega arith, (omega arith, tt)))

create_asn-Creates_example :
    Post
      (λ id t. Creates 1 7 a_notice transfer_database id t)
      (create_asn engine 1 7 a_notice transfer_database)
create_asn-Creates_example =
    create_asn-Creates engine engine-IsEngine 1 7 a_notice transfer_database

reserve_additional_for_line-uncovered_example :
    Returns
      (λ r _.
        (r.shortage
          ≡ uncovered
              (pos 16000)
              (total_available (stock_of_item 1 1 (database OutboundStatus.picking))))
        × IsEighths r.shortage)
      (reserve_additional_for_line engine 1 1 1 20 (pos 16000) (database OutboundStatus.picking))
reserve_additional_for_line-uncovered_example =
    reserve_additional_for_line-uncovered engine engine-IsEngine 1 1 1 20 (pos 16000)
      (database OutboundStatus.picking) (database-IsSound OutboundStatus.picking)
      database-AreEighths (eighths 128)

cancel_order-Cancels_example :
    Post
      (λ _ t. Cancels 1 1 (database OutboundStatus.picked) t)
      (cancel_order 1 1 none 20 (database OutboundStatus.picked))
cancel_order-Cancels_example =
    cancel_order-Cancels 1 1 20 none (database OutboundStatus.picked)
      (database-IsSound OutboundStatus.picked)
