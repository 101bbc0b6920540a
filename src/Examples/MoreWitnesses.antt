-- ===== src/Examples/MoreWitnesses.antt =====
-- The theorems on inbound uploads, returns and mixed requests applied to the small database.
use warehousehub.Base.{All, IsEighths, pos, none, some, ◌==◌, List, ◌∷◌, [], ◌≡◌, refl, true}
use warehousehub.Db.{
  OutboundStatus, StorageType, Error, IsOrdered, err, bad_request, conflict, duplicate_code,
  already_processed, only_uploaded, Post,
}
use warehousehub.Workflow.{Command, Call, run, drop_order, change_line, start_shipping}
use warehousehub.Workflow.Final.{RestsIn}
use warehousehub.Workflow.Final.Runs.{run-Rests}
use warehousehub.Journal.{Books}
use warehousehub.Picking.Reserve.{candidates, reserve_additional_for_line}
use warehousehub.Picking.Reserve.Plan.{carry_out, takes_in}
use warehousehub.Picking.Reserve.Shares.{shares, reserve_additional_for_line_first_expired_first}
use warehousehub.Lots.{normalize_to_utc_day, add_utc_days, expires_within}
use warehousehub.Lots.Days.{expires_within_day}
use warehousehub.Stocks.{correct_stock}
use warehousehub.Stocks.Rounded.{IsNear}
use warehousehub.Stocks.Corrected.{correct_stock-IsNear, correct_stock-Books}
use warehousehub.Examples.Tenths.{to_tenths, to_tenths-IsToTenths}
use warehousehub.Lots.{map_get, warehouse_by_type}
use warehousehub.Lots.WarehouseMap.{first_of, or_else, map_get-warehouse_by_type}
use warehousehub.Inbound.{confirm_upload, cancel_upload}
use warehousehub.Operations.UploadRuns.{confirm_upload_once, cancel_upload_final}
use warehousehub.Items.{NewItem, create_item}
use warehousehub.Items.Unique.{create_item_once}
use warehousehub.Returns.Settled.Rows.{IsSettledStore}
use warehousehub.Operations.{serve_all, Served, cancel_inbound, new_upload, confirm_inbound}
use warehousehub.Operations.Runs.{serve_all-Books}
use warehousehub.Operations.ReturnRuns.{serve_all-Settled}
use warehousehub.Examples.Sorting.{engine, engine-IsEngine}
use warehousehub.Examples.Database.{an_order, database, stock_row, dry_and_cool, database-IsShelved}
use warehousehub.Examples.InEighths.{eighths, database-AreEighths}
use warehousehub.Picking.Reserve.FirstExpired.{expiry_of, no_later}
use warehousehub.Examples.Documents.{documents, requests, return_requests, documents-IsSettled}

serve_all-Books_example : Books 1 documents (serve_all engine (λ t. t) 1 requests documents)
serve_all-Books_example =
    serve_all-Books engine engine-IsEngine (λ t. t) 1 requests documents database-IsShelved
      (refl, (refl, (refl, (refl, (refl, (refl, tt))))))

serve_all-Settled_example : IsSettledStore (serve_all engine (λ t. t) 1 return_requests documents)
serve_all-Settled_example =
    serve_all-Settled engine engine-IsEngine (λ t. t) 1 return_requests documents
      documents-IsSettled (refl, (refl, tt))

-- Requests about the upload that was confirmed or cancelled, and a new one of the same file.
abbrev upload_requests : List Served
upload_requests =
    (record { user = 7; now = 21; request = cancel_inbound 1 })
    ∷ (record { user = 8; now = 22; request = new_upload "goods.xlsx" [] })
    ∷ (record { user = 8; now = 23; request = confirm_inbound 1 })
    ∷ []

confirm_upload_once_example :
    Post
      (λ _ t.
        let u = serve_all engine (λ c. c) 1 upload_requests t in
        (confirm_upload engine 1 1 8 30 u ≡ err (bad_request already_processed))
        × (cancel_upload 1 1 u ≡ err (bad_request only_uploaded)))
      (confirm_upload engine 1 1 7 20 documents)
confirm_upload_once_example =
    confirm_upload_once engine engine-IsEngine (λ c. c) 1 1 7 20 8 30 upload_requests documents
      (refl, (refl, (refl, tt)))

cancel_upload_final_example :
    Post
      (λ _ t.
        let u = serve_all engine (λ c. c) 1 upload_requests t in
        ((x : Error) × (confirm_upload engine 1 1 8 30 u ≡ err x))
        × (cancel_upload 1 1 u ≡ err (bad_request only_uploaded)))
      (cancel_upload 1 1 documents)
cancel_upload_final_example =
    cancel_upload_final engine engine-IsEngine (λ c. c) 1 1 8 30 upload_requests documents
      (refl, (refl, (refl, tt)))

abbrev corn : NewItem
corn = record { code = "C-3"; name = "Corn"; unit_cost = some (pos 12) }

create_item_once_example :
    Post
      (λ _ t.
        create_item engine (λ c. c) 1 (record corn { name = "Sweet corn" }) t
        ≡ err (conflict duplicate_code))
      (create_item engine (λ c. c) 1 corn documents)
create_item_once_example =
    create_item_once engine (λ c. c) 1 corn (record corn { name = "Sweet corn" }) documents refl
      refl

map_get-warehouse_by_type_example :
    map_get StorageType.cool (warehouse_by_type dry_and_cool)
    ≡ or_else
        (first_of (λ w. w.is_default_region) StorageType.cool dry_and_cool)
        (first_of (λ w. true) StorageType.cool dry_and_cool)
map_get-warehouse_by_type_example = map_get-warehouse_by_type dry_and_cool StorageType.cool

correct_stock-IsNear_example :
    Post
      (λ _ t. IsNear 1 50 documents t)
      (correct_stock engine to_tenths 1 7 2 (pos 3449) (pos 0) none documents)
correct_stock-IsNear_example =
    correct_stock-IsNear engine engine-IsEngine to_tenths to_tenths-IsToTenths 1 7 2 (pos 3449)
      (pos 0) none documents database-IsShelved

correct_stock-Books_example :
    Post
      (λ _ t. Books 1 documents t)
      (correct_stock engine to_tenths 1 7 2 (pos 3449) (pos 0) none documents)
correct_stock-Books_example =
    correct_stock-Books engine engine-IsEngine to_tenths to_tenths-IsToTenths 1 7 2 (pos 3449)
      (pos 0) none documents database-IsShelved (stock_row 2 1 2 (pos 4000) (pos 3000)) (pos 4000)
      refl refl

expires_within_day_example :
    expires_within
      (normalize_to_utc_day 259200500)
      (add_utc_days (normalize_to_utc_day 259200500) 1)
      (some 259300000)
    ≡ (normalize_to_utc_day 259300000 == normalize_to_utc_day 259200500)
expires_within_day_example = expires_within_day 259300000 259200500

reserve_additional_for_line_first_expired_first_example :
    IsOrdered
      (λ c d.
        no_later
          (expiry_of (database OutboundStatus.picking) c)
          (expiry_of (database OutboundStatus.picking) d))
      (candidates engine 1 1 (database OutboundStatus.picking))
    × All
        (λ t. IsEighths t.qty)
        (shares 1 (pos 7000) (pos 0) (candidates engine 1 1 (database OutboundStatus.picking)))
    × Post
        (λ _ t.
          takes_in t
          ≡ carry_out
              (shares 1
                (pos 7000)
                (pos 0)
                (candidates engine 1 1 (database OutboundStatus.picking)))
              (takes_in (database OutboundStatus.picking)))
        (reserve_additional_for_line engine 1 1 1 20 (pos 7000) (database OutboundStatus.picking))
reserve_additional_for_line_first_expired_first_example =
    reserve_additional_for_line_first_expired_first engine engine-IsEngine 1 1 1 20 (pos 7000)
      (database OutboundStatus.picking) refl database-AreEighths (eighths 56)

abbrev late_call : Command → Call
late_call c = record { company = 1; user = 7; now = 40; command = c }

abbrev late_calls : List Call
late_calls =
    late_call (drop_order 1 none)
    ∷ late_call (change_line 1 1 (pos 500))
    ∷ late_call (start_shipping 1)
    ∷ []

run-Rests_example :
    RestsIn 1 OutboundStatus.delivered (run engine late_calls (database OutboundStatus.delivered))
run-Rests_example =
    run-Rests engine engine-IsEngine 1 OutboundStatus.delivered refl late_calls
      (database OutboundStatus.delivered)
      (record {
        ids = (tt, tt);
        order = an_order OutboundStatus.delivered;
        found = refl;
        rests = refl;
      })
