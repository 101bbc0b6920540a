-- ===== src/Operations.antt =====
-- The requests of a company to the warehouse services: transfers, stocktaking, notices, inbound uploads
-- and returns, with those of the outbound services (Workflow), each in a transaction of its own.
pub mod Documents
pub mod Outbound
pub mod OutboundCalls
pub mod Runs
pub mod UploadRuns
pub mod ReturnRuns
use Prim.Native.String.{String}
use warehousehub.Base.{ℕ, Bool, true, false, ℤ, Option, List, [], ◌∷◌}
use warehousehub.Db.{Store, UploadRow, Engine, Tx, Result, pure, settle, ◌>>=◌, ◌>>◌}
use warehousehub.Transfers.{NewTransfer, create_transfer, confirm_transfer, cancel_transfer}
use warehousehub.Stocktaking.{
  create_stocktaking, add_count_lines, update_actual_qty, confirm_stocktaking,
}
use warehousehub.Notices.{NewAsn, create_asn, cancel_asn}
use warehousehub.Inbound.{Uploaded, create_upload, confirm_upload, cancel_upload}
use warehousehub.Returns.{
  NewReceipt, ReceiptPatch, LineDecision, create_receipt, update_return, cancel_receipt,
  decide_receipt, process_receipt,
}
use warehousehub.Workflow.{Command, perform}
use warehousehub.Workflow

pub data Request : Type 0 where
  new_transfer : NewTransfer → Request
  confirm_move : ℕ → Request
  cancel_move : ℕ → Request
  new_count : ℕ → Option String → Request
  add_lots : ℕ → List ℕ → Request
  enter_count : ℕ → ℕ → ℤ → Request
  confirm_count : ℕ → Request
  new_notice : NewAsn → Request
  cancel_notice : ℕ → Request
  new_upload : String → List UploadRow → Request
  confirm_inbound : ℕ → Request
  cancel_inbound : ℕ → Request
  new_return : NewReceipt → Request
  change_return : ℕ → ReceiptPatch → Request
  cancel_return : ℕ → Request
  decide_return : ℕ → List LineDecision → Request
  process_return : ℕ → List ℕ → Request
  outbound : Command → Request

-- A request with the user who makes it and the time at which it is served.
pub record Served : Type 0 where
  pub user : ℕ
  pub now : ℕ
  pub request : Request

-- The request that takes goods out of the warehouse.
abbrev pub ships : Request → Bool
ships (outbound (Workflow.Command.complete_shipping order)) = true
ships _ = false

-- The requests to the returns service.
abbrev pub is_return : Request → Bool
is_return (new_return dto) = true
is_return (change_return id dto) = true
is_return (cancel_return id) = true
is_return (decide_return id ds) = true
is_return (process_return id ls) = true
is_return _ = false

abbrev unit : {A : Type 0} → A → Tx (Unit {0})
unit a = pure tt

-- `trim` is JavaScript's.
unfoldable pub serve : Engine → (String → String) → ℕ → ℕ → ℕ → Request → Tx (Unit {0})
serve e trim company user now (new_transfer dto) = create_transfer e trim company user dto >>= unit
serve e trim company user now (confirm_move id) = confirm_transfer e company user id now
serve e trim company user now (cancel_move id) = cancel_transfer company id
serve e trim company user now (new_count warehouse memo) =
    create_stocktaking e trim company user warehouse memo >>= unit
serve e trim company user now (add_lots id lots) = add_count_lines e company id lots
serve e trim company user now (enter_count id line qty) = update_actual_qty company id line qty
serve e trim company user now (confirm_count id) = confirm_stocktaking e company id user now
serve e trim company user now (new_notice dto) = create_asn e company user dto >>= unit
serve e trim company user now (cancel_notice id) = cancel_asn company id
serve e trim company user now (new_upload file_name rows) =
    create_upload e company user file_name rows >>= unit
serve e trim company user now (confirm_inbound id) = confirm_upload e company id user now
serve e trim company user now (cancel_inbound id) = cancel_upload company id
serve e trim company user now (new_return dto) = create_receipt e company user dto now >>= unit
serve e trim company user now (change_return id dto) = update_return e company id dto
serve e trim company user now (cancel_return id) = cancel_receipt company id
serve e trim company user now (decide_return id ds) = decide_receipt company user id ds now
serve e trim company user now (process_return id line_ids) =
    process_receipt e company user id line_ids now
serve e trim company user now (outbound c) = perform e company user now c

-- The store after a list of requests; one that throws leaves it as it was.
unfoldable pub serve_all : Engine → (String → String) → ℕ → List Served → Store → Store
serve_all e trim company [] s = s
serve_all e trim company (c ∷ cs) s =
    serve_all e trim company cs (settle s (serve e trim company c.user c.now c.request s))
