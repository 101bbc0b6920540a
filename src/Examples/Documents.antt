-- ===== src/Examples/Documents.antt =====
-- An inbound upload and a return receipt on the small database, and requests about them.
use warehousehub.Base.{ℕ, refl, true, pos, Option, none, some, List, [], ◌∷◌}
use warehousehub.Db.{
  Store, Upload, UploadRow, UploadStatus, Receipt, ReceiptLine, ReturnStatus, ReturnDecision,
  StorageType, OutboundStatus,
}
use warehousehub.Operations.{
  Request, Served, confirm_inbound, decide_return, process_return, confirm_move, cancel_inbound,
  outbound,
}
use warehousehub.Workflow.{reserve_order}
use warehousehub.Returns.Settled.Rows.{IsSettledStore}
use warehousehub.Examples.Database.{database, a_transfer}

abbrev upload_row : UploadRow
upload_row = record {
  item_code = "A-1";
  item_name = "Brown rice";
  storage = StorageType.dry;
  quantity = pos 2500;
  expiry = some 259200500;
  unit_cost = none;
  is_valid = true;
  error_message = none;
}

abbrev an_upload : Upload
an_upload = record {
  id = 1;
  company = 1;
  uploaded_by = 7;
  file_name = "goods.xlsx";
  status = UploadStatus.uploaded;
  confirmed_at = none;
  rows = upload_row ∷ (record upload_row { item_code = "B-2"; unit_cost = some (pos 30) }) ∷ [];
}

abbrev a_receipt : Receipt
a_receipt = record {
  id = 1;
  company = 1;
  customer = some 1;
  order = none;
  received_at = 10;
  status = ReturnStatus.received;
  memo = none;
  received_by = 7;
  decided_by = none;
  decided_at = none;
  completed_by = none;
  completed_at = none;
  version = 1;
}

abbrev a_receipt_line : ℕ → Option ℕ → ReceiptLine
a_receipt_line id expiry = record {
  id = id;
  receipt = 1;
  item = 1;
  outbound_line = none;
  storage = StorageType.cool;
  expiry = expiry;
  qty = pos 1500;
  decision = none;
  decided_by = none;
  decided_at = none;
  processed_by = none;
  processed_at = none;
  version = 1;
}

abbrev pub documents : Store
documents = record (database OutboundStatus.draft) {
  transfers = a_transfer ∷ [];
  uploads = an_upload ∷ [];
  receipts = a_receipt ∷ [];
  receipt_lines = a_receipt_line 1 none ∷ a_receipt_line 2 (some 400) ∷ [];
}

abbrev served : Request → Served
served r = record { user = 7; now = 20; request = r }

abbrev pub return_requests : List Served
return_requests =
    served (
      decide_return 1 (
        (record { line = 1; decision = ReturnDecision.restock })
        ∷ (record { line = 2; decision = ReturnDecision.discard })
        ∷ []))
    ∷ served (process_return 1 (1 ∷ 2 ∷ []))
    ∷ []

abbrev pub requests : List Served
requests =
    served (confirm_inbound 1)
    ∷ served (cancel_inbound 1)
    ∷ served (confirm_move 1)
    ∷ served (outbound (reserve_order 1))
    ∷ return_requests

pub documents-IsSettled : IsSettledStore documents
documents-IsSettled = record { ids = (tt, tt); settled = (refl, (refl, tt)) }
