-- ===== src/Operations/Documents.antt =====
-- The calls on transfers, stocktakings, notices, uploads and receipts that leave the stock rows and the
-- journal alone.
use Prim.Native.String.{String}
use warehousehub.Base.{ℕ, ℤ, Option, none, some, List, [], ◌∷◌}
use warehousehub.Db.{Stocktaking, UploadRow, ReceiptLine, Engine}
use warehousehub.Journal.Booked.{Booked, booked, Booked-then}
use warehousehub.Transfers.{NewTransfer, create_transfer, cancel_transfer}
use warehousehub.Stocktaking.{
  create_stocktaking, insert_count_lines, add_new_lots, add_count_lines, update_actual_qty,
}
use warehousehub.Notices.{
  NewAsn, check_from_branch, check_from_warehouse, check_notice, create_asn, cancel_asn,
}
use warehousehub.Inbound.{create_upload, cancel_upload}
use warehousehub.Returns.{
  NewReceipt, NewReturnLine, ReceiptPatch, LinePatch, LineDecision, check_order, check_customer,
  check_items, insert_return_line, insert_return_lines, write_receipt, create_receipt, patch_known,
  patch_new, patch_line, patch_lines, apply_patch, update_return, cancel_receipt, decide_lines,
  decide_receipt,
}

module _ (e : Engine) (company : ℕ) where
  pub create_transfer-Booked :
      (trim : String → String) (user : ℕ) (dto : NewTransfer)
      → Booked company (create_transfer e trim company user dto)
  unfolding create_transfer
  create_transfer-Booked trim user dto = search (booked) depth 24

  pub cancel_transfer-Booked : (id : ℕ) → Booked company (cancel_transfer company id)
  unfolding cancel_transfer
  cancel_transfer-Booked id = search (booked) depth 20

  pub create_stocktaking-Booked :
      (trim : String → String) (user warehouse : ℕ) (memo : Option String)
      → Booked company (create_stocktaking e trim company user warehouse memo)
  unfolding create_stocktaking
  create_stocktaking-Booked trim user warehouse memo = search (booked) depth 20

  Booked-insert_count_lines :
      (id : ℕ) (f : ℕ → ℤ) (lots : List ℕ) → Booked company (insert_count_lines e id f lots)
  unfolding insert_count_lines
  Booked-insert_count_lines id f [] = search (booked) depth 12
  Booked-insert_count_lines id f (lot ∷ lots) =
      let rest = Booked-insert_count_lines id f lots in search (booked) depth 12

  Booked-add_new_lots :
      (c : Stocktaking) (lots : List ℕ) → Booked company (add_new_lots e company c lots)
  unfolding add_new_lots
  Booked-add_new_lots c lots = search (booked, Booked-insert_count_lines) depth 16

  pub add_count_lines-Booked :
      (id : ℕ) (lots : List ℕ) → Booked company (add_count_lines e company id lots)
  unfolding add_count_lines
  add_count_lines-Booked id lots = search (booked, Booked-add_new_lots) depth 20

  pub update_actual_qty-Booked :
      (id line : ℕ) (qty : ℤ) → Booked company (update_actual_qty company id line qty)
  unfolding update_actual_qty
  update_actual_qty-Booked id line qty = search (booked) depth 20

  Booked-check_from_branch : (o : Option ℕ) → Booked company (check_from_branch company o)
  unfolding check_from_branch
  Booked-check_from_branch none = search (booked) depth 12
  Booked-check_from_branch (some id) = search (booked) depth 12

  Booked-check_from_warehouse : (o : Option ℕ) → Booked company (check_from_warehouse company o)
  unfolding check_from_warehouse
  Booked-check_from_warehouse none = search (booked) depth 12
  Booked-check_from_warehouse (some id) = search (booked) depth 12

  Booked-check_notice : (dto : NewAsn) → Booked company (check_notice company dto)
  unfolding check_notice
  Booked-check_notice dto =
      search (booked, Booked-check_from_branch, Booked-check_from_warehouse) depth 24

  pub create_asn-Booked : (user : ℕ) (dto : NewAsn) → Booked company (create_asn e company user dto)
  unfolding create_asn
  create_asn-Booked user dto = search (booked, Booked-check_notice) depth 16

  pub cancel_asn-Booked : (id : ℕ) → Booked company (cancel_asn company id)
  unfolding cancel_asn
  cancel_asn-Booked id = search (booked) depth 16

  pub create_upload-Booked :
      (user : ℕ) (file_name : String) (rows : List UploadRow)
      → Booked company (create_upload e company user file_name rows)
  unfolding create_upload
  create_upload-Booked user file_name rows = search (booked) depth 16

  pub cancel_upload-Booked : (id : ℕ) → Booked company (cancel_upload company id)
  unfolding cancel_upload
  cancel_upload-Booked id = search (booked) depth 16

  Booked-check_order : (o : Option ℕ) → Booked company (check_order company o)
  unfolding check_order
  Booked-check_order none = search (booked) depth 12
  Booked-check_order (some id) = search (booked) depth 12

  Booked-check_customer : (o : Option ℕ) → Booked company (check_customer company o)
  unfolding check_customer
  Booked-check_customer none = search (booked) depth 12
  Booked-check_customer (some id) = search (booked) depth 12

  Booked-check_items : (ids : List ℕ) → Booked company (check_items company ids)
  unfolding check_items
  Booked-check_items ids = search (booked) depth 12

  Booked-insert_return_line :
      (receipt : ℕ) (l : NewReturnLine) → Booked company (insert_return_line e receipt l)
  unfolding insert_return_line
  Booked-insert_return_line receipt l = search (booked) depth 12

  Booked-insert_return_lines :
      (receipt : ℕ) (ls : List NewReturnLine) → Booked company (insert_return_lines e receipt ls)
  unfolding insert_return_lines
  Booked-insert_return_lines receipt [] = search (booked) depth 12
  Booked-insert_return_lines receipt (l ∷ ls) =
      Booked-then company _ _ (Booked-insert_return_line receipt l)
        (Booked-insert_return_lines receipt ls)

  pub create_receipt-Booked :
      (user now : ℕ) (dto : NewReceipt) → Booked company (create_receipt e company user dto now)
  unfolding create_receipt write_receipt
  create_receipt-Booked user now dto =
      search
        (
          booked, Booked-check_order, Booked-check_customer, Booked-check_items,
          Booked-insert_return_lines,
        )
        depth 24 fits 20000

  Booked-patch_known :
      (known : List ReceiptLine) (p : LinePatch) (id : ℕ) → Booked company (patch_known known p id)
  unfolding patch_known
  Booked-patch_known known p id = search (booked) depth 16

  Booked-patch_new : (receipt : ℕ) (p : LinePatch) → Booked company (patch_new e receipt p)
  unfolding patch_new
  Booked-patch_new receipt p = search (booked, Booked-insert_return_line) depth 16

  Booked-patch_line :
      (receipt : ℕ) (known : List ReceiptLine) (p : LinePatch) (o : Option ℕ)
      → Booked company (patch_line e receipt known p o)
  unfolding patch_line
  Booked-patch_line receipt known p none = Booked-patch_new receipt p
  Booked-patch_line receipt known p (some id) = Booked-patch_known known p id

  Booked-patch_lines :
      (receipt : ℕ) (known : List ReceiptLine) (ps : List LinePatch)
      → Booked company (patch_lines e receipt known ps)
  unfolding patch_lines
  Booked-patch_lines receipt known [] = search (booked) depth 12
  Booked-patch_lines receipt known (p ∷ ps) =
      Booked-then company _ _ (Booked-patch_line receipt known p p.id)
        (Booked-patch_lines receipt known ps)

  pub update_return-Booked :
      (id : ℕ) (dto : ReceiptPatch) → Booked company (update_return e company id dto)
  unfolding update_return apply_patch
  update_return-Booked id dto =
      search
        (booked, Booked-check_order, Booked-check_customer, Booked-check_items, Booked-patch_lines)
        depth 24

  pub cancel_receipt-Booked : (id : ℕ) → Booked company (cancel_receipt company id)
  unfolding cancel_receipt
  cancel_receipt-Booked id = search (booked) depth 16

  Booked-decide_lines :
      (user now : ℕ) (known : List ReceiptLine) (ds : List LineDecision)
      → Booked company (decide_lines user now known ds)
  unfolding decide_lines
  Booked-decide_lines user now known [] = search (booked) depth 12
  Booked-decide_lines user now known (d ∷ ds) =
      let rest = Booked-decide_lines user now known ds in search (booked) depth 12

  pub decide_receipt-Booked :
      (user id now : ℕ) (ds : List LineDecision)
      → Booked company (decide_receipt company user id ds now)
  unfolding decide_receipt
  decide_receipt-Booked user id now ds = search (booked, Booked-decide_lines) depth 24
