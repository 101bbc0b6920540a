-- ===== src/Inbound.antt =====
-- apps/api/src/modules/inbound/inbound.service.ts: uploads of goods that came in, and their confirmation.
pub mod Confirmed
pub mod Exclusive
pub mod Spent
use Prim.Native.String.{String}
use text.Mathlib.Text.{◌==◌ as str_eq}
use warehousehub.Base.{
  ℕ, Bool, true, ℤ, Option, none, some, List, [], ◌∷◌, ◌==◌, ◌&&◌, not, keep, length, find_by,
  if◌then◌else◌,
}
use warehousehub.Db.{
  Store, Item, Upload, UploadRow, UploadStatus, is_uploaded, TxType, Engine, Tx, pure, throw_if,
  or_throw, gets, ◌>>=◌, ◌>>◌, not_found, bad_request, invalid_rows, upload_not_found,
  already_processed, only_uploaded, warehouse_missing, insert_tx, insert_tx_line, insert_upload,
  update_uploads, insert_item, update_item, upsert_stock,
}
use warehousehub.Ledger.{lot_key}
use warehousehub.Lots.{
  TypeEntry, map_get, warehouse_by_type, normalize_to_utc_day, add_utc_days, has_no_expiry,
  expires_within, get_or_create_lot,
}

abbrev pub invalid_count : List UploadRow → ℕ
invalid_count rows = length (keep (λ r. not r.is_valid) rows)

-- The result is the identifier of the upload and the number of its invalid rows; the rows are those
-- that `parseExcel` returns.
pub record Uploaded : Type 0 where
  pub id : ℕ
  pub invalid : ℕ

unfoldable pub create_upload : Engine → ℕ → ℕ → String → List UploadRow → Tx Uploaded
create_upload e company user file_name rows = do
  id ← gets e.new_id
  insert_upload (record {
    id = id;
    company = company;
    uploaded_by = user;
    file_name = file_name;
    status = UploadStatus.uploaded;
    confirmed_at = none;
    rows = rows;
  })
  pure (record { id = id; invalid = invalid_count rows })

abbrev pub find_upload : ℕ → ℕ → Store → Option Upload
find_upload company id s = find_by (λ u. (u.id == id) && (u.company == company)) s.uploads

-- `tx.item.upsert` by company and code: the name is updated, or an item is created.
unfoldable pub write_item : Engine → ℕ → UploadRow → Option Item → Tx Item
write_item e company row (some i) = do
  update_item i.id (λ x. record x { name = row.item_name })
  pure (record i { name = row.item_name })
write_item e company row none = do
  id ← gets e.new_id
  insert_item (record {
    id = id;
    company = company;
    code = row.item_code;
    name = row.item_name;
    unit_cost = none;
    is_active = true;
  })
  pure (record {
    id = id;
    company = company;
    code = row.item_code;
    name = row.item_name;
    unit_cost = none;
    is_active = true;
  })

unfoldable pub upsert_item : Engine → ℕ → UploadRow → Tx Item
upsert_item e company row =
    gets (λ s. find_by (λ i. (i.company == company) && str_eq i.code row.item_code) s.items)
    >>= write_item e company row

-- The lot without an expiry date, or the lot that expires on the day.
unfoldable pub lot_for_row : Engine → ℕ → ℕ → ℕ → Option ℕ → Tx ℕ
lot_for_row e company item now none = get_or_create_lot e company item has_no_expiry none now
lot_for_row e company item now (some t) =
    let day = normalize_to_utc_day t in
    get_or_create_lot e company item (expires_within day (add_utc_days day 1)) (some day) now

-- The row's cost, or else the item's.
abbrev pub cost_of : Option ℤ → Option ℤ → Option ℤ
cost_of (some c) default = some c
cost_of none default = default

-- The loop's body.
unfoldable pub confirm_row : Engine → ℕ → ℕ → List TypeEntry → ℕ → UploadRow → Tx (Unit {0})
confirm_row e company tx by_type now row = do
  item ← upsert_item e company row
  lot ← lot_for_row e company item.id now row.expiry
  warehouse ← or_throw (map_get row.storage by_type) (bad_request warehouse_missing)
  upsert_stock e (lot_key company warehouse lot) row.quantity
  insert_tx_line (record {
    tx = tx;
    warehouse = warehouse;
    lot = lot;
    qty_delta = row.quantity;
    unit_cost = cost_of row.unit_cost item.unit_cost;
  })

unfoldable pub confirm_rows : Engine → ℕ → ℕ → List TypeEntry → ℕ → List UploadRow → Tx (Unit {0})
confirm_rows e company tx by_type now [] = pure tt
confirm_rows e company tx by_type now (row ∷ rows) =
    confirm_row e company tx by_type now row >> confirm_rows e company tx by_type now rows

-- `status: 'UPLOADED'` in the `where` of both claims.
abbrev pub is_claimable : ℕ → ℕ → Upload → Bool
is_claimable company id u = (u.id == id) && (u.company == company) && is_uploaded u.status

-- The part of the transaction after the claim.
unfoldable pub book_upload : Engine → ℕ → ℕ → ℕ → ℕ → List UploadRow → Tx (Unit {0})
book_upload e company user id now rows = do
  tx ← gets e.new_id
  insert_tx (record {
    id = tx;
    company = company;
    kind = TxType.inbound_confirm;
    actor = user;
    ref_id = id;
  })
  warehouses ← gets (λ s. keep (λ w. w.company == company) s.warehouses)
  confirm_rows e company tx (warehouse_by_type warehouses) now rows

-- The transaction.
unfoldable pub apply_upload : Engine → ℕ → ℕ → ℕ → ℕ → List UploadRow → Tx (Unit {0})
apply_upload e company user id now rows = do
  count ←
      update_uploads (is_claimable company id)
        (λ u. record u { status = UploadStatus.confirmed; confirmed_at = some now })
  throw_if (not (count == 1)) (bad_request already_processed)
  book_upload e company user id now rows

unfoldable pub confirm_upload : Engine → ℕ → ℕ → ℕ → ℕ → Tx (Unit {0})
confirm_upload e company id user now = do
  u ← or_throw (← gets (find_upload company id)) (not_found upload_not_found)
  throw_if (not (invalid_count u.rows == 0)) (bad_request invalid_rows)
  apply_upload e company user id now u.rows

unfoldable pub cancel_upload : ℕ → ℕ → Tx (Unit {0})
cancel_upload company id = do
  count ←
      update_uploads (is_claimable company id) (λ u. record u { status = UploadStatus.cancelled })
  throw_if (not (count == 1)) (bad_request only_uploaded)
