-- ===== src/Inbound/Confirmed.antt =====
-- InboundService.confirmUpload: the journal accounts for every row that it books in.
use warehousehub.Base.{ℕ, refl, ℤ, Option, none, some, List, [], ◌∷◌}
use warehousehub.Db.{
  Item, Lot, UploadRow, Engine, IsEngine, Post-bind, ◌>>◌, upsert_stock, insert_tx_line,
}
use warehousehub.Ledger.{lot_key}
use warehousehub.Journal.{Books}
use warehousehub.Journal.Booked.{Booked, booked, Booked-then}
use warehousehub.Journal.Upsert.{Raises, upsert_stock-Raises, Raises-Books}
use warehousehub.Lots.{TypeEntry, create_lot, get_or_create_lot}
use warehousehub.Inbound.{
  write_item, upsert_item, lot_for_row, confirm_row, confirm_rows, book_upload, apply_upload,
  confirm_upload,
}

module _ (e : Engine) (laws : IsEngine e) (company : ℕ) where
  -- A stock row is raised and its journal line written.
  pub Booked-raise :
      (warehouse lot tx : ℕ) (qty : ℤ) (cost : Option ℤ)
      → Booked company (
          upsert_stock e (lot_key company warehouse lot) qty
          >> insert_tx_line (record {
            tx = tx;
            warehouse = warehouse;
            lot = lot;
            qty_delta = qty;
            unit_cost = cost;
          }))
  unfolding insert_tx_line
  Booked-raise warehouse lot tx qty cost = record {
    apply = λ s v.
        Post-bind (λ _ t. Raises company warehouse lot qty s t) (λ _ t. Books company s t)
          (upsert_stock e (lot_key company warehouse lot) qty) _ s
          (upsert_stock-Raises e laws company warehouse lot qty s v)
          (λ _ t _ h. Raises-Books e laws company warehouse lot qty s t _ h (refl, refl, refl));
  }

  pub Booked-create_lot :
      (item now : ℕ) (expiry : Option ℕ) (o : Option Lot)
      → Booked company (create_lot e company item expiry now o)
  unfolding create_lot
  Booked-create_lot item now expiry none = search (booked) depth 12
  Booked-create_lot item now expiry (some l) = search (booked) depth 12

  pub Booked-get_or_create_lot :
      (item now : ℕ) (p : Option ℕ → _) (expiry : Option ℕ)
      → Booked company (get_or_create_lot e company item p expiry now)
  unfolding get_or_create_lot
  Booked-get_or_create_lot item now p expiry = search (booked, Booked-create_lot) depth 12

  Booked-write_item :
      (row : UploadRow) (o : Option Item) → Booked company (write_item e company row o)
  unfolding write_item
  Booked-write_item row none = search (booked) depth 12
  Booked-write_item row (some i) = search (booked) depth 12

  Booked-upsert_item : (row : UploadRow) → Booked company (upsert_item e company row)
  unfolding upsert_item
  Booked-upsert_item row = search (booked, Booked-write_item) depth 12

  Booked-lot_for_row :
      (item now : ℕ) (expiry : Option ℕ) → Booked company (lot_for_row e company item now expiry)
  unfolding lot_for_row
  Booked-lot_for_row item now none = search (booked, Booked-get_or_create_lot) depth 12
  Booked-lot_for_row item now (some t) = search (booked, Booked-get_or_create_lot) depth 12

  Booked-confirm_row :
      (tx now : ℕ) (by_type : List TypeEntry) (row : UploadRow)
      → Booked company (confirm_row e company tx by_type now row)
  unfolding confirm_row
  Booked-confirm_row tx now by_type row =
      search (booked, Booked-upsert_item, Booked-lot_for_row, Booked-raise) depth 20

  Booked-confirm_rows :
      (tx now : ℕ) (by_type : List TypeEntry) (rows : List UploadRow)
      → Booked company (confirm_rows e company tx by_type now rows)
  unfolding confirm_rows
  Booked-confirm_rows tx now by_type [] = search (booked) depth 12
  Booked-confirm_rows tx now by_type (row ∷ rows) =
      Booked-then company _ _ (Booked-confirm_row tx now by_type row)
        (Booked-confirm_rows tx now by_type rows)

  Booked-apply_upload :
      (user id now : ℕ) (rows : List UploadRow)
      → Booked company (apply_upload e company user id now rows)
  unfolding apply_upload book_upload
  Booked-apply_upload user id now rows = search (booked, Booked-confirm_rows) depth 20

  pub confirm_upload-Booked :
      (id user now : ℕ) → Booked company (confirm_upload e company id user now)
  unfolding confirm_upload
  confirm_upload-Booked id user now = search (booked, Booked-apply_upload) depth 20
