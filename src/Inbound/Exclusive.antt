-- ===== src/Inbound/Exclusive.antt =====
-- The claim of an upload by `updateMany`: what it does to the uploads, and what a second claim meets.
use warehousehub.Base.{
  ℕ, ◌≡◌, refl, ap, ◌∙◌, Bool, true, false, Option, none, some, List, [], ◌∷◌, ◌==◌, not, keep,
  find_by, update_many, Bool-cases, inl, inr, if◌then◌else◌, arith,
}
use warehousehub.Db.{
  Store, Item, Lot, Upload, UploadRow, UploadStatus, is_uploaded, Engine, err, throw_if, ◌>>◌, Post,
  Post-bind, Post-mono, bad_request, already_processed, only_uploaded, update_uploads,
}
use warehousehub.Frames.Statements.{statements}
use warehousehub.Frames.{Leaves, frames, Leaves-then}
use warehousehub.Lots.{TypeEntry, create_lot, get_or_create_lot}
use warehousehub.Inbound.{
  write_item, upsert_item, lot_for_row, confirm_row, confirm_rows, is_claimable, book_upload,
  apply_upload, cancel_upload,
}

abbrev pub uploads_of : Store → List Upload
uploads_of s = s.uploads

module _ (e : Engine) (company now : ℕ) where
  create_lot-Leaves :
      (item : ℕ) (expiry : Option ℕ) (o : Option Lot)
      → Leaves uploads_of (create_lot e company item expiry now o)
  unfolding create_lot
  create_lot-Leaves item expiry none = search (frames, statements) depth 12
  create_lot-Leaves item expiry (some l) = search (frames) depth 12

  lot_for_row-Leaves :
      (item : ℕ) (expiry : Option ℕ) → Leaves uploads_of (lot_for_row e company item now expiry)
  unfolding lot_for_row get_or_create_lot
  lot_for_row-Leaves item none = search (frames, create_lot-Leaves) depth 12
  lot_for_row-Leaves item (some t) = search (frames, create_lot-Leaves) depth 12

  write_item-Leaves :
      (row : UploadRow) (o : Option Item) → Leaves uploads_of (write_item e company row o)
  unfolding write_item
  write_item-Leaves row none = search (frames, statements) depth 12
  write_item-Leaves row (some i) = search (frames, statements) depth 12

  confirm_row-Leaves :
      (tx : ℕ) (by_type : List TypeEntry) (row : UploadRow)
      → Leaves uploads_of (confirm_row e company tx by_type now row)
  unfolding confirm_row upsert_item
  confirm_row-Leaves tx by_type row =
      search (frames, statements, write_item-Leaves, lot_for_row-Leaves) depth 20 fits 20000

  pub confirm_rows-Leaves :
      (tx : ℕ) (by_type : List TypeEntry) (rows : List UploadRow)
      → Leaves uploads_of (confirm_rows e company tx by_type now rows)
  unfolding confirm_rows
  confirm_rows-Leaves tx by_type [] = search (frames) depth 12
  confirm_rows-Leaves tx by_type (row ∷ rows) =
      Leaves-then uploads_of _ _ (confirm_row-Leaves tx by_type row)
        (confirm_rows-Leaves tx by_type rows)

module _ {A : Type 0} where
  pub keep-update_many :
      (p : A → Bool) (f : A → A)
      → ((x : A) → p x ≡ true → p (f x) ≡ false)
      → (l : List A) → keep p (update_many p f l) ≡ []
  keep-update_many p f h [] = refl
  keep-update_many p f h (x ∷ xs) = elim (Bool-cases (p x)) [
    | inl hit ↦ rw (hit, h x hit) (keep-update_many p f h xs)
    | inr other ↦ rw (other, other) (keep-update_many p f h xs)
  ]

  chosen : (q p : A → Bool) (f : A → A) (x : A) → q (f x) ≡ q x → q (if p x then f x else x) ≡ q x
  chosen q p f x h = elim (Bool-cases (p x)) [ inl hit ↦ rw hit h | inr other ↦ rw other refl ]

  found_head :
      (b : Bool) (x : A) (o : Option A) {r : A}
      → b ≡ true
      → (if b then some x else o) ≡ some r
      → x ≡ r
  found_head true x o hit found = cc
  found_head false x o hit found = absurd (cc)

  pub find_by-update_many :
      (q p : A → Bool) (f : A → A)
      → ((x : A) → q (f x) ≡ q x)
      → (l : List A) {r : A} → find_by q l ≡ some r
      → find_by q (update_many p f l) ≡ some (if p r then f r else r)
  find_by-update_many q p f h [] found = absurd (cc)
  find_by-update_many q p f h (x ∷ xs) {r} found = elim (Bool-cases (q x)) [
    | inl hit ↦
        rw (chosen q p f x (h x), hit)
          (ap (λ y. some (if p y then f y else y)) (found_head (q x) x (find_by q xs) hit found))
    | inr other ↦
        rw (chosen q p f x (h x), other)
          (find_by-update_many q p f h xs (rw (other, find_by) at found))
  ]

abbrev pub claimed : ℕ → ℕ → (Upload → Upload) → List Upload → List Upload
claimed company id f l = update_many (is_claimable company id) f l

abbrev pub confirmed_at : ℕ → Upload → Upload
confirmed_at now u = record u { status = UploadStatus.confirmed; confirmed_at = some now }

abbrev pub as_cancelled : Upload → Upload
as_cancelled u = record u { status = UploadStatus.cancelled }

pub none_left :
    (company id : ℕ) (f : Upload → Upload)
    → ((u : Upload) → is_uploaded (f u).status ≡ false)
    → (l : List Upload) → keep (is_claimable company id) (claimed company id f l) ≡ []
none_left company id f h l =
    keep-update_many (is_claimable company id) f (λ u _. let g = h u in ground arith) l

module _ (e : Engine) (company id : ℕ) where
  -- What a second claim meets.
  pub claim_refused :
      (s : Store)
      → keep (is_claimable company id) s.uploads ≡ []
      → cancel_upload company id s ≡ err (bad_request only_uploaded)
  unfolding cancel_upload update_uploads
  claim_refused s h = rw h refl

  pub apply_refused :
      (user now : ℕ) (rows : List UploadRow) (s : Store)
      → keep (is_claimable company id) s.uploads ≡ []
      → apply_upload e company user id now rows s ≡ err (bad_request already_processed)
  unfolding apply_upload update_uploads
  apply_refused user now rows s h = rw h refl

  booked_rows :
      (user now : ℕ) (rows : List UploadRow) (n : ℕ)
      → Leaves uploads_of (
          throw_if (not (n == 1)) (bad_request already_processed)
          >> book_upload e company user id now rows)
  unfolding book_upload
  booked_rows user now rows n =
      search (frames, statements, confirm_rows-Leaves e company now) depth 20

  pub apply_upload-claims :
      (user now : ℕ) (rows : List UploadRow) (s : Store)
      → Post
          (λ _ t. t.uploads ≡ claimed company id (confirmed_at now) s.uploads)
          (apply_upload e company user id now rows s)
  unfolding apply_upload update_uploads
  apply_upload-claims user now rows s =
      Post-bind (λ _ t. t.uploads ≡ claimed company id (confirmed_at now) s.uploads)
        (λ _ t. t.uploads ≡ claimed company id (confirmed_at now) s.uploads)
        (update_uploads (is_claimable company id) (confirmed_at now)) _ s refl
        (λ n t _ h.
          Post-mono (λ _ u. u.uploads ≡ t.uploads)
            (λ _ u. u.uploads ≡ claimed company id (confirmed_at now) s.uploads) _
            (λ _ u same. same ∙ h) ((booked_rows user now rows n).apply t))
