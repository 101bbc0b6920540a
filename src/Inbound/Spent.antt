-- ===== src/Inbound/Spent.antt =====
-- An upload that was confirmed or cancelled: it stays so, and cannot be claimed again.
use Prim.Native.String.{String}
use warehousehub.Base.{
  ℕ, ◌≡◌, refl, subst, ◌∙◌, Bool, true, false, some, List, [], ◌∷◌, ◌==◌, ◌&&◌, keep, length,
  find_by, find_by-All, update_many, Bool-cases, Option-cases, inl, inr, if◌then◌else◌, arith,
}
use warehousehub.Db.{
  Store, Upload, UploadRow, is_uploaded, Engine, IsEngine, err, Post, Post-mono, bad_request,
  already_processed, only_uploaded, invalid_rows, insert_upload, update_uploads,
}
use warehousehub.Frames.Invariants.{Keeps}
use warehousehub.Inbound.{
  invalid_count, find_upload, is_claimable, create_upload, confirm_upload, cancel_upload,
}
use warehousehub.Inbound.Exclusive.{
  claimed, confirmed_at, as_cancelled, find_by-update_many, none_left, claim_refused, apply_refused,
  apply_upload-claims,
}

abbrev is_upload : ℕ → ℕ → Upload → Bool
is_upload company id u = (u.id == id) && (u.company == company)

-- The upload with these rows is there, and is not open any more.
pub record IsSpent (company id : ℕ) (rows : List UploadRow) (l : List Upload) : Type 0 where
  pub none_open : keep (is_claimable company id) l ≡ []
  pub upload : Upload
  pub found : find_by (is_upload company id) l ≡ some upload
  pub same_rows : upload.rows ≡ rows

still_none :
    (p q : Upload → Bool) (f : Upload → Upload)
    → ((u : Upload) → p (f u) ≡ false)
    → (l : List Upload) → keep p l ≡ []
    → keep p (update_many q f l) ≡ []
still_none p q f h [] empty = refl
still_none p q f h (u ∷ l) empty = elim (Bool-cases (p u)) [
  | inl hit ↦ absurd (let no = rw (hit, keep) at empty in cc)
  | inr other ↦ elim (Bool-cases (q u)) [
    | inl chosen ↦ rw (chosen, h u) (still_none p q f h l (rw (other, keep) at empty))
    | inr left ↦ rw (left, other) (still_none p q f h l (rw (other, keep) at empty))
  ]
]

-- What a claim does to an upload.
record Closes (f : Upload → Upload) : Type 0 where
  closed : (u : Upload) → is_uploaded (f u).status ≡ false
  ids : (u : Upload) → (f u).id ≡ u.id
  companies : (u : Upload) → (f u).company ≡ u.company
  rows : (u : Upload) → (f u).rows ≡ u.rows

confirmed_at-Closes : (now : ℕ) → Closes (confirmed_at now)
confirmed_at-Closes now = record {
  closed = λ u. refl;
  ids = λ u. refl;
  companies = λ u. refl;
  rows = λ u. refl;
}

as_cancelled-Closes : Closes as_cancelled
as_cancelled-Closes = record {
  closed = λ u. refl;
  ids = λ u. refl;
  companies = λ u. refl;
  rows = λ u. refl;
}

rows_kept :
    (b : Bool) (f : Upload → Upload) (u : Upload)
    → (f u).rows ≡ u.rows
    → (if b then f u else u).rows ≡ u.rows
rows_kept true f u h = h
rows_kept false f u h = refl

module _ (company id : ℕ) where
  found_again :
      (f : Upload → Upload) (c : Closes f) (other : ℕ) (l : List Upload) {u : Upload}
      → find_by (is_upload company id) l ≡ some u
      → (v : Upload) × (find_by (is_upload company id) (claimed company other f l) ≡ some v)
        × (v.rows ≡ u.rows)
  found_again f c other l {u} found =
      let p = is_claimable company other in
      (
        if p u then f u else u,
        find_by-update_many (is_upload company id) p f (λ x. rw (c.ids x, c.companies x) refl) l
            found,
        rows_kept (p u) f u (c.rows u),
      )

  -- The claim of an upload leaves it spent.
  claim-IsSpent :
      (f : Upload → Upload) (c : Closes f) (l : List Upload) {u : Upload}
      → find_by (is_upload company id) l ≡ some u
      → IsSpent company id u.rows (claimed company id f l)
  claim-IsSpent f c l found =
      let (v, again, same) = found_again f c id l found in
      record {
        none_open = none_left company id f c.closed l;
        upload = v;
        found = again;
        same_rows = same;
      }

  -- The claim of this or another upload leaves a spent one spent.
  claim_other-IsSpent :
      (f : Upload → Upload) (c : Closes f) (other : ℕ) (rows : List UploadRow) (l : List Upload)
      → IsSpent company id rows l
      → IsSpent company id rows (claimed company other f l)
  claim_other-IsSpent f c other rows l h =
      let (v, again, same) = found_again f c other l h.found in
      record {
        none_open =
            still_none (is_claimable company id) (is_claimable company other) f
              (λ u. let g = c.closed u in ground arith) l h.none_open;
        upload = v;
        found = again;
        same_rows = same ∙ h.same_rows;
      }

module _ (e : Engine) (laws : IsEngine e) (company id : ℕ) (rows : List UploadRow) where
  -- A new upload has another identifier.
  pub create_upload-Spent :
      (user : ℕ) (file_name : String) (new : List UploadRow)
      → Keeps (λ s. IsSpent company id rows s.uploads) (create_upload e company user file_name new)
  unfolding create_upload insert_upload
  create_upload-Spent user file_name new = record {
    apply = λ s h.
        let fresh : (h.upload.id == e.new_id s) ≡ false =
          find_by-All (λ u. (u.id == e.new_id s) ≡ false) (is_upload company id) s.uploads h.found
            (laws.new_id-uploads s) in
        let ours : h.upload.id ≡ id = own_id s.uploads h.found in
        let other : (e.new_id s == id) ≡ false = apart h.upload.id (e.new_id s) id fresh ours in
        record {
          none_open = rw other h.none_open;
          upload = h.upload;
          found = rw other h.found;
          same_rows = h.same_rows;
        };
  }
    where
      own_id :
          (l : List Upload) {u : Upload} → find_by (is_upload company id) l ≡ some u → u.id ≡ id
      own_id [] found = absurd (cc)
      own_id (x ∷ l) {u} found = elim (Bool-cases (is_upload company id x)) [
        | inl hit ↦
            let same : x ≡ u = let h = rw (hit, find_by) at found in cc in
            subst (λ y. y.id ≡ id) same (ground arith)
        | inr miss ↦ own_id l (rw (miss, find_by) at found)
      ]

      apart : (a n i : ℕ) → (a == n) ≡ false → a ≡ i → (n == i) ≡ false
      apart a n i h k = ground arith

  pub confirm_upload-Spent :
      (other user now : ℕ)
      → Keeps (λ s. IsSpent company id rows s.uploads) (confirm_upload e company other user now)
  unfolding confirm_upload
  confirm_upload-Spent other user now = record {
    apply = λ s h. elim (Option-cases (find_upload company other s)) [
      | inl missing ↦ rw missing tt
      | inr (u, found) ↦ elim (Bool-cases (invalid_count u.rows == 0)) [
        | inr invalid ↦ rw (found, invalid) tt
        | inl valid ↦
            rw (found, valid)
              (Post-mono (λ _ t. t.uploads ≡ claimed company other (confirmed_at now) s.uploads) _ _
                (λ _ t same. rw same (
                  claim_other-IsSpent company id (confirmed_at now) (confirmed_at-Closes now) other
                    rows s.uploads h))
                (apply_upload-claims e company other user now u.rows s))
      ]
    ];
  }

  pub cancel_upload-Spent :
      (other : ℕ) → Keeps (λ s. IsSpent company id rows s.uploads) (cancel_upload company other)
  unfolding cancel_upload update_uploads
  cancel_upload-Spent other = record {
    apply = λ s h. elim (Bool-cases (length (keep (is_claimable company other) s.uploads) == 1)) [
      | inr not_one ↦ rw not_one tt
      | inl one ↦
          rw one
            (claim_other-IsSpent company id as_cancelled as_cancelled-Closes other rows s.uploads h)
    ];
  }

-- What the services answer about an upload that is spent.
module _ (e : Engine) (company id : ℕ) where
  pub confirm_upload_again :
      (rows : List UploadRow) (user now : ℕ) (s : Store)
      → IsSpent company id rows s.uploads
      → confirm_upload e company id user now s
        ≡ err (bad_request (if invalid_count rows == 0 then already_processed else invalid_rows))
  unfolding confirm_upload
  confirm_upload_again rows user now s h = elim (Bool-cases (invalid_count rows == 0)) [
    | inl valid ↦
        rw (h.found, h.same_rows, valid) (apply_refused e company id user now rows s h.none_open)
    | inr invalid ↦ rw (h.found, h.same_rows, invalid) refl
  ]

  pub cancel_upload_again :
      (rows : List UploadRow) (s : Store)
      → IsSpent company id rows s.uploads
      → cancel_upload company id s ≡ err (bad_request only_uploaded)
  cancel_upload_again rows s h = claim_refused e company id s h.none_open

  -- A confirmation that returns leaves the upload spent, and all its rows are valid.
  pub confirm_upload-spends :
      (user now : ℕ) (s : Store)
      → Post
          (λ _ t.
            (rows : List UploadRow) × IsSpent company id rows t.uploads
            × ((invalid_count rows == 0) ≡ true))
          (confirm_upload e company id user now s)
  unfolding confirm_upload
  confirm_upload-spends user now s = elim (Option-cases (find_upload company id s)) [
    | inl missing ↦ rw missing tt
    | inr (u, found) ↦ elim (Bool-cases (invalid_count u.rows == 0)) [
      | inr invalid ↦ rw (found, invalid) tt
      | inl valid ↦
          rw (found, valid)
            (Post-mono (λ _ t. t.uploads ≡ claimed company id (confirmed_at now) s.uploads) _ _
              (λ _ t same. (
                u.rows,
                rw same (
                    claim-IsSpent company id (confirmed_at now) (confirmed_at-Closes now) s.uploads
                      found),
                valid,
              ))
              (apply_upload-claims e company id user now u.rows s))
    ]
  ]

  pub cancel_upload-spends :
      (s : Store)
      → Post
          (λ _ t. (rows : List UploadRow) × IsSpent company id rows t.uploads)
          (cancel_upload company id s)
  unfolding cancel_upload update_uploads
  cancel_upload-spends s =
      elim (Bool-cases (length (keep (is_claimable company id) s.uploads) == 1)) [
        | inr not_one ↦ rw not_one tt
        | inl one ↦
            let (u, found) = some_found s.uploads one in
            rw one
              (u.rows, claim-IsSpent company id as_cancelled as_cancelled-Closes s.uploads found)
      ]
    where
      some_found :
          (l : List Upload)
          → (length (keep (is_claimable company id) l) == 1) ≡ true
          → (u : Upload) × (find_by (is_upload company id) l ≡ some u)
      some_found [] h = absurd (cc)
      some_found (x ∷ l) h = elim (Bool-cases (is_upload company id x)) [
        | inl hit ↦ (x, rw hit refl)
        | inr miss ↦
            let shut : is_claimable company id x ≡ false = ground arith in
            let (u, found) = some_found l (rw (shut, keep) at h) in (u, rw miss found)
      ]
