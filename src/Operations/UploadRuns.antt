-- ===== src/Operations/UploadRuns.antt =====
-- What becomes of an upload that was confirmed or cancelled, in any list of requests about uploads.
use Prim.Native.String.{String}
use warehousehub.Base.{ℕ, ◌≡◌, Bool, true, false, ◌==◌, List, [], ◌∷◌, All, refl}
use warehousehub.Db.{
  Store, UploadRow, Engine, IsEngine, Error, Result, ok, err, Post, Post-mono, settle, bad_request,
  already_processed, only_uploaded,
}
use warehousehub.Frames.Invariants.{Keeps, invariants}
use warehousehub.Inbound.{invalid_count, confirm_upload, cancel_upload}
use warehousehub.Inbound.Spent.{
  IsSpent, create_upload-Spent, confirm_upload-Spent, cancel_upload-Spent, confirm_upload_again,
  cancel_upload_again, confirm_upload-spends, cancel_upload-spends,
}
use warehousehub.Operations.{
  Request, Served, serve, serve_all, new_transfer, confirm_move, cancel_move, new_count, add_lots,
  enter_count, confirm_count, new_notice, cancel_notice, new_upload, confirm_inbound,
  cancel_inbound, new_return, change_return, cancel_return, decide_return, process_return, outbound,
}

-- The requests to the uploads service.
abbrev pub is_inbound : Request → Bool
is_inbound (new_upload file_name rows) = true
is_inbound (confirm_inbound id) = true
is_inbound (cancel_inbound id) = true
is_inbound _ = false

module _ (e : Engine) (laws : IsEngine e) (trim : String → String) (company id : ℕ) where
  serve-Spent :
      (rows : List UploadRow) (user now : ℕ) (r : Request)
      → is_inbound r ≡ true
      → Keeps (λ s. IsSpent company id rows s.uploads) (serve e trim company user now r)
  unfolding serve
  serve-Spent rows user now (new_upload file_name new) h =
      search (invariants, create_upload-Spent e laws company id rows)
  serve-Spent rows user now (confirm_inbound other) h =
      confirm_upload-Spent e laws company id rows other user now
  serve-Spent rows user now (cancel_inbound other) h =
      cancel_upload-Spent e laws company id rows other
  serve-Spent rows user now (new_transfer dto) h = absurd (cc)
  serve-Spent rows user now (confirm_move other) h = absurd (cc)
  serve-Spent rows user now (cancel_move other) h = absurd (cc)
  serve-Spent rows user now (new_count warehouse memo) h = absurd (cc)
  serve-Spent rows user now (add_lots other lots) h = absurd (cc)
  serve-Spent rows user now (enter_count other line qty) h = absurd (cc)
  serve-Spent rows user now (confirm_count other) h = absurd (cc)
  serve-Spent rows user now (new_notice dto) h = absurd (cc)
  serve-Spent rows user now (cancel_notice other) h = absurd (cc)
  serve-Spent rows user now (new_return dto) h = absurd (cc)
  serve-Spent rows user now (change_return other dto) h = absurd (cc)
  serve-Spent rows user now (cancel_return other) h = absurd (cc)
  serve-Spent rows user now (decide_return other ds) h = absurd (cc)
  serve-Spent rows user now (process_return other ls) h = absurd (cc)
  serve-Spent rows user now (outbound c) h = absurd (cc)

  settle-Spent :
      {A : Type 0} (rows : List UploadRow) (s : Store) (r : Result A)
      → IsSpent company id rows s.uploads
      → Post (λ _ t. IsSpent company id rows t.uploads) r
      → IsSpent company id rows (settle s r).uploads
  settle-Spent rows s (ok a t) v h = h
  settle-Spent rows s (err x) v h = v

  serve_all-Spent :
      (rows : List UploadRow) (cs : List Served) (s : Store)
      → All (λ c. is_inbound c.request ≡ true) cs
      → IsSpent company id rows s.uploads
      → IsSpent company id rows (serve_all e trim company cs s).uploads
  unfolding serve_all
  serve_all-Spent rows [] s inbound v = v
  serve_all-Spent rows (c ∷ cs) s inbound v =
      let r = serve e trim company c.user c.now c.request s in
      serve_all-Spent rows cs (settle s r) inbound.1
        (settle-Spent rows s r v ((serve-Spent rows c.user c.now c.request inbound.0).apply s v))

  -- Once a confirmation of an upload has returned, then after any list of requests of the same company
  -- to the uploads service, whichever they are and whether they return or throw, a confirmation of
  -- the upload by the company is refused as already processed, whichever user asks and whenever, and a
  -- cancellation because the upload is not open any more.
  pub confirm_upload_once :
      (user now user' later : ℕ) (cs : List Served) (s : Store)
      → All (λ c. is_inbound c.request ≡ true) cs
      → Post
          (λ _ t.
            let u = serve_all e trim company cs t in
            (confirm_upload e company id user' later u ≡ err (bad_request already_processed))
            × (cancel_upload company id u ≡ err (bad_request only_uploaded)))
          (confirm_upload e company id user now s)
  confirm_upload_once user now user' later cs s inbound =
      Post-mono
        (λ _ t.
          (rows : List UploadRow) × IsSpent company id rows t.uploads
          × ((invalid_count rows == 0) ≡ true))
        _ (confirm_upload e company id user now s)
        (λ _ t h.
          let u = serve_all e trim company cs t in
          let spent = serve_all-Spent h.0 cs t inbound h.1 in
          (
            rw (confirm_upload_again e company id h.0 user' later u spent, h.2) refl,
            cancel_upload_again e company id h.0 u spent,
          ))
        (confirm_upload-spends e company id user now s)

  -- Once a cancellation of an upload has returned, then after any list of requests of the same company
  -- to the uploads service, whichever they are and whether they return or throw, a confirmation of
  -- the upload by the company throws, whichever user asks and whenever, and a cancellation is refused
  -- because the upload is not open any more.
  pub cancel_upload_final :
      (user later : ℕ) (cs : List Served) (s : Store)
      → All (λ c. is_inbound c.request ≡ true) cs
      → Post
          (λ _ t.
            let u = serve_all e trim company cs t in
            ((x : Error) × (confirm_upload e company id user later u ≡ err x))
            × (cancel_upload company id u ≡ err (bad_request only_uploaded)))
          (cancel_upload company id s)
  cancel_upload_final user later cs s inbound =
      Post-mono _ _ (cancel_upload company id s)
        (λ _ t h.
          let u = serve_all e trim company cs t in
          let spent = serve_all-Spent h.0 cs t inbound h.1 in
          (
            (_, confirm_upload_again e company id h.0 user later u spent),
            cancel_upload_again e company id h.0 u spent,
          ))
        (cancel_upload-spends e company id s)
