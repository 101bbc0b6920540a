-- ===== src/Operations/ReturnRuns.antt =====
-- What holds after any list of requests to the returns service.
use Prim.Native.String.{String}
use warehousehub.Base.{ℕ, ◌≡◌, true, List, [], ◌∷◌, All}
use warehousehub.Db.{Store, Engine, IsEngine, Result, ok, err, Post, settle}
use warehousehub.Frames.Invariants.{Keeps, invariants}
use warehousehub.Returns.Settled.Rows.{IsSettledStore}
use warehousehub.Returns.Settled.Kept.{create_receipt-Settled, update_return-Settled}
use warehousehub.Returns.Settled.Processed.{
  cancel_receipt-Settled, decide_receipt-Settled, process_receipt-Settled,
}
use warehousehub.Operations.{
  Request, Served, is_return, serve, serve_all, new_transfer, confirm_move, cancel_move, new_count,
  add_lots, enter_count, confirm_count, new_notice, cancel_notice, new_upload, confirm_inbound,
  cancel_inbound, new_return, change_return, cancel_return, decide_return, process_return, outbound,
}

module _ (e : Engine) (laws : IsEngine e) (trim : String → String) (company : ℕ) where
  serve-Settled :
      (user now : ℕ) (r : Request)
      → is_return r ≡ true
      → Keeps IsSettledStore (serve e trim company user now r)
  unfolding serve
  serve-Settled user now (new_return dto) h = search (invariants, create_receipt-Settled)
  serve-Settled user now (change_return id dto) h = update_return-Settled e laws company id dto
  serve-Settled user now (cancel_return id) h = cancel_receipt-Settled e laws company id
  serve-Settled user now (decide_return id ds) h =
      decide_receipt-Settled e laws company user id now ds
  serve-Settled user now (process_return id ls) h =
      process_receipt-Settled e laws company user id now ls
  serve-Settled user now (new_transfer dto) h = absurd (cc)
  serve-Settled user now (confirm_move id) h = absurd (cc)
  serve-Settled user now (cancel_move id) h = absurd (cc)
  serve-Settled user now (new_count warehouse memo) h = absurd (cc)
  serve-Settled user now (add_lots id lots) h = absurd (cc)
  serve-Settled user now (enter_count id line qty) h = absurd (cc)
  serve-Settled user now (confirm_count id) h = absurd (cc)
  serve-Settled user now (new_notice dto) h = absurd (cc)
  serve-Settled user now (cancel_notice id) h = absurd (cc)
  serve-Settled user now (new_upload file_name rows) h = absurd (cc)
  serve-Settled user now (confirm_inbound id) h = absurd (cc)
  serve-Settled user now (cancel_inbound id) h = absurd (cc)
  serve-Settled user now (outbound c) h = absurd (cc)

  settle-Settled :
      {A : Type 0} (s : Store) (r : Result A)
      → IsSettledStore s
      → Post (λ _ t. IsSettledStore t) r
      → IsSettledStore (settle s r)
  settle-Settled s (ok a t) v h = h
  settle-Settled s (err x) v h = v

  -- Whatever requests are made of the returns service, in whatever order, and whether they return or
  -- throw: if receipt identifiers are unique and every line of a completed receipt is processed, this is
  -- so afterwards, though lines are added, changed and deleted on the way.
  pub serve_all-Settled :
      (cs : List Served) (s : Store)
      → IsSettledStore s
      → All (λ c. is_return c.request ≡ true) cs
      → IsSettledStore (serve_all e trim company cs s)
  unfolding serve_all
  serve_all-Settled [] s v returns = v
  serve_all-Settled (c ∷ cs) s v returns =
      let r = serve e trim company c.user c.now c.request s in
      serve_all-Settled cs (settle s r)
        (settle-Settled s r v ((serve-Settled c.user c.now c.request returns.0).apply s v))
        returns.1
