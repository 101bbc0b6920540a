-- ===== src/Operations/Runs.antt =====
-- What holds after any list of requests that take no goods out.
use Prim.Native.String.{String}
use warehousehub.Base.{ℕ, ◌≡◌, false, List, [], ◌∷◌, All}
use warehousehub.Db.{Store, Engine, IsEngine, Result, ok, err, Post, settle}
use warehousehub.Transfers.Rows.{IsShelved}
use warehousehub.Journal.{Books, Books-refl, Books-trans}
use warehousehub.Journal.Booked.{Booked, booked}
use warehousehub.Transfers.Booked.{confirm_transfer-Booked}
use warehousehub.Stocktaking.Journal.{confirm_stocktaking-Booked}
use warehousehub.Inbound.Confirmed.{confirm_upload-Booked}
use warehousehub.Returns.Booked.{process_receipt-Booked}
use warehousehub.Workflow.{
  Command, perform, create_order, new_line, change_line, drop_line, drop_order, reserve_order,
  pick_by_hand, submit_pick, verify_pick, start_shipping, complete_shipping,
}
use warehousehub.Operations.{
  Request, Served, ships, serve, serve_all, new_transfer, confirm_move, cancel_move, new_count,
  add_lots, enter_count, confirm_count, new_notice, cancel_notice, new_upload, confirm_inbound,
  cancel_inbound, new_return, change_return, cancel_return, decide_return, process_return, outbound,
}
use warehousehub.Operations.Documents.{
  create_transfer-Booked, cancel_transfer-Booked, create_stocktaking-Booked, add_count_lines-Booked,
  update_actual_qty-Booked, create_asn-Booked, cancel_asn-Booked, create_upload-Booked,
  cancel_upload-Booked, create_receipt-Booked, update_return-Booked, cancel_receipt-Booked,
  decide_receipt-Booked,
}
use warehousehub.Operations.Outbound.{reserve_for_order-Booked}
use warehousehub.Operations.OutboundCalls.{
  submit-Booked, verify-Booked, start-Booked, cancel_order-Booked, create-Booked, add_line-Booked,
  update_line-Booked, cancel_line-Booked, manual_pick-Booked,
}

module _ (e : Engine) (laws : IsEngine e) (trim : String → String) (company : ℕ) where
  perform-Booked :
      (user now : ℕ) (c : Command)
      → ships (outbound c) ≡ false
      → Booked company (perform e company user now c)
  unfolding perform
  perform-Booked user now (create_order dto) h = search (booked, create-Booked)
  perform-Booked user now (new_line order item qty) h = search (booked, add_line-Booked)
  perform-Booked user now (change_line order line qty) h =
      update_line-Booked e company order line now qty
  perform-Booked user now (drop_line order line) h = cancel_line-Booked e company order line now
  perform-Booked user now (drop_order order reason) h = cancel_order-Booked company order now reason
  perform-Booked user now (reserve_order order) h = search (booked, reserve_for_order-Booked)
  perform-Booked user now (pick_by_hand order dto) h = manual_pick-Booked e company order now dto
  perform-Booked user now (submit_pick order) h = submit-Booked company user order now
  perform-Booked user now (verify_pick order) h = verify-Booked company user order now
  perform-Booked user now (start_shipping order) h = start-Booked company user order now
  perform-Booked user now (complete_shipping order) h = absurd (cc)

  serve-Booked :
      (user now : ℕ) (r : Request)
      → ships r ≡ false
      → Booked company (serve e trim company user now r)
  unfolding serve
  serve-Booked user now (new_transfer dto) h = search (booked, create_transfer-Booked)
  serve-Booked user now (confirm_move id) h = confirm_transfer-Booked e laws company user id now
  serve-Booked user now (cancel_move id) h = cancel_transfer-Booked e company id
  serve-Booked user now (new_count warehouse memo) h = search (booked, create_stocktaking-Booked)
  serve-Booked user now (add_lots id lots) h = add_count_lines-Booked e company id lots
  serve-Booked user now (enter_count id line qty) h = update_actual_qty-Booked e company id line qty
  serve-Booked user now (confirm_count id) h = confirm_stocktaking-Booked e laws company id user now
  serve-Booked user now (new_notice dto) h = search (booked, create_asn-Booked)
  serve-Booked user now (cancel_notice id) h = cancel_asn-Booked e company id
  serve-Booked user now (new_upload file_name rows) h = search (booked, create_upload-Booked)
  serve-Booked user now (confirm_inbound id) h = confirm_upload-Booked e laws company id user now
  serve-Booked user now (cancel_inbound id) h = cancel_upload-Booked e company id
  serve-Booked user now (new_return dto) h = search (booked, create_receipt-Booked)
  serve-Booked user now (change_return id dto) h = update_return-Booked e company id dto
  serve-Booked user now (cancel_return id) h = cancel_receipt-Booked e company id
  serve-Booked user now (decide_return id ds) h = decide_receipt-Booked e company user id now ds
  serve-Booked user now (process_return id ls) h =
      process_receipt-Booked e laws company user id now ls
  serve-Booked user now (outbound c) h = perform-Booked user now c h

  settle-Books :
      {A : Type 0} (s : Store) (r : Result A)
      → IsShelved s.stocks
      → Post (λ _ t. Books company s t) r
      → Books company s (settle s r)
  settle-Books s (ok a t) v h = h
  settle-Books s (err x) v h = Books-refl company s v

  -- Whatever requests a company makes of the services for orders, picking, shipping, transfers,
  -- stocktaking, notices, uploads and returns, in whatever order, and whether they return or throw, as
  -- long as none completes a shipment, and with no other writes in between (a stock correction is not
  -- one of these requests): from unique stock rows they lead to unique stock rows, and for every
  -- warehouse and lot of the company the physical quantity has changed by exactly what the journal lines
  -- written on the way say.
  pub serve_all-Books :
      (cs : List Served) (s : Store)
      → IsShelved s.stocks
      → All (λ c. ships c.request ≡ false) cs
      → Books company s (serve_all e trim company cs s)
  unfolding serve_all
  serve_all-Books [] s v none_ships = Books-refl company s v
  serve_all-Books (c ∷ cs) s v none_ships =
      let t = settle s (serve e trim company c.user c.now c.request s) in
      let first : Books company s t =
        settle-Books s (serve e trim company c.user c.now c.request s) v
          ((serve-Booked c.user c.now c.request none_ships.0).apply s v) in
      Books-trans company s t (serve_all e trim company cs t) first
        (serve_all-Books cs t first.shelved none_ships.1)
