-- ===== src/Workflow/Final/Runs.antt =====
-- A delivered or cancelled order keeps its status, whatever the outbound services are asked.
use warehousehub.Base.{ℕ, ◌≡◌, true, List, [], ◌∷◌}
use warehousehub.Db.{Store, OutboundStatus, Engine, IsEngine, Result, ok, err, Post, settle}
use warehousehub.Frames.Invariants.{Keeps, invariants}
use warehousehub.Workflow.{
  Command, Call, perform, run, create_order, new_line, change_line, drop_line, drop_order,
  reserve_order, pick_by_hand, submit_pick, verify_pick, start_shipping, complete_shipping,
}
use warehousehub.Workflow.Final.{RestsIn, is_final}
use warehousehub.Workflow.Final.Calls.{
  verify-Rests, start-Rests, submit-Rests, complete-Rests, cancel_order-Rests,
  reserve_for_order-Rests, manual_pick-Rests,
}
use warehousehub.Workflow.Final.Edits.{
  create-Rests, add_line-Rests, update_line-Rests, cancel_line-Rests,
}

module _ (e : Engine) (laws : IsEngine e) (id : ℕ) (status : OutboundStatus)
    (final : is_final status ≡ true) where
  perform-Rests :
      (company user now : ℕ) (c : Command)
      → Keeps (RestsIn id status) (perform e company user now c)
  unfolding perform
  perform-Rests company user now (create_order dto) =
      let made = create-Rests id status final e laws company now user dto in search (invariants)
  perform-Rests company user now (new_line order item qty) =
      let made = add_line-Rests id status final e company now order item qty in search (invariants)
  perform-Rests company user now (change_line order line qty) =
      update_line-Rests id status final e company now order line qty
  perform-Rests company user now (drop_line order line) =
      cancel_line-Rests id status final e company now order line
  perform-Rests company user now (drop_order order reason) =
      cancel_order-Rests id status final company now order reason
  perform-Rests company user now (reserve_order order) =
      let reserved = reserve_for_order-Rests id status final company now e order in
      search (invariants)
  perform-Rests company user now (pick_by_hand order dto) =
      manual_pick-Rests id status final company now e order dto
  perform-Rests company user now (submit_pick order) =
      submit-Rests id status final company now user order
  perform-Rests company user now (verify_pick order) =
      verify-Rests id status final company now user order
  perform-Rests company user now (start_shipping order) =
      start-Rests id status final company now user order
  perform-Rests company user now (complete_shipping order) =
      complete-Rests id status final company now e user order

  settle-Rests :
      {A : Type 0} (s : Store) (r : Result A)
      → RestsIn id status s
      → Post (λ _ t. RestsIn id status t) r
      → RestsIn id status (settle s r)
  settle-Rests s (ok a t) v h = h
  settle-Rests s (err x) v h = v

  -- A delivered or cancelled order is there, in the same status, after whatever calls are made of the
  -- outbound services, in whatever order and by whichever companies, if order identifiers are unique;
  -- they stay unique.
  pub run-Rests :
      (cs : List Call) (s : Store) → RestsIn id status s → RestsIn id status (run e cs s)
  unfolding run
  run-Rests [] s v = v
  run-Rests (c ∷ cs) s v =
      let r = perform e c.company c.user c.now c.command s in
      run-Rests cs (settle s r)
        (settle-Rests s r v ((perform-Rests c.company c.user c.now c.command).apply s v))
