-- ===== src/Workflow/Runs.antt =====
-- What holds after any list of calls of the outbound services.
use warehousehub.Base.{ℕ, List, [], ◌∷◌}
use warehousehub.Db.{Store, Engine, IsEngine, Result, ok, err, Post, settle}
use warehousehub.Ledger.{IsSoundStore}
use warehousehub.Ledger.Safe.{Safe, safe}
use warehousehub.Workflow.{
  Command, Call, perform, run, create_order, new_line, change_line, drop_line, drop_order,
  reserve_order, pick_by_hand, submit_pick, verify_pick, start_shipping, complete_shipping,
}
use warehousehub.Workflow.Safety.{
  create-Safe, add_line-Safe, update_line-Safe, cancel_line-Safe, cancel_order-Safe,
  reserve_for_order-Safe, manual_pick-Safe, submit-Safe, verify-Safe, start-Safe, complete-Safe,
}

settle-Post :
    {A : Type 0} (P : Store → Type 0) (s : Store) (r : Result A)
    → P s
    → Post (λ _ t. P t) r
    → P (settle s r)
settle-Post P s (ok a t) h k = k
settle-Post P s (err x) h k = h

module _ (e : Engine) (laws : IsEngine e) where
  pub perform-Safe : (company user now : ℕ) (c : Command) → Safe (perform e company user now c)
  unfolding perform
  perform-Safe company user now (create_order dto) = search (safe, create-Safe)
  perform-Safe company user now (new_line order item qty) = search (safe, add_line-Safe)
  perform-Safe company user now (change_line order line qty) =
      update_line-Safe e laws company now order line qty
  perform-Safe company user now (drop_line order line) =
      cancel_line-Safe e laws company now order line
  perform-Safe company user now (drop_order order reason) =
      cancel_order-Safe e laws company now order reason
  perform-Safe company user now (reserve_order order) = search (safe, reserve_for_order-Safe)
  perform-Safe company user now (pick_by_hand order dto) =
      manual_pick-Safe e laws company now order dto
  perform-Safe company user now (submit_pick order) = submit-Safe e laws company now user order
  perform-Safe company user now (verify_pick order) = verify-Safe e laws company now user order
  perform-Safe company user now (start_shipping order) = start-Safe e laws company now user order
  perform-Safe company user now (complete_shipping order) =
      complete-Safe e laws company now user order

  -- Whatever calls are made of the outbound services (orders, picking and shipping), and of no other,
  -- in whatever order, by whichever companies, and whether they return or throw: from a sound ledger they lead to a sound ledger, in which no stock row reserves more than
  -- it holds and at every key the reserved quantity is the sum of the open allocations.
  pub run-IsSound : (cs : List Call) (s : Store) → IsSoundStore s → IsSoundStore (run e cs s)
  unfolding run
  run-IsSound [] s v = v
  run-IsSound (c ∷ cs) s v =
      run-IsSound cs (settle s (perform e c.company c.user c.now c.command s)) (
        settle-Post IsSoundStore s (perform e c.company c.user c.now c.command s) v
          ((perform-Safe c.company c.user c.now c.command).apply s v))
