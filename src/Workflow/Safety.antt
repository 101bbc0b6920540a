-- ===== src/Workflow/Safety.antt =====
-- Every call of the outbound services keeps the ledger of reservations sound.
use Prim.Native.String.{String}
use warehousehub.Base.{
  ℕ, ◌≡◌, unique, ◌==◌, ◌⊎◌, Bool, true, false, ℤ, pos, ◌≤ℤ◌, ◌<ℤ◌, ltb_ℤ, leb_ℤ, ltb, length,
  if◌then◌else◌, Option, List, [], ◌∷◌, arith, Bool-cases, inl, inr,
}
use warehousehub.Db.{
  Store, Line, is_cancelled, pure, throw_if, gets, insert_line, invalid_item,
  picked_exceeds_requested, update_line_row, throw, bad_request, already_reserved, ◌>>=◌,
  OutboundStatus, Engine, IsEngine, Post, Post-mono, Returns-mono, Returns-Post,
}
use warehousehub.Ledger.{IsSoundStore, held_for_line}
use warehousehub.Ledger.Safe.{
  Safe, safe, Safe-pure, Safe-if, Safe-bind, Safe-then, Safe-throw_if, Safe-update_line_row,
  Safe-gets, Safe-insert_line,
}
use warehousehub.Picking.Reserve.{
  reserve_additional_for_line, reserve_lines, release_before_reserve, reserve_for_order,
}
use warehousehub.Picking.Reserve.PerLine.{ReservesLine, reserve_additional_for_line-ReservesLine}
use warehousehub.Picking.Release.{open_for_order, release_qty_for_line, release_all_for_order}
use warehousehub.Picking.Release.PerLine.{
  ReleasesLine, releases_exactly, release_qty_for_line_refused,
}
use warehousehub.Picking.Release.PerOrder.{release_all_for_order-ReleasesOrder}
use warehousehub.Picking.Submit.{Sums, sum_for, submit_lines, submit}
use warehousehub.Picking.Manual.{ManualPick, reset_picked, manual_pick}
use warehousehub.Picking.Manual.Safety.{reserve_manually-Safe}
use warehousehub.Orders.{
  ensure_items_belong, roll_back, ensure_editable_and_rollback, NewLine, NewOrder, line_row,
  insert_lines, write_order, create, add_line, adjust_reservation, update_line, cancel_line_row,
  cancel_line, cancel_order,
}
use warehousehub.Shipping.{verify, start, commit_order, ship_lines, complete}
use warehousehub.Shipping.Commit.{commit_order-Commits}

order_of : (x y : ℤ) → (y <ℤ x) ⊎ (x ≤ℤ y)
order_of x y = elim (Bool-cases (ltb_ℤ y x)) [
  | inl e ↦ inl (ground arith)
  | inr e ↦ inr (ground arith)
]

above : (x : ℤ) → leb_ℤ x (pos 0) ≡ false → pos 0 ≤ℤ x
above x h = ground arith

module _ (e : Engine) (laws : IsEngine e) (company : ℕ) (now : ℕ) where
  pub reserve_additional_for_line-Safe :
      (line item : ℕ) (add : ℤ) → Safe (reserve_additional_for_line e company line item now add)
  reserve_additional_for_line-Safe line item add = record {
    apply = λ s v.
        Returns-Post (λ _ t. IsSoundStore t) _
          (Returns-mono (λ r t. ReservesLine company line s add r t) (λ _ t. IsSoundStore t) _
            (λ _ _ r. r.sound)
            (reserve_additional_for_line-ReservesLine e laws company line item now add s v));
  }

  no_release-Safe :
      (line : ℕ) (qty : ℤ)
      → leb_ℤ qty (pos 0) ≡ true
      → Safe (release_qty_for_line e company line now qty)
  unfolding release_qty_for_line
  no_release-Safe line qty h = rw h (Safe-pure tt)

  pub release_qty_for_line-Safe :
      (line : ℕ) (qty : ℤ) → Safe (release_qty_for_line e company line now qty)
  release_qty_for_line-Safe line qty = elim (Bool-cases (leb_ℤ qty (pos 0))) [
    | inl none_left ↦ no_release-Safe line qty none_left
    | inr some_left ↦ record {
      apply = λ s v. elim (order_of qty (held_for_line company line s.allocations)) [
        | inl more ↦ rw (release_qty_for_line_refused e laws company line now qty s v more) tt
        | inr within ↦
            Returns-Post (λ _ t. IsSoundStore t) _
              (Returns-mono (λ _ t. ReleasesLine company line s qty t) (λ _ t. IsSoundStore t) _
                (λ _ _ r. r.sound)
                (releases_exactly e laws company line now qty s v (above qty some_left) within))
      ];
    }
  ]

  pub release_all_for_order-Safe : (order : ℕ) → Safe (release_all_for_order company order now)
  release_all_for_order-Safe order = record {
    apply = λ s v.
        Returns-Post (λ _ t. IsSoundStore t) _
          (Returns-mono _ (λ _ t. IsSoundStore t) _ (λ _ _ r. r.1.sound)
            (release_all_for_order-ReleasesOrder company order now s v));
  }

  pub reserve_lines-Safe : (ls : List Line) → Safe (reserve_lines e company now ls)
  unfolding reserve_lines
  reserve_lines-Safe [] = search safe
  reserve_lines-Safe (l ∷ ls) =
      Safe-if (is_cancelled l.status) (reserve_lines e company now ls) _ (reserve_lines-Safe ls) (
        Safe-if (leb_ℤ l.requested (pos 0)) (reserve_lines e company now ls) _
          (reserve_lines-Safe ls)
          (Safe-bind (reserve_additional_for_line e company l.id l.item now l.requested) _
            (reserve_additional_for_line-Safe l.id l.item l.requested)
            (λ r.
              Safe-bind (reserve_lines e company now ls) _ (reserve_lines-Safe ls)
                (λ more. Safe-pure _))))

  pub release_before_reserve-Safe :
      (order : ℕ) (force : Bool) → Safe (release_before_reserve company order now force)
  unfolding release_before_reserve
  release_before_reserve-Safe order force = record {
    apply = λ s v. elim (Bool-cases (ltb 0 (length (open_for_order company order s)))) [
      | inl found ↦ rw found (forced force s v)
      | inr empty ↦ rw empty v
    ];
  }
    where
      forced :
          (force : Bool) (s : Store)
          → IsSoundStore s
          → Post
              (λ _ t. IsSoundStore t)
              (if force
                then (release_all_for_order company order now >>= λ _. pure tt) s
                else throw (bad_request already_reserved) s)
      forced false s v = tt
      forced true s v =
          (Safe-bind (release_all_for_order company order now) _ (release_all_for_order-Safe order)
              (λ _. Safe-pure tt)).apply
            s v

  pub reserve_for_order-Safe :
      (order : ℕ) (allow : List OutboundStatus) (force : Bool)
      → Safe (reserve_for_order e company order now allow force)
  unfolding reserve_for_order
  reserve_for_order-Safe order allow force =
      search (safe, reserve_lines-Safe, release_before_reserve-Safe) depth 16

  pub submit_lines-Safe : (m : Sums) (ls : List Line) → Safe (submit_lines m ls)
  unfolding submit_lines
  submit_lines-Safe m [] = Safe-pure tt
  submit_lines-Safe m (l ∷ ls) =
      Safe-if (is_cancelled l.status) (submit_lines m ls) _ (submit_lines-Safe m ls) (
        Safe-then
          (throw_if (ltb_ℤ l.requested (sum_for l.id m)) (bad_request picked_exceeds_requested)) _
          (Safe-throw_if _ _)
          (Safe-then (update_line_row l.id (λ r. record r { picked = sum_for l.id m })) _
            (Safe-update_line_row _ _) (submit_lines-Safe m ls)))

  pub submit-Safe : (user order : ℕ) → Safe (submit company user order now)
  unfolding submit
  submit-Safe user order = search (safe, submit_lines-Safe) depth 20

  pub reset_picked-Safe : (order : ℕ) (status : OutboundStatus) → Safe (reset_picked order status)
  unfolding reset_picked
  reset_picked-Safe order status = search safe

  pub manual_pick-Safe : (order : ℕ) (dto : ManualPick) → Safe (manual_pick e company order dto now)
  unfolding manual_pick
  manual_pick-Safe order dto =
      search (safe, reserve_manually-Safe e laws, reset_picked-Safe) depth 20

  pub roll_back-Safe : (order : ℕ) → Safe (roll_back order)
  unfolding roll_back
  roll_back-Safe order = search safe

  pub ensure_editable_and_rollback-Safe :
      (order : ℕ) (status : OutboundStatus) → Safe (ensure_editable_and_rollback order status)
  unfolding ensure_editable_and_rollback
  ensure_editable_and_rollback-Safe order status = search (safe, roll_back-Safe) depth 20

  pub ensure_items_belong-Safe : (ids : List ℕ) → Safe (ensure_items_belong company ids)
  unfolding ensure_items_belong
  ensure_items_belong-Safe ids = record {
    apply = λ s v. elim (Bool-cases (length (unique ids) == 0)) [
      | inl empty ↦ rw empty v
      | inr some_ids ↦ rw some_ids ((Safe-throw_if _ (bad_request invalid_item)).apply s v)
    ];
  }

  pub insert_lines-Safe : (order : ℕ) (ls : List NewLine) → Safe (insert_lines e order ls)
  unfolding insert_lines
  insert_lines-Safe order [] = Safe-pure tt
  insert_lines-Safe order (l ∷ ls) = Safe-bind (gets e.new_id) _ (Safe-gets e.new_id) (λ id.
      Safe-then (insert_line (line_row id order l)) _ (Safe-insert_line _)
        (insert_lines-Safe order ls))

  pub create-Safe : (user : ℕ) (dto : NewOrder) → Safe (create e company user dto now)
  unfolding create write_order
  create-Safe user dto =
      search (safe, ensure_items_belong-Safe, insert_lines-Safe, reserve_for_order-Safe) depth 20

  pub add_line-Safe :
      (order item : ℕ) (requested : ℤ) → Safe (add_line e company order item requested now)
  unfolding add_line
  add_line-Safe order item requested =
      search
        (
          safe, ensure_items_belong-Safe, ensure_editable_and_rollback-Safe,
          reserve_additional_for_line-Safe,
        )
        depth 20

  pub adjust_reservation-Safe :
      (l : Line) (diff : ℤ) → Safe (adjust_reservation e company l diff now)
  unfolding adjust_reservation
  adjust_reservation-Safe l diff =
      search (safe, release_qty_for_line-Safe, reserve_additional_for_line-Safe) depth 20

  pub update_line-Safe :
      (order line : ℕ) (qty : ℤ) → Safe (update_line e company order line qty now)
  unfolding update_line
  update_line-Safe order line qty =
      search (safe, ensure_editable_and_rollback-Safe, adjust_reservation-Safe) depth 20

  pub cancel_line_row-Safe : (order line : ℕ) → Safe (cancel_line_row e company order line now)
  unfolding cancel_line_row
  cancel_line_row-Safe order line = search (safe, release_qty_for_line-Safe) depth 20

  pub cancel_line-Safe : (order line : ℕ) → Safe (cancel_line e company order line now)
  unfolding cancel_line
  cancel_line-Safe order line =
      search (safe, ensure_editable_and_rollback-Safe, cancel_line_row-Safe) depth 20

  pub cancel_order-Safe :
      (order : ℕ) (reason : Option String) → Safe (cancel_order company order reason now)
  unfolding cancel_order
  cancel_order-Safe order reason = search (safe, release_all_for_order-Safe) depth 20

  pub verify-Safe : (user order : ℕ) → Safe (verify company user order now)
  unfolding verify
  verify-Safe user order = search safe depth 20

  pub start-Safe : (user order : ℕ) → Safe (start company user order now)
  unfolding start
  start-Safe user order = search safe depth 20

  pub commit_order-Safe : (order : ℕ) → Safe (commit_order company order now)
  commit_order-Safe order = record {
    apply = λ s v.
        Post-mono _ (λ _ t. IsSoundStore t) _ (λ _ _ c. c.1.sound)
          (commit_order-Commits company now order s v);
  }

  pub ship_lines-Safe : (m : Sums) (ls : List Line) → Safe (ship_lines m ls)
  unfolding ship_lines
  ship_lines-Safe m [] = Safe-pure tt
  ship_lines-Safe m (l ∷ ls) =
      Safe-if (is_cancelled l.status) (ship_lines m ls) _ (ship_lines-Safe m ls) (
        Safe-then (update_line_row l.id (λ r. record r { shipped = sum_for l.id m })) _
          (Safe-update_line_row _ _) (ship_lines-Safe m ls))

  pub complete-Safe : (user order : ℕ) → Safe (complete e company user order now)
  unfolding complete
  complete-Safe user order = search (safe, commit_order-Safe, ship_lines-Safe) depth 20
