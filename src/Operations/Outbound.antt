-- ===== src/Operations/Outbound.antt =====
-- The outbound calls but the completion of a shipment: they reserve and release, and leave the physical
-- quantities and the journal alone.
use warehousehub.Base.{
  ℕ, ◌≡◌, refl, Bool, true, false, ℤ, ◌+ℤ◌, ltb, int_laws, some, List, [], ◌∷◌, length,
  if◌then◌else◌, update_first, Option-cases, Bool-cases, inl, inr, Distinct-update_first,
  sum_of-update_first,
}
use warehousehub.Db.{
  Store, Stock, Line, Allocation, OutboundStatus, Engine, Post, pure, throw, bad_request,
  already_reserved, ◌>>=◌, update_stock,
}
use warehousehub.Ledger.{same_stock, same_key, hand_by, hand_at, lot_key}
use warehousehub.Ledger.Steps.{same_stock_refl, same_stock_symm, same_key_refl, same_key_symm}
use warehousehub.Transfers.Rows.{IsShelved}
use warehousehub.Journal.{Books, journal_at}
use warehousehub.Journal.Leaves.{LeavesStock-pure}
use warehousehub.Journal.Booked.{Booked, booked, Booked-of_LeavesStock, Booked-then, Booked-bind}
use warehousehub.Picking.Reserve.{
  reserve_one, reserve_loop, reserve_additional_for_line, reserve_lines, release_before_reserve,
  reserve_for_order,
}
use warehousehub.Picking.Release.{
  release_one, release_loop, release_qty_for_line, Decrement, decrement_stocks, open_for_order,
  mark_released, release_all_for_order,
}

unmoved : (x y u j : ℤ) → y +ℤ u ≡ x +ℤ u → y +ℤ j ≡ x +ℤ j
unmoved x y u j e = grind int_laws

module _ (company : ℕ) where
  -- What is reserved of a stock row changes, and nothing else.
  pub Booked-reserve :
      (p : Stock → Bool) (g : Stock → ℤ)
      → Booked company (update_stock p (λ r. record r { reserved = g r }))
  unfolding update_stock
  Booked-reserve p g = record {
    apply = λ s v.
        elim (Option-cases (update_first p (λ r. record r { reserved = g r }) s.stocks)) [
          | inl missing ↦ rw (missing, update_stock) tt
          | inr (l, upd) ↦ rw (upd, update_stock) (changed s l v upd)
        ];
  }
    where
      changed :
          (s : Store) (l : List Stock)
          → IsShelved s.stocks
          → update_first p (λ r. record r { reserved = g r }) s.stocks ≡ some l
          → Books company s (record s { stocks = l })
      changed s l v upd = record {
        shelved = record {
          ids =
              Distinct-update_first same_stock same_stock_refl same_stock_symm p _ s.stocks upd
                (λ a b. refl) v.ids;
          keys =
              Distinct-update_first same_key same_key_refl same_key_symm p _ s.stocks upd
                (λ a b. refl) v.keys;
        };
        booked = λ w lot.
            let key = lot_key company w lot in
            let (r, found, moved) = sum_of-update_first (hand_by key) p _ s.stocks upd in
            unmoved (hand_at key s.stocks) (hand_at key l) (hand_by key r)
              (journal_at key s.tx_lines) moved;
      }

  Booked-release_one :
      (now : ℕ) (a : Allocation) (qty : ℤ) → Booked company (release_one company now a qty)
  unfolding release_one
  Booked-release_one now a qty = search (booked, Booked-reserve) depth 12

  Booked-release_loop :
      (now : ℕ) (found : List Allocation) (remaining : ℤ)
      → Booked company (release_loop company now found remaining)
  unfolding release_loop
  Booked-release_loop now [] remaining = search (booked) depth 12
  Booked-release_loop now (a ∷ rest) remaining =
      search (booked, Booked-release_one, Booked-release_loop now rest) depth 12

  pub Booked-release_qty_for_line :
      (e : Engine) (line now : ℕ) (qty : ℤ)
      → Booked company (release_qty_for_line e company line now qty)
  unfolding release_qty_for_line
  Booked-release_qty_for_line e line now qty = search (booked, Booked-release_loop) depth 16

  Booked-decrement_stocks : (ds : List Decrement) → Booked company (decrement_stocks company ds)
  unfolding decrement_stocks
  Booked-decrement_stocks [] = search (booked) depth 12
  Booked-decrement_stocks (d ∷ ds) =
      Booked-then company _ _ (search (booked, Booked-reserve) depth 12)
        (Booked-decrement_stocks ds)

  Booked-mark_released :
      (now : ℕ) (found : List Allocation) → Booked company (mark_released now found)
  unfolding mark_released
  Booked-mark_released now [] = search (booked) depth 12
  Booked-mark_released now (a ∷ rest) =
      Booked-then company _ _ (search (booked) depth 12) (Booked-mark_released now rest)

  pub Booked-release_all_for_order :
      (order now : ℕ) → Booked company (release_all_for_order company order now)
  unfolding release_all_for_order
  Booked-release_all_for_order order now =
      search (booked, Booked-decrement_stocks, Booked-mark_released) depth 16

module _ (e : Engine) (company : ℕ) where
  Booked-reserve_one :
      (line now : ℕ) (c : Stock) (take : ℤ) → Booked company (reserve_one e company line now c take)
  unfolding reserve_one
  Booked-reserve_one line now c take = search (booked, Booked-reserve) depth 12

  Booked-reserve_loop :
      (line now : ℕ) (cs : List Stock) (remaining : ℤ)
      → Booked company (reserve_loop e company line now cs remaining)
  unfolding reserve_loop
  Booked-reserve_loop line now [] remaining = search (booked) depth 12
  Booked-reserve_loop line now (c ∷ cs) remaining =
      search (booked, Booked-reserve_one, Booked-reserve_loop line now cs) depth 16

  pub Booked-reserve_additional_for_line :
      (line item now : ℕ) (add : ℤ)
      → Booked company (reserve_additional_for_line e company line item now add)
  unfolding reserve_additional_for_line
  Booked-reserve_additional_for_line line item now add =
      search (booked, Booked-reserve_loop) depth 16

  Booked-reserve_lines :
      (now : ℕ) (ls : List Line) → Booked company (reserve_lines e company now ls)
  unfolding reserve_lines
  Booked-reserve_lines now [] = search (booked) depth 12
  Booked-reserve_lines now (l ∷ ls) =
      let rest = Booked-reserve_lines now ls in
      search (booked, Booked-reserve_additional_for_line) depth 20

  Booked-release_before_reserve :
      (order now : ℕ) (force : Bool)
      → Booked company (release_before_reserve company order now force)
  unfolding release_before_reserve
  Booked-release_before_reserve order now force = record {
    apply = λ s v. elim (Bool-cases (ltb 0 (length (open_for_order company order s)))) [
      | inl found ↦ rw found (forced force s v)
      | inr empty ↦
          rw empty ((Booked-of_LeavesStock company (pure tt) (LeavesStock-pure tt)).apply s v)
    ];
  }
    where
      forced :
          (force : Bool) (s : Store)
          → IsShelved s.stocks
          → Post
              (λ _ t. Books company s t)
              (if force
                then (release_all_for_order company order now >>= λ _. pure tt) s
                else throw (bad_request already_reserved) s)
      forced false s v = tt
      forced true s v =
          (Booked-bind company (release_all_for_order company order now) (λ _. pure tt)
              (Booked-release_all_for_order company order now)
              (λ _. Booked-of_LeavesStock company (pure tt) (LeavesStock-pure tt))).apply
            s v

  pub reserve_for_order-Booked :
      (order now : ℕ) (allow : List OutboundStatus) (force : Bool)
      → Booked company (reserve_for_order e company order now allow force)
  unfolding reserve_for_order
  reserve_for_order-Booked order now allow force =
      search (booked, Booked-release_before_reserve, Booked-reserve_lines) depth 24
