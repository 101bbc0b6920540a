-- ===== src/Picking/Release/Decrements.antt =====
-- The grouped decrements of releaseAllForOrderTx: grouping by stock row loses nothing, and the
-- decrements lower the reserved quantity at every key by what the allocations held there.
use warehousehub.Base.{
  ℕ, ◌≡◌, refl, sym, ◌∙◌, ap, true, ℤ, pos, ◌+ℤ◌, ◌-ℤ◌, ◌≤ℤ◌, int_laws, zero-+ℤ, +ℤ-zero, some,
  List, [], ◌∷◌, ◌==◌, ◌&&◌, arith, All, All-map, Distinct, sum_of, sum_of-update_first,
  find_by_test, exists_by, exists_by-find_by, exists_by-update_first, update_first,
  update_first_total, Bool-cases, inl, inr, if◌then◌else◌, Distinct-update_first, All-update_first,
}
use warehousehub.Db.{
  Store, Stock, StockKey, has_key, Allocation, Returns, update_stock, ◌>>=◌, Returns-mono,
}
use warehousehub.Ledger.{
  SameOthers, SameOthers-refl, SameOthers-after, same_stock, same_key, key_of, reserved_at,
  reserved_by,
}
use warehousehub.Ledger.Steps.{
  counted_at, same_stock_refl, same_stock_symm, same_key_refl, same_key_symm,
}
use warehousehub.Picking.Release.{
  Decrement, add_decrement, stock_decrements, decrement_stocks, sub_reserved,
}

abbrev pub decrement_key : ℕ → Decrement → StockKey
decrement_key company d = record { company = company; warehouse = d.warehouse; lot = d.lot }

abbrev pub taken_by : ℕ → StockKey → Decrement → ℤ
taken_by company k d =
    if (company == k.company) && (d.warehouse == k.warehouse) && (d.lot == k.lot)
    then d.qty
    else pos 0

-- What a list of decrements takes, and a list of allocations holds, at a key.
abbrev pub taken_at : ℕ → StockKey → List Decrement → ℤ
taken_at company k ds = sum_of (taken_by company k) ds

abbrev pub counted_in : StockKey → List Allocation → ℤ
counted_in k l = sum_of (λ a. counted_at k a a.qty) l

-- Decrements that are not negative and have their stock row.
abbrev pub AreBacked : ℕ → List Stock → List Decrement → Type 0
AreBacked company stocks ds =
    All (λ d. (pos 0 ≤ℤ d.qty) × (exists_by (has_key (decrement_key company d)) stocks ≡ true)) ds

regroup : (x y z : ℤ) → x +ℤ (y +ℤ z) ≡ y +ℤ (x +ℤ z)
regroup x y z = grind int_laws

add_taken : (x y z : ℤ) → (x +ℤ y) +ℤ z ≡ y +ℤ (x +ℤ z)
add_taken x y z = grind int_laws

-- The decrement of the group of `a` takes more by what `a` counts for.
taken_by-same :
    (company : ℕ) (k : StockKey) (a : Allocation) (d : Decrement) (rest : ℤ)
    → a.company ≡ company
    → ((d.warehouse == a.warehouse) && (d.lot == a.lot)) ≡ true
    → taken_by company k (record d { qty = d.qty +ℤ a.qty }) +ℤ rest
      ≡ counted_at k a a.qty +ℤ (taken_by company k d +ℤ rest)
taken_by-same company k a d rest own same =
    ground (arith, add_taken d.qty a.qty rest, zero-+ℤ rest, zero-+ℤ (pos 0 +ℤ rest))

taken_by-own :
    (company : ℕ) (k : StockKey) (a : Allocation)
    → a.company ≡ company
    → taken_by company k (record { warehouse = a.warehouse; lot = a.lot; qty = a.qty })
      ≡ counted_at k a a.qty
taken_by-own company k a own = ground arith

taken_at-add :
    (company : ℕ) (k : StockKey) (a : Allocation) (ds : List Decrement)
    → a.company ≡ company
    → taken_at company k (add_decrement a ds) ≡ counted_at k a a.qty +ℤ taken_at company k ds
taken_at-add company k a [] own = ap (λ x. x +ℤ pos 0) (taken_by-own company k a own)
taken_at-add company k a (d ∷ ds) own =
    elim (Bool-cases ((d.warehouse == a.warehouse) && (d.lot == a.lot))) [
      | inl same ↦ rw same (taken_by-same company k a d (taken_at company k ds) own same)
      | inr other ↦
          rw (other, taken_at-add company k a ds own)
            (regroup (taken_by company k d) (counted_at k a a.qty) (taken_at company k ds))
    ]

regroup_in : (x y z : ℤ) → x +ℤ (y +ℤ z) ≡ (y +ℤ x) +ℤ z
regroup_in x y z = grind int_laws

pub taken_at-stock_decrements :
    (company : ℕ) (k : StockKey) (l : List Allocation) (ds : List Decrement)
    → All (λ a. a.company ≡ company) l
    → taken_at company k (stock_decrements l ds) ≡ counted_in k l +ℤ taken_at company k ds
unfolding stock_decrements
taken_at-stock_decrements company k [] ds own = sym (zero-+ℤ (taken_at company k ds))
taken_at-stock_decrements company k (a ∷ l) ds own =
    taken_at-stock_decrements company k l (add_decrement a ds) own.1
    ∙ ap (λ x. counted_in k l +ℤ x) (taken_at-add company k a ds own.0)
    ∙ regroup_in (counted_in k l) (counted_at k a a.qty) (taken_at company k ds)

sum_nonneg : (x y : ℤ) → pos 0 ≤ℤ x → pos 0 ≤ℤ y → pos 0 ≤ℤ x +ℤ y
sum_nonneg x y h k = omega (int_laws, h, k)

AreBacked-add :
    (company : ℕ) (stocks : List Stock) (a : Allocation) (ds : List Decrement)
    → a.company ≡ company
    → pos 0 ≤ℤ a.qty
    → exists_by (has_key (key_of a)) stocks ≡ true
    → AreBacked company stocks ds
    → AreBacked company stocks (add_decrement a ds)
AreBacked-add company stocks a [] own nonneg row h = ((nonneg, rw (← own) row), tt)
AreBacked-add company stocks a (d ∷ ds) own nonneg row h =
    elim (Bool-cases ((d.warehouse == a.warehouse) && (d.lot == a.lot))) [
      | inl same ↦ rw same ((sum_nonneg d.qty a.qty h.0.0 nonneg, h.0.1), h.1)
      | inr other ↦ rw other (h.0, AreBacked-add company stocks a ds own nonneg row h.1)
    ]

pub AreBacked-stock_decrements :
    (company : ℕ) (stocks : List Stock) (l : List Allocation) (ds : List Decrement)
    → All (λ a. a.company ≡ company) l
    → All (λ a. pos 0 ≤ℤ a.qty) l
    → All (λ a. exists_by (has_key (key_of a)) stocks ≡ true) l
    → AreBacked company stocks ds
    → AreBacked company stocks (stock_decrements l ds)
unfolding stock_decrements
AreBacked-stock_decrements company stocks [] ds own nonneg row h = h
AreBacked-stock_decrements company stocks (a ∷ l) ds own nonneg row h =
    AreBacked-stock_decrements company stocks l (add_decrement a ds) own.1 nonneg.1 row.1
      (AreBacked-add company stocks a ds own.0 nonneg.0 row.0 h)

-- What the decrements leave behind: lower reserved quantities, and all else as it was.
pub record Lowers (company : ℕ) (ds : List Decrement) (s t : Store) : Type 0 where
  pub stock_ids : Distinct same_stock t.stocks
  pub stock_keys : Distinct same_key t.stocks
  pub covered : All (λ r. r.reserved ≤ℤ r.on_hand) t.stocks
  pub rows : (k : StockKey) → exists_by (has_key k) t.stocks ≡ exists_by (has_key k) s.stocks
  pub lowered :
      (k : StockKey) → reserved_at k t.stocks +ℤ taken_at company k ds ≡ reserved_at k s.stocks
  pub same_allocations : t.allocations ≡ s.allocations
  pub others : SameOthers s t

sub-add : (a b : ℤ) → a ≡ a -ℤ b +ℤ b
sub-add a b = omega int_laws

reserved_by-lowered :
    (company : ℕ) (k : StockKey) (d : Decrement) (r : Stock)
    → has_key (decrement_key company d) r ≡ true
    → reserved_by k r ≡ reserved_by k (sub_reserved d.qty r) +ℤ taken_by company k d
reserved_by-lowered company k d r at = ground (arith, +ℤ-zero (pos 0), sub-add r.reserved d.qty)

move_down : (x x' u u' z : ℤ) → x' +ℤ u ≡ x +ℤ u' → u ≡ u' +ℤ z → x' +ℤ z ≡ x
move_down x x' u u' z p d = grind int_laws

both_moves : (x y z p q : ℤ) → x +ℤ p ≡ y → y +ℤ q ≡ z → x +ℤ (q +ℤ p) ≡ z
both_moves x y z p q e d = grind int_laws

covered_lower : (x y q : ℤ) → pos 0 ≤ℤ q → x ≤ℤ y → x -ℤ q ≤ℤ y
covered_lower x y q h k = omega (int_laws, h, k)

reserved_at-lowered :
    (company : ℕ) (k : StockKey) (d : Decrement) (stocks : List Stock) {l : List Stock}
    → update_first (has_key (decrement_key company d)) (sub_reserved d.qty) stocks ≡ some l
    → reserved_at k l +ℤ taken_by company k d ≡ reserved_at k stocks
reserved_at-lowered company k d stocks {l} upd =
    let p = has_key (decrement_key company d) in
    let (r, e, moved) = sum_of-update_first (reserved_by k) p (sub_reserved d.qty) stocks upd in
    move_down (reserved_at k stocks) (reserved_at k l) (reserved_by k r)
      (reserved_by k (sub_reserved d.qty r)) (taken_by company k d) moved
      (reserved_by-lowered company k d r (find_by_test p stocks e))

rows_lowered :
    (company : ℕ) (k : StockKey) (d : Decrement) (stocks : List Stock) {l : List Stock}
    → update_first (has_key (decrement_key company d)) (sub_reserved d.qty) stocks ≡ some l
    → exists_by (has_key k) l ≡ exists_by (has_key k) stocks
rows_lowered company k d stocks upd =
    exists_by-update_first (has_key k) (has_key (decrement_key company d)) (sub_reserved d.qty)
      stocks upd (λ r. refl)

module _ (company : ℕ) where
  lower_step :
      (d : Decrement) (ds : List Decrement) (s : Store) (l : List Stock) (t : Store)
      → update_first (has_key (decrement_key company d)) (sub_reserved d.qty) s.stocks ≡ some l
      → Lowers company ds (record s { stocks = l }) t
      → Lowers company (d ∷ ds) s t
  lower_step d ds s l t upd w = record {
    stock_ids = w.stock_ids;
    stock_keys = w.stock_keys;
    covered = w.covered;
    rows = λ k. w.rows k ∙ rows_lowered company k d s.stocks upd;
    lowered = λ k.
        both_moves (reserved_at k t.stocks) (reserved_at k l) (reserved_at k s.stocks)
          (taken_at company k ds) (taken_by company k d) (w.lowered k)
          (reserved_at-lowered company k d s.stocks upd);
    same_allocations = w.same_allocations;
    others = SameOthers-after s l s.allocations t w.others;
  }

  decrement_runs :
      (d : Decrement) (ds : List Decrement) (s : Store) {l : List Stock}
      → update_first (has_key (decrement_key company d)) (sub_reserved d.qty) s.stocks ≡ some l
      → decrement_stocks company (d ∷ ds) s ≡ decrement_stocks company ds (record s { stocks = l })
  unfolding decrement_stocks update_stock
  decrement_runs d ds s upd = rw (◌>>=◌, upd)

  pub decrement_stocks-Lowers :
      (ds : List Decrement) (s : Store)
      → Distinct same_stock s.stocks
      → Distinct same_key s.stocks
      → All (λ r. r.reserved ≤ℤ r.on_hand) s.stocks
      → AreBacked company s.stocks ds
      → Returns (λ _ t. Lowers company ds s t) (decrement_stocks company ds s)
  unfolding decrement_stocks
  decrement_stocks-Lowers [] s ids keys cover backed = record {
    stock_ids = ids;
    stock_keys = keys;
    covered = cover;
    rows = λ k. refl;
    lowered = λ k. +ℤ-zero (reserved_at k s.stocks);
    same_allocations = refl;
    others = SameOthers-refl s;
  }
  decrement_stocks-Lowers (d ∷ ds) s ids keys cover backed =
      let p = has_key (decrement_key company d) in
      let f = sub_reserved d.qty in
      let (r, row) = exists_by-find_by p s.stocks backed.0.1 in
      let (l, upd) = update_first_total p f s.stocks row in
      rw (decrement_runs d ds s upd) (
        Returns-mono (λ _ t. Lowers company ds (record s { stocks = l }) t)
          (λ _ t. Lowers company (d ∷ ds) s t)
          (decrement_stocks company ds (record s { stocks = l }))
          (λ _ t w. lower_step d ds s l t upd w)
          (decrement_stocks-Lowers ds (record s { stocks = l })
            (Distinct-update_first same_stock same_stock_refl same_stock_symm p f s.stocks upd
              (λ a b. refl) ids)
            (Distinct-update_first same_key same_key_refl same_key_symm p f s.stocks upd
              (λ a b. refl) keys)
            (All-update_first (λ r. r.reserved ≤ℤ r.on_hand) p f s.stocks upd
              (λ x _ h. covered_lower x.reserved x.on_hand d.qty backed.0.0 h) cover)
            (All-map
              (λ x.
                (pos 0 ≤ℤ x.qty) × (exists_by (has_key (decrement_key company x)) s.stocks ≡ true))
              (λ x. (pos 0 ≤ℤ x.qty) × (exists_by (has_key (decrement_key company x)) l ≡ true))
              (λ x h. (h.0, rows_lowered company (decrement_key company x) d s.stocks upd ∙ h.1)) ds
              backed.1)))
