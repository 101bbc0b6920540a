-- ===== src/Picking/Release/PerOrder.antt =====
-- releaseAllForOrderTx: it always returns on a sound ledger, closes every open allocation of the
-- order, and takes from the stock rows exactly what those allocations held.
use warehousehub.Base.{
  ℕ, ◌≡◌, refl, sym, ap, ◌∙◌, subst, Bool, true, false, ℤ, pos, ◌+ℤ◌, ◌≤ℤ◌, int_laws, zero-+ℤ,
  +ℤ-zero, some, List, [], ◌∷◌, ◌==◌, ◌&&◌, arith, All, All-map, All-keep, Distinct, sum_of,
  sum_of-update_first, find_by, exists_by, keep, length, update_first, update_first_total,
  All-update_first, Distinct-update_first, Bool-cases, inl, inr, if◌then◌else◌,
}
use warehousehub.Db.{
  Store, StockKey, has_key, Allocation, is_open, Returns, Returns-bind, Returns-mono,
  update_allocation, ◌>>=◌, pure,
}
use warehousehub.Ledger.{
  IsSoundStore, SameOthers, SameOthers-refl, SameOthers-after, same_allocation, key_of, held_by,
  held_at, reserved_at,
}
use warehousehub.Ledger.Steps.{
  counted_at, KeepsKey, some-eq, same_allocation_refl, same_allocation_symm,
}
use warehousehub.Ledger.Snapshot.{AreHeld, AreHeld-keep, AreHeld-tail}
use warehousehub.Picking.Release.{
  open_for_order, belongs_to_order, stock_decrements, decrement_stocks, mark_released,
  release_all_for_order,
}
use warehousehub.Picking.Release.Decrements.{
  Lowers, decrement_stocks-Lowers, taken_at, counted_in, taken_at-stock_decrements,
  AreBacked-stock_decrements,
}

abbrev pub released_row : ℕ → Allocation → Allocation
released_row now a = record a { is_released = true; released_at = some now }

-- A weight that no released allocation has.
abbrev pub IsOpenWeight : (Allocation → ℤ) → Type 0
IsOpenWeight w = (a : Allocation) → is_open a ≡ false → w a ≡ pos 0

-- What marking the allocations `l` leaves behind.
pub record Marks (s : Store) (l : List Allocation) (t : Store) : Type 0 where
  pub allocation_ids : Distinct same_allocation t.allocations
  pub nonneg : All (λ a. pos 0 ≤ℤ a.qty) t.allocations
  pub backed : All (λ a. exists_by (has_key (key_of a)) s.stocks ≡ true) t.allocations
  pub weighed :
      (w : Allocation → ℤ)
      → IsOpenWeight w
      → sum_of w t.allocations +ℤ sum_of w l ≡ sum_of w s.allocations
  pub same_stocks : t.stocks ≡ s.stocks
  pub others : SameOthers s t

closes : (x x' y y' z : ℤ) → x' +ℤ y ≡ x +ℤ y' → y' ≡ pos 0 → z +ℤ (pos 0) ≡ z → x' +ℤ y ≡ x
closes x x' y y' z e d _ = grind int_laws

both_moves : (x y z p q : ℤ) → x +ℤ p ≡ y → y +ℤ q ≡ z → x +ℤ (q +ℤ p) ≡ z
both_moves x y z p q e d = grind int_laws

module _ (now : ℕ) where
  KeepsKey-released : KeepsKey (released_row now)
  KeepsKey-released b = (refl, refl, refl, refl)

  weight-close :
      (a : Allocation) (allocations : List Allocation) (w : Allocation → ℤ) {m : List Allocation}
      → find_by (λ b. b.id == a.id) allocations ≡ some a
      → update_first (λ b. b.id == a.id) (released_row now) allocations ≡ some m
      → IsOpenWeight w
      → sum_of w m +ℤ w a ≡ sum_of w allocations
  weight-close a allocations w {m} found closed open_weight =
      let (b, e, moved) =
        sum_of-update_first w (λ b. b.id == a.id) (released_row now) allocations closed in
      let is_a : b ≡ a = some-eq (find_by (λ b. b.id == a.id) allocations) found e in
      closes (sum_of w allocations) (sum_of w m) (w a) (w (released_row now a)) (pos 0)
        (subst (λ x. sum_of w m +ℤ w x ≡ sum_of w allocations +ℤ w (released_row now x)) is_a moved)
        (open_weight (released_row now a) refl) (+ℤ-zero (pos 0))

  mark_runs :
      (a : Allocation) (l : List Allocation) (s : Store) {m : List Allocation}
      → update_first (λ b. b.id == a.id) (released_row now) s.allocations ≡ some m
      → mark_released now (a ∷ l) s ≡ mark_released now l (record s { allocations = m })
  unfolding mark_released update_allocation
  mark_runs a l s upd = rw (◌>>=◌, upd)

  mark_step :
      (a : Allocation) (l : List Allocation) (s : Store) (m : List Allocation) (t : Store)
      → find_by (λ b. b.id == a.id) s.allocations ≡ some a
      → update_first (λ b. b.id == a.id) (released_row now) s.allocations ≡ some m
      → Marks (record s { allocations = m }) l t
      → Marks s (a ∷ l) t
  mark_step a l s m t found upd h = record {
    allocation_ids = h.allocation_ids;
    nonneg = h.nonneg;
    backed = h.backed;
    weighed = λ w o.
        both_moves (sum_of w t.allocations) (sum_of w m) (sum_of w s.allocations) (sum_of w l) (w a)
          (h.weighed w o) (weight-close a s.allocations w found upd o);
    same_stocks = h.same_stocks;
    others = SameOthers-after s s.stocks m t h.others;
  }

  pub mark_released-Marks :
      (company : ℕ) (l : List Allocation) (s : Store)
      → Distinct same_allocation s.allocations
      → All (λ a. pos 0 ≤ℤ a.qty) s.allocations
      → All (λ a. exists_by (has_key (key_of a)) s.stocks ≡ true) s.allocations
      → AreHeld company l s.allocations
      → Returns (λ _ t. Marks s l t) (mark_released now l s)
  unfolding mark_released
  mark_released-Marks company [] s ids nonneg backed rows = record {
    allocation_ids = ids;
    nonneg = nonneg;
    backed = backed;
    weighed = λ w o. +ℤ-zero (sum_of w s.allocations);
    same_stocks = refl;
    others = SameOthers-refl s;
  }
  mark_released-Marks company (a ∷ l) s ids nonneg backed rows =
      let p = λ (b : Allocation). b.id == a.id in
      let f = released_row now in
      let (m, upd) = update_first_total p f s.allocations rows.found.0 in
      rw (mark_runs a l s upd) (
        Returns-mono (λ _ t. Marks (record s { allocations = m }) l t) (λ _ t. Marks s (a ∷ l) t)
          (mark_released now l (record s { allocations = m }))
          (λ _ t h. mark_step a l s m t rows.found.0 upd h)
          (mark_released-Marks company l (record s { allocations = m })
            (Distinct-update_first same_allocation same_allocation_refl same_allocation_symm p f
              s.allocations upd (λ x b. refl) ids)
            (All-update_first (λ b. pos 0 ≤ℤ b.qty) p f s.allocations upd (λ b _ h. h) nonneg)
            (All-update_first (λ b. exists_by (has_key (key_of b)) s.stocks ≡ true) p f
              s.allocations upd (λ b _ h. h) backed)
            (AreHeld-tail company a l f s.allocations KeepsKey-released upd rows)))

-- One for each row that passes a test.
abbrev indicator : (Allocation → Bool) → Allocation → ℤ
indicator p a = if p a then pos 1 else pos 0

sum_of-indicator-keep :
    (p : Allocation → Bool) (l : List Allocation)
    → sum_of (indicator p) (keep p l) ≡ sum_of (indicator p) l
sum_of-indicator-keep p [] = refl
sum_of-indicator-keep p (a ∷ l) = elim (Bool-cases (p a)) [
  | inl e ↦ rw e (rw e (ap (λ x. pos 1 +ℤ x) (sum_of-indicator-keep p l)))
  | inr e ↦ rw e (sum_of-indicator-keep p l ∙ sym (zero-+ℤ (sum_of (indicator p) l)))
]

sum_of-indicator_nonneg :
    (p : Allocation → Bool) (l : List Allocation) → pos 0 ≤ℤ sum_of (indicator p) l
sum_of-indicator_nonneg p [] = omega arith
sum_of-indicator_nonneg p (a ∷ l) = elim (Bool-cases (p a)) [
  | inl e ↦ rw e (one_more (sum_of (indicator p) l) (sum_of-indicator_nonneg p l))
  | inr e ↦ rw (e, zero-+ℤ (sum_of (indicator p) l)) (sum_of-indicator_nonneg p l)
]
  where
    one_more : (x : ℤ) → pos 0 ≤ℤ x → pos 0 ≤ℤ pos 1 +ℤ x
    one_more x h = omega (int_laws, h)

positive_sum : (x : ℤ) → pos 0 ≤ℤ x → pos 1 +ℤ x ≡ pos 0 → ⊥
positive_sum x h e = grind int_laws

keep-none :
    (p : Allocation → Bool) (l : List Allocation) → sum_of (indicator p) l ≡ pos 0 → keep p l ≡ []
keep-none p [] h = refl
keep-none p (a ∷ l) h = elim (Bool-cases (p a)) [
  | inl e ↦ absurd (
      positive_sum (sum_of (indicator p) l) (sum_of-indicator_nonneg p l)
        (subst (λ b. (if b then pos 1 else pos 0) +ℤ sum_of (indicator p) l ≡ pos 0) e h))
  | inr e ↦ rw e (
      keep-none p l (
        sym (zero-+ℤ (sum_of (indicator p) l))
        ∙ subst (λ b. (if b then pos 1 else pos 0) +ℤ sum_of (indicator p) l ≡ pos 0) e h))
]

held_in :
    (company : ℕ) (k : StockKey) (l : List Allocation)
    → All (λ a. (a.company ≡ company) × (is_open a ≡ true)) l
    → sum_of (held_by k) l ≡ counted_in k l
held_in company k [] own = refl
held_in company k (a ∷ l) own = rw (held_by-open k a own.0.1, held_in company k l own.1) refl
  where
    held_by-open :
        (k : StockKey) (a : Allocation) → is_open a ≡ true → held_by k a ≡ counted_at k a a.qty
    held_by-open k a h = ground arith

held_by-IsOpenWeight : (k : StockKey) → IsOpenWeight (held_by k)
held_by-IsOpenWeight k a h = ground arith

cancel_both : (x y c d e : ℤ) → x +ℤ c ≡ e → y +ℤ d ≡ e → c ≡ d +ℤ pos 0 → x ≡ y
cancel_both x y c d e h k q = grind int_laws

none_remain : (x y : ℤ) → x +ℤ y ≡ y → x ≡ pos 0
none_remain x y h = grind int_laws

SameOthers-trans : (s t u : Store) → SameOthers s t → SameOthers t u → SameOthers s u
SameOthers-trans s t u h k = record {
  same_orders = k.same_orders ∙ h.same_orders;
  same_lines = k.same_lines ∙ h.same_lines;
  same_lots = k.same_lots ∙ h.same_lots;
  same_warehouses = k.same_warehouses ∙ h.same_warehouses;
  same_items = k.same_items ∙ h.same_items;
  same_customers = k.same_customers ∙ h.same_customers;
  same_txs = k.same_txs ∙ h.same_txs;
  same_tx_lines = k.same_tx_lines ∙ h.same_tx_lines;
  same_transfers = k.same_transfers ∙ h.same_transfers;
  same_stocktakings = k.same_stocktakings ∙ h.same_stocktakings;
  same_count_lines = k.same_count_lines ∙ h.same_count_lines;
  same_branches = k.same_branches ∙ h.same_branches;
  same_asns = k.same_asns ∙ h.same_asns;
  same_uploads = k.same_uploads ∙ h.same_uploads;
  same_receipts = k.same_receipts ∙ h.same_receipts;
  same_receipt_lines = k.same_receipt_lines ∙ h.same_receipt_lines;
}

-- What the release of an order leaves behind.
pub record ReleasesOrder (company order : ℕ) (s t : Store) : Type 0 where
  pub sound : IsSoundStore t
  pub none_open : open_for_order company order t ≡ []
  pub others : SameOthers s t

module _ (company order now : ℕ) where
  abbrev is_open_for : Store → Allocation → Bool
  is_open_for s a = (a.company == company) && belongs_to_order order s a.line && is_open a

  own_open :
      (s : Store) (a : Allocation)
      → is_open_for s a ≡ true
      → (a.company ≡ company) × (is_open a ≡ true)
  own_open s a h = ground arith

  is_open_for-IsOpenWeight : (s : Store) → IsOpenWeight (indicator (is_open_for s))
  is_open_for-IsOpenWeight s a h = ground arith

  open_rows :
      (s : Store) → IsSoundStore s → AreHeld company (open_for_order company order s) s.allocations
  open_rows s v =
      AreHeld-keep company (is_open_for s) s.allocations v.allocation_ids v.nonneg (own_open s)

  after_both :
      (s t u : Store)
      → IsSoundStore s
      → Lowers company (stock_decrements (open_for_order company order s) []) s t
      → Marks t (open_for_order company order s) u
      → ReleasesOrder company order s u
  after_both s t u v lo ma =
      let l = open_for_order company order s in
      let rows = open_rows s v in
      record {
        sound = record {
          stock_ids = rw ma.same_stocks lo.stock_ids;
          stock_keys = rw ma.same_stocks lo.stock_keys;
          allocation_ids = ma.allocation_ids;
          covered = rw ma.same_stocks lo.covered;
          nonneg = ma.nonneg;
          backed = rw ma.same_stocks ma.backed;
          reconciled = λ k. rw ma.same_stocks (
              cancel_both (reserved_at k t.stocks) (held_at k u.allocations)
                (taken_at company k (stock_decrements l [])) (counted_in k l)
                (reserved_at k s.stocks) (lo.lowered k)
                (ap (λ x. held_at k u.allocations +ℤ x) (sym (held_in company k l rows.own))
                  ∙ ma.weighed (held_by k) (held_by-IsOpenWeight k)
                  ∙ ap (held_at k) lo.same_allocations
                  ∙ sym (v.reconciled k))
                (taken_at-stock_decrements company k l []
                  (All-map _ (λ a. a.company ≡ company) (λ a h. h.0) l rows.own)));
        };
        none_open =
            rw (ma.others.same_lines, lo.others.same_lines)
              (keep-none (is_open_for s) u.allocations (
                none_remain (sum_of (indicator (is_open_for s)) u.allocations)
                  (sum_of (indicator (is_open_for s)) s.allocations)
                  (ap (λ x. sum_of (indicator (is_open_for s)) u.allocations +ℤ x)
                      (sym (sum_of-indicator-keep (is_open_for s) s.allocations))
                    ∙ ma.weighed (indicator (is_open_for s)) (is_open_for-IsOpenWeight s)
                    ∙ ap (sum_of (indicator (is_open_for s))) lo.same_allocations)));
        others = SameOthers-trans s t u lo.others ma.others;
      }

  -- On a sound ledger the release of an order always returns, with a sound ledger in which the order
  -- has no open allocation, and with the stock rows and the allocations as the only tables changed;
  -- its result is the number of the allocations that were open.
  pub release_all_for_order-ReleasesOrder :
      (s : Store)
      → IsSoundStore s
      → Returns
          (λ n t. (n ≡ length (open_for_order company order s)) × ReleasesOrder company order s t)
          (release_all_for_order company order now s)
  unfolding release_all_for_order
  release_all_for_order-ReleasesOrder s v =
      let l = open_for_order company order s in
      let ds = stock_decrements l [] in
      let rows = open_rows s v in
      Returns-bind (λ _ t. Lowers company ds s t)
        (λ n t. (n ≡ length l) × ReleasesOrder company order s t) (decrement_stocks company ds)
        (λ _. mark_released now l >>= λ _. pure (length l)) s
        (decrement_stocks-Lowers company ds s v.stock_ids v.stock_keys v.covered (
          AreBacked-stock_decrements company s.stocks l []
            (All-map _ (λ a. a.company ≡ company) (λ a h. h.0) l rows.own) rows.nonneg
            (All-keep _ (is_open_for s) s.allocations v.backed) tt))
        (λ _ t lo.
          Returns-bind (λ _ u. Marks t l u)
            (λ n u. (n ≡ length l) × ReleasesOrder company order s u) (mark_released now l)
            (λ _. pure (length l)) t
            (mark_released-Marks now company l t (rw lo.same_allocations v.allocation_ids)
              (rw lo.same_allocations v.nonneg)
              (rw lo.same_allocations (
                All-map _ (λ a. exists_by (has_key (key_of a)) t.stocks ≡ true)
                  (λ a h. lo.rows (key_of a) ∙ h) s.allocations v.backed))
              (rw lo.same_allocations rows))
            (λ _ u ma. (refl, after_both s t u v lo ma)))
