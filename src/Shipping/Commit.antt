-- ===== src/Shipping/Commit.antt =====
-- The commit of a shipment: it keeps the ledger sound, and takes from every stock row exactly the
-- quantities that were picked.
use warehousehub.Base.{
  All, subst, ℕ, ◌≡◌, refl, true, false, ℤ, pos, ◌+ℤ◌, ◌≤ℤ◌, ltb_ℤ, int_laws, zero-+ℤ, +ℤ-zero,
  sub-le-sub, some, List, [], ◌∷◌, ◌==◌, ◌&&◌, arith, sum_of, find_by, find_by-All, exists_by,
  exists_by-find_by, update_first, update_first_total, Bool-cases, inl, inr, length,
}
use warehousehub.Db.{
  Store, Stock, StockKey, has_key, Allocation, is_open, ok, pure, Post, Post-bind, Post-mono,
  update_stock, update_allocation, ◌>>=◌, bind-ok,
}
use warehousehub.Ledger.{
  IsSoundStore, SameOthers, SameOthers-refl, SameOthers-after, key_of, held_by, hand_at,
}
use warehousehub.Ledger.Steps.{close-IsSound, hand_at-close, counted_at, KeepsKey}
use warehousehub.Ledger.Snapshot.{AreHeld, AreHeld-keep, AreHeld-tail}
use warehousehub.Picking.Release.{stock_key}
use warehousehub.Picking.Submit.{picked_or_reserved}
use warehousehub.Shipping.{
  to_commit, commit_row, mark_committed, commit_one, commit_loop, commit_order, on_active_line,
}

-- The picked quantity of a list of allocations at a key.
abbrev pub picked_at : StockKey → List Allocation → ℤ
picked_at k l = sum_of (λ a. counted_at k a (picked_or_reserved a)) l

-- What the commit of the allocations `l` leaves behind.
pub record Commits (s : Store) (l : List Allocation) (t : Store) : Type 0 where
  pub sound : IsSoundStore t
  pub shipped : (k : StockKey) → hand_at k t.stocks +ℤ picked_at k l ≡ hand_at k s.stocks
  pub others : SameOthers s t

held_by-committed :
    (now : ℕ) (a : Allocation) (k : StockKey)
    → is_open a ≡ true
    → held_by k a ≡ held_by k (mark_committed now a) +ℤ counted_at k a a.qty
held_by-committed now a k opened = ground (arith, zero-+ℤ a.qty, zero-+ℤ (pos 0))

KeepsKey-committed : (now : ℕ) → KeepsKey (mark_committed now)
KeepsKey-committed now b = (refl, refl, refl, refl)

covered_after :
    (a : Allocation) (r : Stock)
    → ltb_ℤ a.qty (picked_or_reserved a) ≡ false
    → r.reserved ≤ℤ r.on_hand
    → (commit_row a r).reserved ≤ℤ (commit_row a r).on_hand
covered_after a r within h = sub-le-sub r.reserved r.on_hand a.qty (picked_or_reserved a) within h

both_moves : (x y z p q : ℤ) → x +ℤ p ≡ y → y +ℤ q ≡ z → x +ℤ (q +ℤ p) ≡ z
both_moves x y z p q e d = grind int_laws

module _ (company now : ℕ) where
  abbrev after_commit : Store → List Stock → List Allocation → Store
  after_commit s l m = record s { stocks = l; allocations = m }

  commit_runs :
      (a : Allocation) (s : Store) {l : List Stock} {m : List Allocation}
      → ltb_ℤ a.qty (picked_or_reserved a) ≡ false
      → update_first (has_key (stock_key company a)) (commit_row a) s.stocks ≡ some l
      → update_first (λ b. b.id == a.id) (mark_committed now) s.allocations ≡ some m
      → commit_one company now a s ≡ ok tt (after_commit s l m)
  unfolding commit_one update_stock update_allocation
  commit_runs a s within upd closed = ground arith

  commit_one_lem :
      (a : Allocation) (s : Store)
      → IsSoundStore s
      → find_by (λ b. b.id == a.id) s.allocations ≡ some a
      → a.company ≡ company
      → (l : List Stock) × (m : List Allocation) × (update_first
            (has_key (stock_key company a))
            (commit_row a)
            s.stocks
          ≡ some l)
        × (update_first (λ b. b.id == a.id) (mark_committed now) s.allocations ≡ some m)
  commit_one_lem a s v found own =
      let backed : exists_by (has_key (stock_key company a)) s.stocks ≡ true = rw (← own) (
        find_by-All (λ b. exists_by (has_key (key_of b)) s.stocks ≡ true) (λ b. b.id == a.id)
          s.allocations found v.backed) in
      let (r, row) = exists_by-find_by (has_key (stock_key company a)) s.stocks backed in
      let (l, upd) =
        update_first_total (has_key (stock_key company a)) (commit_row a) s.stocks row in
      let (m, closed) =
        update_first_total (λ b. b.id == a.id) (mark_committed now) s.allocations found in
      (l, m, upd, closed)

  commit_one-IsSound :
      (a : Allocation) (s : Store) {l : List Stock} {m : List Allocation}
      → IsSoundStore s
      → find_by (λ b. b.id == a.id) s.allocations ≡ some a
      → (a.company ≡ company) × (is_open a ≡ true)
      → pos 0 ≤ℤ a.qty
      → ltb_ℤ a.qty (picked_or_reserved a) ≡ false
      → update_first (has_key (stock_key company a)) (commit_row a) s.stocks ≡ some l
      → update_first (λ b. b.id == a.id) (mark_committed now) s.allocations ≡ some m
      → IsSoundStore (after_commit s l m)
  commit_one-IsSound a s v found own nonneg within upd closed =
      close-IsSound s.stocks s.allocations v (stock_key company a) a a.qty (commit_row a)
        (mark_committed now) upd found closed (λ r. (refl, refl, refl, refl)) (λ r. refl)
        (λ r h. covered_after a r within h) (own.0, refl, refl) (KeepsKey-committed now) nonneg
        (λ k. held_by-committed now a k own.1)

  -- The rest of the loop after one commit.
  commit_step :
      (a : Allocation) (tail : List Allocation) (s : Store)
      → IsSoundStore s
      → AreHeld company (a ∷ tail) s.allocations
      → ltb_ℤ a.qty (picked_or_reserved a) ≡ false
      → ((t : Store)
          → IsSoundStore t
          → AreHeld company tail t.allocations
          → Post (λ _ u. Commits t tail u) (commit_loop company now tail t))
      → Post (λ _ u. Commits s (a ∷ tail) u) (commit_loop company now (a ∷ tail) s)
  unfolding commit_loop
  commit_step a tail s v rows within later =
      let (l, m, upd, closed) = commit_one_lem a s v rows.found.0 rows.own.0.0 in
      let t = after_commit s l m in
      rw (commit_runs a s within upd closed, ◌>>=◌)
        (Post-mono (λ _ u. Commits t tail u) (λ _ u. Commits s (a ∷ tail) u)
          (commit_loop company now tail t)
          (λ _ u c. record {
            sound = c.sound;
            shipped = λ k.
                both_moves (hand_at k u.stocks) (hand_at k l) (hand_at k s.stocks)
                  (picked_at k tail) (counted_at k a (picked_or_reserved a)) (c.shipped k)
                  (hand_at-close s.stocks (stock_key company a) a (picked_or_reserved a)
                    (commit_row a) upd (λ r. (refl, refl, refl, refl)) (λ r. refl)
                    (rows.own.0.0, refl, refl) k);
            others = SameOthers-after s l m u c.others;
          })
          (later t
            (commit_one-IsSound a s v rows.found.0 rows.own.0 rows.nonneg.0 within upd closed)
            (AreHeld-tail company a tail (mark_committed now) s.allocations (KeepsKey-committed now)
              closed rows)))

  pub commit_loop-Commits :
      (l : List Allocation) (s : Store)
      → IsSoundStore s
      → AreHeld company l s.allocations
      → Post (λ _ t. Commits s l t) (commit_loop company now l s)
  unfolding commit_loop commit_one
  commit_loop-Commits [] s v rows = record {
    sound = v;
    shipped = λ k. +ℤ-zero (hand_at k s.stocks);
    others = SameOthers-refl s;
  }
  commit_loop-Commits (a ∷ tail) s v rows = elim (Bool-cases (ltb_ℤ a.qty (picked_or_reserved a))) [
    | inl over ↦ rw over tt
    | inr within ↦
        commit_step a tail s v rows within (λ t w held. commit_loop-Commits tail t w held)
  ]

  found_own :
      (order : ℕ) (s : Store) (a : Allocation)
      → ((a.company == company) && on_active_line order s a.line && is_open a) ≡ true
      → (a.company ≡ company) × (is_open a ≡ true)
  found_own order s a h = ground arith

  -- What the loop asks of every allocation.
  abbrev pub IsWithin : Allocation → Type 0
  IsWithin a = ltb_ℤ a.qty (picked_or_reserved a) ≡ false

  commit_loop_runs :
      (l : List Allocation) (s : Store)
      → IsSoundStore s
      → AreHeld company l s.allocations
      → All IsWithin l
      → (t : Store) × (commit_loop company now l s ≡ ok tt t)
  unfolding commit_loop
  commit_loop_runs [] s v rows within = (s, refl)
  commit_loop_runs (a ∷ tail) s v rows within =
      let (l, m, upd, closed) = commit_one_lem a s v rows.found.0 rows.own.0.0 in
      let (t, ran) =
        commit_loop_runs tail (after_commit s l m)
          (commit_one-IsSound a s v rows.found.0 rows.own.0 rows.nonneg.0 within.0 upd closed)
          (AreHeld-tail company a tail (mark_committed now) s.allocations (KeepsKey-committed now)
            closed rows)
          within.1 in
      (t, rw (commit_runs a s within.0 upd closed, ◌>>=◌) ran)

  -- On a sound ledger an order with open allocations on its active lines, none of them picked beyond
  -- its reservation, is committed without an error.
  pub commit_order_returns :
      (order : ℕ) (s : Store)
      → IsSoundStore s
      → (length (to_commit company order s) == 0) ≡ false
      → All IsWithin (to_commit company order s)
      → (t : Store) × (commit_order company order now s ≡ ok (to_commit company order s) t)
        × Commits s (to_commit company order s) t
  unfolding commit_order
  commit_order_returns order s v some_found within =
      let l = to_commit company order s in
      let rows =
        AreHeld-keep company _ s.allocations v.allocation_ids v.nonneg (found_own order s) in
      let (t, ran) = commit_loop_runs l s v rows within in
      (
        t,
        rw some_found (bind-ok (commit_loop company now l) (λ _. pure l) s ran),
        subst (Post (λ _ u. Commits s l u)) ran (commit_loop-Commits l s v rows),
      )

  pub commit_order-Commits :
      (order : ℕ) (s : Store)
      → IsSoundStore s
      → Post
          (λ l t. (l ≡ to_commit company order s) × Commits s l t)
          (commit_order company order now s)
  unfolding commit_order
  commit_order-Commits order s v = elim (Bool-cases (length (to_commit company order s) == 0)) [
    | inl empty ↦ rw empty tt
    | inr some_found ↦ rw some_found (
        Post-bind (λ _ t. Commits s (to_commit company order s) t)
          (λ l t. (l ≡ to_commit company order s) × Commits s l t)
          (commit_loop company now (to_commit company order s))
          (λ _. pure (to_commit company order s)) s
          (commit_loop-Commits (to_commit company order s) s v
            (AreHeld-keep company _ s.allocations v.allocation_ids v.nonneg (found_own order s)))
          (λ _ t _ c. (refl, c)))
  ]
