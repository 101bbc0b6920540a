-- ===== src/Picking/Release/Step.antt =====
-- One allocation of the release loop: it succeeds, and keeps the ledger sound.
use warehousehub.Base.{
  ℕ, ◌≡◌, refl, true, false, ℤ, pos, ◌+ℤ◌, ◌-ℤ◌, ◌≤ℤ◌, int_laws, some, List, [], ◌∷◌, ◌==◌, arith,
  All, Distinct, find_by, find_by-All, exists_by, exists_by-find_by, update_first,
  update_first_total, find_by-update_first, eqb_ℤ, +ℤ-zero, zero-+ℤ, eqb_ℤ-eq, Bool-cases, inl, inr,
}
use warehousehub.Db.{
  Store, Stock, StockKey, has_key, Allocation, is_open, ok, update_stock, update_allocation,
}
use warehousehub.Ledger.{IsSoundStore, same_allocation, key_of, held_by, held_for}
use warehousehub.Ledger.Steps.{close-IsSound, counted_at, KeepsKey}
use warehousehub.Picking.Release.{release_one, released_part, stock_key, sub_reserved}

-- The snapshot of the open allocations of a line: rows of the table, each once.
pub record AreOpen (company line : ℕ) (l : List Allocation) (allocations : List Allocation)
    : Type 0 where
  pub found : All (λ a. find_by (λ b. b.id == a.id) allocations ≡ some a) l
  pub distinct : Distinct same_allocation l
  pub own : All (λ a. (a.company ≡ company) × (a.line ≡ line) × (is_open a ≡ true)) l

sub-add : (a b : ℤ) → a ≡ a -ℤ b +ℤ b
sub-add a b = omega int_laws

-- What is released and what stays make up the allocation, at every key and for every line.
pub held_by-released :
    (now : ℕ) (q : ℤ) (a : Allocation) (k : StockKey)
    → is_open a ≡ true
    → held_by k a ≡ held_by k (released_part now q a a) +ℤ counted_at k a q
held_by-released now q a k opened =
    ground (arith, sub-add a.qty q, zero-+ℤ q, +ℤ-zero (pos 0), eqb_ℤ-eq q a.qty)

pub held_for-released :
    (company line now : ℕ) (q : ℤ) (a : Allocation)
    → a.company ≡ company
    → a.line ≡ line
    → is_open a ≡ true
    → held_for company line a ≡ held_for company line (released_part now q a a) +ℤ q
held_for-released company line now q a own_company own_line opened =
    ground (arith, sub-add a.qty q, zero-+ℤ q, +ℤ-zero (pos 0), eqb_ℤ-eq q a.qty)

KeepsKey-released : (now : ℕ) (q : ℤ) (a : Allocation) → KeepsKey (released_part now q a)
KeepsKey-released now q a b = ground arith

pub released-nonneg :
    (now : ℕ) (q : ℤ) (a : Allocation)
    → pos 0 ≤ℤ a.qty
    → q ≤ℤ a.qty
    → pos 0 ≤ℤ (released_part now q a a).qty
released-nonneg now q a h k = elim (Bool-cases (eqb_ℤ q a.qty)) [
  | inl whole ↦ rw whole h
  | inr part ↦ rw part (omega int_laws)
]

module _ (company line now : ℕ) where
  abbrev pub after_release : Store → List Stock → List Allocation → Store
  after_release s l m = record s { stocks = l; allocations = m }

  pub release_one_runs :
      (a : Allocation) (q : ℤ) (s : Store) {l : List Stock} {m : List Allocation}
      → update_first (has_key (stock_key company a)) (sub_reserved q) s.stocks ≡ some l
      → update_first (λ b. b.id == a.id) (released_part now q a) s.allocations ≡ some m
      → release_one company now a q s ≡ ok tt (after_release s l m)
  unfolding release_one update_stock update_allocation
  release_one_runs a q s upd closed = ground arith

  pub release_one_lem :
      (a : Allocation) (q : ℤ) (s : Store)
      → IsSoundStore s
      → find_by (λ b. b.id == a.id) s.allocations ≡ some a
      → a.company ≡ company
      → (l : List Stock) × (m : List Allocation) × (update_first
            (has_key (stock_key company a))
            (sub_reserved q)
            s.stocks
          ≡ some l)
        × (update_first (λ b. b.id == a.id) (released_part now q a) s.allocations ≡ some m)
  release_one_lem a q s v found own =
      let backed : exists_by (has_key (stock_key company a)) s.stocks ≡ true = rw (← own) (
        find_by-All (λ b. exists_by (has_key (key_of b)) s.stocks ≡ true) (λ b. b.id == a.id)
          s.allocations found v.backed) in
      let (r, row) = exists_by-find_by (has_key (stock_key company a)) s.stocks backed in
      let (l, upd) =
        update_first_total (has_key (stock_key company a)) (sub_reserved q) s.stocks row in
      let (m, closed) =
        update_first_total (λ b. b.id == a.id) (released_part now q a) s.allocations found in
      (l, m, upd, closed)

  pub release_one-IsSound :
      (a : Allocation) (q : ℤ) (s : Store) {l : List Stock} {m : List Allocation}
      → IsSoundStore s
      → find_by (λ b. b.id == a.id) s.allocations ≡ some a
      → a.company ≡ company
      → is_open a ≡ true
      → pos 0 ≤ℤ q
      → q ≤ℤ a.qty
      → update_first (has_key (stock_key company a)) (sub_reserved q) s.stocks ≡ some l
      → update_first (λ b. b.id == a.id) (released_part now q a) s.allocations ≡ some m
      → IsSoundStore (after_release s l m)
  release_one-IsSound a q s v found own opened nonneg le upd closed =
      close-IsSound s.stocks s.allocations v (stock_key company a) a q (sub_reserved q)
        (released_part now q a) upd found closed (λ r. (refl, refl, refl, refl)) (λ r. refl)
        (λ r h. omega int_laws) (own, refl, refl) (KeepsKey-released now q a)
        (released-nonneg now q a
          (find_by-All (λ b. pos 0 ≤ℤ b.qty) (λ b. b.id == a.id) s.allocations found v.nonneg) le)
        (λ k. held_by-released now q a k opened)

  pub AreOpen-tail :
      (a : Allocation) (l : List Allocation) (q : ℤ) (allocations : List Allocation)
      {m : List Allocation}
      → update_first (λ b. b.id == a.id) (released_part now q a) allocations ≡ some m
      → AreOpen company line (a ∷ l) allocations
      → AreOpen company line l m
  AreOpen-tail a l q allocations {m} closed rows = record {
    found = later l rows.distinct.0 rows.found.1;
    distinct = rows.distinct.1;
    own = rows.own.1;
  }
    where
      later :
          (ds : List Allocation)
          → All (λ d. same_allocation d a ≡ false) ds
          → All (λ d. find_by (λ b. b.id == d.id) allocations ≡ some d) ds
          → All (λ d. find_by (λ b. b.id == d.id) m ≡ some d) ds
      later [] _ _ = tt
      later (d ∷ ds) apart found = (
        rw
            (find_by-update_first (λ b. b.id == d.id) (λ b. b.id == a.id) (released_part now q a)
              allocations closed (λ b h. ground arith))
            found.0,
        later ds apart.1 found.1,
      )
