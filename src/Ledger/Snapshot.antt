-- ===== src/Ledger/Snapshot.antt =====
-- The open allocations that a query returns: rows of the table, each once, which stay rows of the
-- table while the others are updated.
use warehousehub.Base.{
  ℕ, ◌≡◌, Bool, true, false, pos, ◌≤ℤ◌, some, List, [], ◌∷◌, ◌==◌, arith, keep, All, All-map,
  All-keep, All-keep_test, Distinct, Distinct-keep, find_by, find_by-Distinct, update_first,
  find_by-update_first,
}
use warehousehub.Db.{Allocation, is_open}
use warehousehub.Ledger.{same_allocation}
use warehousehub.Ledger.Steps.{KeepsKey, same_allocation_refl, same_allocation_symm}

pub record AreHeld (company : ℕ) (l : List Allocation) (allocations : List Allocation)
    : Type 0 where
  pub found : All (λ a. find_by (λ b. b.id == a.id) allocations ≡ some a) l
  pub distinct : Distinct same_allocation l
  pub own : All (λ a. (a.company ≡ company) × (is_open a ≡ true)) l
  pub nonneg : All (λ a. pos 0 ≤ℤ a.qty) l

pub AreHeld-keep :
    (company : ℕ) (p : Allocation → Bool) (allocations : List Allocation)
    → Distinct same_allocation allocations
    → All (λ a. pos 0 ≤ℤ a.qty) allocations
    → ((a : Allocation) → p a ≡ true → (a.company ≡ company) × (is_open a ≡ true))
    → AreHeld company (keep p allocations) allocations
AreHeld-keep company p allocations d nonneg own = record {
  found =
      All-keep _ p allocations
        (find_by-Distinct same_allocation same_allocation_refl same_allocation_symm allocations d);
  distinct = Distinct-keep same_allocation p allocations d;
  own =
      All-map (λ a. p a ≡ true) (λ a. (a.company ≡ company) × (is_open a ≡ true)) own
        (keep p allocations) (All-keep_test p allocations);
  nonneg = All-keep _ p allocations nonneg;
}

pub AreHeld-tail :
    (company : ℕ) (a : Allocation) (l : List Allocation) (g : Allocation → Allocation)
    (allocations : List Allocation) {m : List Allocation}
    → KeepsKey g
    → update_first (λ b. b.id == a.id) g allocations ≡ some m
    → AreHeld company (a ∷ l) allocations
    → AreHeld company l m
AreHeld-tail company a l g allocations {m} same closed rows = record {
  found = later l rows.distinct.0 rows.found.1;
  distinct = rows.distinct.1;
  own = rows.own.1;
  nonneg = rows.nonneg.1;
}
  where
    later :
        (ds : List Allocation)
        → All (λ d. same_allocation d a ≡ false) ds
        → All (λ d. find_by (λ b. b.id == d.id) allocations ≡ some d) ds
        → All (λ d. find_by (λ b. b.id == d.id) m ≡ some d) ds
    later [] _ _ = tt
    later (d ∷ ds) apart found = (
      rw
          (find_by-update_first (λ b. b.id == d.id) (λ b. b.id == a.id) g allocations closed
            (λ b h. ground (arith, same b)))
          found.0,
      later ds apart.1 found.1,
    )
