-- ===== src/Picking/Reserve/Step.antt =====
-- One candidate of the reservation loop: it succeeds, and keeps the ledger sound.
use warehousehub.Base.{
  ℕ, ◌≡◌, refl, false, ℤ, pos, ◌≤ℤ◌, some, List, [], ◌∷◌, ◌==◌, arith, All, Distinct, find_by,
  update_first, update_first_total, find_by-update_first,
}
use warehousehub.Db.{Store, Stock, Engine, IsEngine, ok, update_stock, insert_allocation}
use warehousehub.Ledger.{IsSoundStore, same_stock}
use warehousehub.Ledger.Steps.{reserve-IsSound}
use warehousehub.Picking.Reserve.{reserve_one, auto_allocation, add_reserved, available}

-- The candidates are rows of the table, each once.
pub record AreRows (company : ℕ) (cs : List Stock) (stocks : List Stock) : Type 0 where
  pub found : All (λ c. find_by (λ r. r.id == c.id) stocks ≡ some c) cs
  pub distinct : Distinct same_stock cs
  pub of_company : All (λ c. c.company ≡ company) cs

module _ (e : Engine) (company line now : ℕ) where
  -- The store after one candidate.
  abbrev pub after_one : Stock → ℤ → Store → List Stock → Store
  after_one c take s l =
      let s₁ = record s { stocks = l } in
      record s₁ {
        allocations = auto_allocation (e.new_id s₁) company line now c take ∷ s.allocations;
      }

  pub reserve_one_runs :
      (c : Stock) (take : ℤ) (s : Store) {l : List Stock}
      → update_first (λ r. r.id == c.id) (add_reserved take) s.stocks ≡ some l
      → reserve_one e company line now c take s ≡ ok tt (after_one c take s l)
  unfolding reserve_one update_stock insert_allocation
  reserve_one_runs c take s upd = ground arith

  pub reserve_one_lem :
      (c : Stock) (take : ℤ) (s : Store)
      → find_by (λ r. r.id == c.id) s.stocks ≡ some c
      → (l : List Stock) × (update_first (λ r. r.id == c.id) (add_reserved take) s.stocks ≡ some l)
        × (reserve_one e company line now c take s ≡ ok tt (after_one c take s l))
  reserve_one_lem c take s found =
      let (l, upd) = update_first_total (λ r. r.id == c.id) (add_reserved take) s.stocks found in
      (l, upd, reserve_one_runs c take s upd)

  -- The candidates that follow are still rows of the table.
  pub AreRows-tail :
      (c : Stock) (cs : List Stock) (take : ℤ) (stocks : List Stock) {l : List Stock}
      → update_first (λ r. r.id == c.id) (add_reserved take) stocks ≡ some l
      → AreRows company (c ∷ cs) stocks
      → AreRows company cs l
  AreRows-tail c cs take stocks {l} upd rows = record {
    found = later cs rows.distinct.0 rows.found.1;
    distinct = rows.distinct.1;
    of_company = rows.of_company.1;
  }
    where
      later :
          (ds : List Stock)
          → All (λ d. same_stock d c ≡ false) ds
          → All (λ d. find_by (λ r. r.id == d.id) stocks ≡ some d) ds
          → All (λ d. find_by (λ r. r.id == d.id) l ≡ some d) ds
      later [] _ _ = tt
      later (d ∷ ds) apart found = (
        rw
            (find_by-update_first (λ r. r.id == d.id) (λ r. r.id == c.id) (add_reserved take) stocks
              upd (λ r h. ground arith))
            found.0,
        later ds apart.1 found.1,
      )

  module _ (laws : IsEngine e) where
    pub reserve_one-IsSound :
        (c : Stock) (take : ℤ) (s : Store) {l : List Stock}
        → IsSoundStore s
        → find_by (λ r. r.id == c.id) s.stocks ≡ some c
        → update_first (λ r. r.id == c.id) (add_reserved take) s.stocks ≡ some l
        → c.company ≡ company
        → pos 0 ≤ℤ take
        → take ≤ℤ available c
        → IsSoundStore (after_one c take s l)
    reserve_one-IsSound c take s {l} v found upd own nonneg room =
        let s₁ = record s { stocks = l } in
        reserve-IsSound s.stocks s.allocations v c
          (auto_allocation (e.new_id s₁) company line now c take) take (add_reserved take) found upd
          (λ r. (refl, refl, refl, refl)) refl refl nonneg room (ground arith, refl, refl, refl)
          refl (laws.new_id-allocations s₁)
