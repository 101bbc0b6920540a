-- ===== src/Picking/Manual/Safety.antt =====
-- A manual pick reserves no more than is available, and keeps the ledger sound.
use warehousehub.Base.{
  ℕ, ◌≡◌, refl, false, ℤ, pos, ◌≤ℤ◌, ltb_ℤ, leb_ℤ, some, List, ◌∷◌, ◌==◌, arith, find_by,
  find_by-All, find_by-Distinct, find_by_test, update_first, update_first_total, Bool-cases,
  Option-cases, inl, inr,
}
use warehousehub.Db.{
  Store, Stock, Line, Engine, IsEngine, ok, Post, update_stock, insert_allocation,
}
use warehousehub.Ledger.{IsSoundStore, same_stock}
use warehousehub.Ledger.Steps.{reserve-IsSound, same_stock_refl, same_stock_symm}
use warehousehub.Ledger.Safe.{Safe}
use warehousehub.Picking.Reserve.{add_reserved, available}
use warehousehub.Picking.Manual.{
  ManualPick, manual_allocation, find_stock_of_item, reserve_manually,
}

module _ (e : Engine) (laws : IsEngine e) (company : ℕ) (line : Line) (dto : ManualPick)
    (now : ℕ) where
  abbrev after_manual : Store → List Stock → Store
  after_manual s l =
      let s₁ = record s { stocks = l } in
      record s₁ {
        allocations = manual_allocation (e.new_id s₁) company line.id dto now ∷ s.allocations;
      }

  manual_runs :
      (s : Store) (r : Stock) {l : List Stock}
      → leb_ℤ dto.qty (pos 0) ≡ false
      → find_stock_of_item company dto line.item s ≡ some r
      → ltb_ℤ (available r) dto.qty ≡ false
      → update_first (λ x. x.id == r.id) (add_reserved dto.qty) s.stocks ≡ some l
      → reserve_manually e company line dto now s ≡ ok tt (after_manual s l)
  unfolding reserve_manually update_stock insert_allocation
  manual_runs s r positive found room upd = ground arith

  key_facts :
      (s : Store) (r : Stock)
      → find_stock_of_item company dto line.item s ≡ some r
      → (company ≡ r.company) × (dto.warehouse ≡ r.warehouse) × (dto.lot ≡ r.lot)
  key_facts s r found = ground (arith, find_by_test _ s.stocks found)

  bounds :
      (qty room : ℤ)
      → leb_ℤ qty (pos 0) ≡ false
      → ltb_ℤ room qty ≡ false
      → (pos 0 ≤ℤ qty) × (qty ≤ℤ room)
  bounds qty room h k = ground arith

  by_id :
      (s : Store) (r : Stock)
      → IsSoundStore s
      → find_stock_of_item company dto line.item s ≡ some r
      → find_by (λ x. x.id == r.id) s.stocks ≡ some r
  by_id s r v found =
      find_by-All (λ c. find_by (λ x. x.id == c.id) s.stocks ≡ some c) _ s.stocks found
        (find_by-Distinct same_stock same_stock_refl same_stock_symm s.stocks v.stock_ids)

  checked :
      (s : Store)
      → IsSoundStore s
      → (r : Stock) → leb_ℤ dto.qty (pos 0) ≡ false
      → find_stock_of_item company dto line.item s ≡ some r
      → ltb_ℤ (available r) dto.qty ≡ false
      → Post (λ _ t. IsSoundStore t) (reserve_manually e company line dto now s)
  checked s v r positive found room =
      let row = by_id s r v found in
      let (l, upd) = update_first_total (λ x. x.id == r.id) (add_reserved dto.qty) s.stocks row in
      let s₁ = record s { stocks = l } in
      let key = key_facts s r found in
      let in_range = bounds dto.qty (available r) positive room in
      rw (manual_runs s r positive found room upd) (
        reserve-IsSound s.stocks s.allocations v r
          (manual_allocation (e.new_id s₁) company line.id dto now) dto.qty (add_reserved dto.qty)
          row upd (λ x. (refl, refl, refl, refl)) refl refl in_range.0 in_range.1
          (key.0, key.1, key.2, refl) refl (laws.new_id-allocations s₁))

  pub reserve_manually-Safe : Safe (reserve_manually e company line dto now)
  unfolding reserve_manually
  reserve_manually-Safe = record {
    apply = λ s v. elim (Bool-cases (leb_ℤ dto.qty (pos 0))) [
      | inl bad ↦ rw bad tt
      | inr positive ↦ elim (Option-cases (find_stock_of_item company dto line.item s)) [
        | inl missing ↦ rw (positive, missing) tt
        | inr (r, found) ↦ elim (Bool-cases (ltb_ℤ (available r) dto.qty)) [
          | inl short ↦ rw (positive, found) (rw short tt)
          | inr room ↦ checked s v r positive found room
        ]
      ]
    ];
  }
