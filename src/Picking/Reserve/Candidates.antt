-- ===== src/Picking/Reserve/Candidates.antt =====
-- The candidates of a reservation are rows of the stock table, each once, whatever order the
-- database chose among equals.
use warehousehub.Base.{
  ℕ, ◌≡◌, subst, Bool, true, false, Option, some, List, [], ◌∷◌, ◌==◌, arith, keep, All, All-map,
  All-append, All-keep, All-keep_test, All-permᴰ, Distinct, Distinct-keep, Distinct-append,
  Distinct-permᴰ, find_by, find_by-Distinct, Bool-cases, inl, inr,
}
use warehousehub.Db.{Store, Stock, Lot, Engine, IsEngine}
use warehousehub.Ledger.{IsSoundStore, same_stock}
use warehousehub.Ledger.Steps.{same_stock_refl, same_stock_symm}
use warehousehub.Picking.Reserve.{
  candidates, stocks_with_expiry, stocks_no_expiry, has_stock_of, lot_with_expiry,
  lot_without_expiry,
}
use warehousehub.Picking.Reserve.Step.{AreRows}

-- A row that a query found.
abbrev IsHit : (Stock → Bool) → List Stock → Stock → Type 0
IsHit p stocks c = (find_by (λ r. r.id == c.id) stocks ≡ some c) × (p c ≡ true)

hits-keep :
    (p : Stock → Bool) (stocks : List Stock)
    → Distinct same_stock stocks
    → All (IsHit p stocks) (keep p stocks)
hits-keep p stocks d =
    both (keep p stocks)
      (All-keep _ p stocks (find_by-Distinct same_stock same_stock_refl same_stock_symm stocks d))
      (All-keep_test p stocks)
  where
    both :
        (l : List Stock)
        → All (λ c. find_by (λ r. r.id == c.id) stocks ≡ some c) l
        → All (λ c. p c ≡ true) l
        → All (IsHit p stocks) l
    both [] _ _ = tt
    both (c ∷ l) f t = ((f.0, t.0), both l f.1 t.1)

-- Rows found by tests that exclude each other are different rows.
apart :
    (p q : Stock → Bool) (stocks : List Stock)
    → ((c : Stock) → p c ≡ true → q c ≡ true → ⊥)
    → (x y : Stock) → IsHit p stocks x
    → IsHit q stocks y
    → same_stock y x ≡ false
apart p q stocks exclude x y hx hy = elim (Bool-cases (same_stock y x)) [
  | inl e ↦
      let ids : y.id ≡ x.id = ground arith in
      let found : find_by (λ r. r.id == x.id) stocks ≡ some y =
        subst (λ i. find_by (λ r. r.id == i) stocks ≡ some y) ids hy.0 in
      let one : y ≡ x = cc (hx.0, found) in
      absurd (exclude x hx.1 (subst (λ c. q c ≡ true) one hy.1))
  | inr e ↦ e
]

cross :
    (p q : Stock → Bool) (stocks : List Stock)
    → ((c : Stock) → p c ≡ true → q c ≡ true → ⊥)
    → (xs ys : List Stock) → All (IsHit p stocks) xs
    → All (IsHit q stocks) ys
    → All (λ x. All (λ y. same_stock y x ≡ false) ys) xs
cross p q stocks exclude [] ys hx hy = tt
cross p q stocks exclude (x ∷ xs) ys hx hy = (
  All-map (IsHit q stocks) (λ y. same_stock y x ≡ false)
      (λ y h. apart p q stocks exclude x y hx.0 h) ys hy,
  cross p q stocks exclude xs ys hx.1 hy,
)

exclusive :
    (company item : ℕ) (s : Store) (c : Stock)
    → has_stock_of company (lot_with_expiry item) s c ≡ true
    → has_stock_of company (lot_without_expiry item) s c ≡ true
    → ⊥
exclusive company item s c p q = ground arith

own_company :
    (company : ℕ) (test : Option Lot → Bool) (s : Store) (c : Stock)
    → has_stock_of company test s c ≡ true
    → c.company ≡ company
own_company company test s c h = ground arith

module _ (e : Engine) (laws : IsEngine e) (stocks : List Stock)
    (d : Distinct same_stock stocks) where
  query_hits :
      (key : Stock → List ℕ) (p : Stock → Bool)
      → All (IsHit p stocks) (e.order_stocks key (keep p stocks))
  query_hits key p =
      All-permᴰ (IsHit p stocks) (laws.order_stocks-permᴰ key (keep p stocks))
        (hits-keep p stocks d)

  query-Distinct :
      (key : Stock → List ℕ) (p : Stock → Bool)
      → Distinct same_stock (e.order_stocks key (keep p stocks))
  query-Distinct key p =
      Distinct-permᴰ same_stock same_stock_symm (laws.order_stocks-permᴰ key (keep p stocks))
        (Distinct-keep same_stock p stocks d)

module _ (e : Engine) (laws : IsEngine e) (company item : ℕ) (s : Store) (v : IsSoundStore s) where
  hits-All :
      (P : Stock → Type 0)
      → ((c : Stock) (test : Option Lot → Bool)
          → IsHit (has_stock_of company test s) s.stocks c
          → P c)
      → All P (candidates e company item s)
  unfolding candidates
  hits-All P f =
      All-append P (stocks_with_expiry e company item s) (stocks_no_expiry e company item s)
        (All-map (IsHit (has_stock_of company (lot_with_expiry item) s) s.stocks) P
          (λ c h. f c (lot_with_expiry item) h) (stocks_with_expiry e company item s)
          (query_hits e laws s.stocks v.stock_ids _ _))
        (All-map (IsHit (has_stock_of company (lot_without_expiry item) s) s.stocks) P
          (λ c h. f c (lot_without_expiry item) h) (stocks_no_expiry e company item s)
          (query_hits e laws s.stocks v.stock_ids _ _))

  candidates-Distinct : Distinct same_stock (candidates e company item s)
  unfolding candidates
  candidates-Distinct =
      Distinct-append same_stock (stocks_with_expiry e company item s)
        (stocks_no_expiry e company item s) (query-Distinct e laws s.stocks v.stock_ids _ _)
        (query-Distinct e laws s.stocks v.stock_ids _ _)
        (cross (has_stock_of company (lot_with_expiry item) s)
          (has_stock_of company (lot_without_expiry item) s) s.stocks (exclusive company item s)
          (stocks_with_expiry e company item s) (stocks_no_expiry e company item s)
          (query_hits e laws s.stocks v.stock_ids _ _) (query_hits e laws s.stocks v.stock_ids _ _))

  pub candidates-AreRows : AreRows company (candidates e company item s) s.stocks
  candidates-AreRows = record {
    found = hits-All (λ c. find_by (λ r. r.id == c.id) s.stocks ≡ some c) (λ c test h. h.0);
    distinct = candidates-Distinct;
    of_company = hits-All (λ c. c.company ≡ company) (λ c test h. own_company company test s c h.1);
  }
