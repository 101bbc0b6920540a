-- ===== src/Picking/Reserve/OfItem.antt =====
-- The two queries for the candidates find together all the stock of the item, each row once.
use mathlib.Core.Path.{ap₂}
use warehousehub.Base.{
  ℕ, ◌≡◌, sym, ◌∙◌, ap, Bool, true, false, ℤ, pos, ◌+ℤ◌, zero-+ℤ, +ℤ-zero, int_laws, Option, none,
  some, List, [], ◌∷◌, ◌++◌, ◌==◌, ◌&&◌, ltb_ℤ, keep, sum_of, sum_of-permᴰ, sum_of-keep, Bool-cases,
  Option-cases, inl, inr, if◌then◌else◌,
}
use warehousehub.Db.{Store, Stock, Lot, Engine, IsEngine}
use warehousehub.Picking.Reserve.{
  candidates, stocks_with_expiry, stocks_no_expiry, has_stock_of, lot_with_expiry,
  lot_without_expiry, lot_row,
}

abbrev lot_of : ℕ → Option Lot → Bool
lot_of item none = false
lot_of item (some l) = l.item == item

-- The stock rows of the company with goods on hand whose lot is one of the item.
abbrev pub stock_of_item : ℕ → ℕ → Store → List Stock
stock_of_item company item s = keep (has_stock_of company (lot_of item) s) s.stocks

module _ {A : Type 0} (w : A → ℤ) where
  sum_of-append : (xs ys : List A) → sum_of w (xs ++ ys) ≡ sum_of w xs +ℤ sum_of w ys
  sum_of-append [] ys = sym (zero-+ℤ (sum_of w ys))
  sum_of-append (x ∷ xs) ys =
      ap (◌+ℤ◌ (w x)) (sum_of-append xs ys) ∙ regroup (w x) (sum_of w xs) (sum_of w ys)
    where
      regroup : (a b c : ℤ) → a +ℤ (b +ℤ c) ≡ (a +ℤ b) +ℤ c
      regroup a b c = omega int_laws

  abbrev counted : (A → Bool) → A → ℤ
  counted p x = if p x then w x else pos 0

  sum_of-parts :
      (p q r : A → Bool)
      → ((x : A) → counted p x +ℤ counted q x ≡ counted r x)
      → (l : List A) → sum_of (counted p) l +ℤ sum_of (counted q) l ≡ sum_of (counted r) l
  sum_of-parts p q r h [] = zero-+ℤ (pos 0)
  sum_of-parts p q r h (x ∷ xs) =
      cross (counted p x) (counted q x) (sum_of (counted p) xs) (sum_of (counted q) xs)
      ∙ ap₂ ◌+ℤ◌ (h x) (sum_of-parts p q r h xs)
    where
      cross : (a b c d : ℤ) → (a +ℤ c) +ℤ (b +ℤ d) ≡ (a +ℤ b) +ℤ (c +ℤ d)
      cross a b c d = omega int_laws

-- A lot of the item expires or does not, so a row counts in one of the queries.
one_of_both :
    (x : ℤ) (ours here : Bool) (item : ℕ) (o : Option Lot)
    → (if ours && here && lot_with_expiry item o then x else pos 0)
        +ℤ (if ours && here && lot_without_expiry item o then x else pos 0)
      ≡ (if ours && here && lot_of item o then x else pos 0)
one_of_both x false here item o = zero-+ℤ (pos 0)
one_of_both x true false item o = zero-+ℤ (pos 0)
one_of_both x true true item none = zero-+ℤ (pos 0)
one_of_both x true true item (some l) = elim (Bool-cases (l.item == item)) [
  | inr other ↦ rw other (zero-+ℤ (pos 0))
  | inl ours ↦ elim (Option-cases l.expiry) [
    | inl lasting ↦ rw (ours, lasting) (zero-+ℤ x)
    | inr (t, dated) ↦ rw (ours, dated) (+ℤ-zero x)
  ]
]

module _ (e : Engine) (laws : IsEngine e) (company item : ℕ) (s : Store) where
  pub sum_of-candidates :
      (w : Stock → ℤ)
      → sum_of w (candidates e company item s) ≡ sum_of w (stock_of_item company item s)
  unfolding candidates
  sum_of-candidates w =
      sum_of-append w (stocks_with_expiry e company item s) (stocks_no_expiry e company item s)
      ∙ ap₂ ◌+ℤ◌ (sym (sum_of-permᴰ w (laws.order_stocks-permᴰ _ _)) ∙ sum_of-keep w _ s.stocks)
          (sym (sum_of-permᴰ w (laws.order_stocks-permᴰ _ _)) ∙ sum_of-keep w _ s.stocks)
      ∙ sum_of-parts w (has_stock_of company (lot_with_expiry item) s)
          (has_stock_of company (lot_without_expiry item) s) (has_stock_of company (lot_of item) s)
          (λ r.
            one_of_both (w r) (r.company == company) (ltb_ℤ (pos 0) r.on_hand) item (lot_row s r))
          s.stocks
      ∙ sym (sum_of-keep w _ s.stocks)
