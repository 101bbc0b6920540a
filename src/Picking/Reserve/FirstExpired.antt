-- ===== src/Picking/Reserve/FirstExpired.antt =====
-- The order of the candidates, by the expiry dates of their lots.
use warehousehub.Base.{
  ℕ, ◌≡◌, refl, Bool, true, false, Option, none, some, List, [], ◌∷◌, ◌++◌, arith, leb, keep, All,
  All-map, All-append, All-keep, All-keep_test, All-permᴰ,
}
use warehousehub.Db.{Store, Stock, Engine, IsEngine, IsOrdered, lex_leb}
use warehousehub.Picking.Reserve.{
  candidates, stocks_with_expiry, stocks_no_expiry, has_stock_of, lot_with_expiry,
  lot_without_expiry, lot_row, expiry_column, storage_column,
}

-- When the lot of a row expires; `none` if the lot does not expire.
abbrev pub expiry_of : Store → Stock → Option ℕ
expiry_of s r = elim (lot_row s r) [ none ↦ none | some l ↦ l.expiry ]

-- A lot that does not expire comes after every lot that does.
abbrev pub no_later : Option ℕ → Option ℕ → Bool
no_later none none = true
no_later none (some b) = false
no_later (some a) none = true
no_later (some a) (some b) = leb a b

dated :
    (company item : ℕ) (s : Store) (c : Stock)
    → has_stock_of company (lot_with_expiry item) s c ≡ true
    → expiry_of s c ≡ some (expiry_column s c)
dated company item s c h = ground arith

undated :
    (company item : ℕ) (s : Store) (c : Stock)
    → has_stock_of company (lot_without_expiry item) s c ≡ true
    → expiry_of s c ≡ none
undated company item s c h = ground arith

by_first_column : (a b : ℕ) (xs ys : List ℕ) → lex_leb (a ∷ xs) (b ∷ ys) ≡ true → leb a b ≡ true
by_first_column a b xs ys h = ground arith

module _ {A : Type 0} where
  IsOrdered-map :
      (P : A → Type 0) (le le' : A → A → Bool)
      → ((x y : A) → P x → P y → le x y ≡ true → le' x y ≡ true)
      → (l : List A) → All P l
      → IsOrdered le l
      → IsOrdered le' l
  IsOrdered-map P le le' f [] h o = tt
  IsOrdered-map P le le' f (x ∷ xs) h o = (both xs h.1 o.0, IsOrdered-map P le le' f xs h.1 o.1)
    where
      both : (ys : List A) → All P ys → All (λ y. le x y ≡ true) ys → All (λ y. le' x y ≡ true) ys
      both [] _ _ = tt
      both (y ∷ ys) hy oy = (f x y h.0 hy.0 oy.0, both ys hy.1 oy.1)

  IsOrdered-append :
      (le : A → A → Bool) (xs ys : List A)
      → IsOrdered le xs
      → IsOrdered le ys
      → All (λ x. All (λ y. le x y ≡ true) ys) xs
      → IsOrdered le (xs ++ ys)
  IsOrdered-append le [] ys ox oy h = oy
  IsOrdered-append le (x ∷ xs) ys ox oy h =
      (All-append _ xs ys ox.0 h.0, IsOrdered-append le xs ys ox.1 oy h.1)

  pairs_of :
      (P Q : A → Type 0) (R : A → A → Type 0)
      → ((x y : A) → P x → Q y → R x y)
      → (xs ys : List A) → All P xs
      → All Q ys
      → All (λ x. All (R x) ys) xs
  pairs_of P Q R f [] ys hx hy = tt
  pairs_of P Q R f (x ∷ xs) ys hx hy =
      (All-map Q (R x) (λ y h. f x y hx.0 h) ys hy, pairs_of P Q R f xs ys hx.1 hy)

module _ (e : Engine) (laws : IsEngine e) (company item : ℕ) (s : Store) where
  query_tests :
      (key : Stock → List ℕ) (p : Stock → Bool)
      → All (λ c. p c ≡ true) (e.order_stocks key (keep p s.stocks))
  query_tests key p =
      All-permᴰ _ (laws.order_stocks-permᴰ key (keep p s.stocks)) (All-keep_test p s.stocks)

  expiring :
      All
        (λ c. has_stock_of company (lot_with_expiry item) s c ≡ true)
        (stocks_with_expiry e company item s)
  expiring = query_tests _ (has_stock_of company (lot_with_expiry item) s)

  lasting :
      All
        (λ c. has_stock_of company (lot_without_expiry item) s c ≡ true)
        (stocks_no_expiry e company item s)
  lasting = query_tests _ (has_stock_of company (lot_without_expiry item) s)

  -- By the expiry date, the rows without one last.
  pub candidates-IsOrdered :
      IsOrdered (λ c d. no_later (expiry_of s c) (expiry_of s d)) (candidates e company item s)
  unfolding candidates
  candidates-IsOrdered =
      IsOrdered-append _ (stocks_with_expiry e company item s) (stocks_no_expiry e company item s)
        (IsOrdered-map (λ c. has_stock_of company (lot_with_expiry item) s c ≡ true) _ _
          (λ c d hc hd h.
            rw (dated company item s c hc, dated company item s d hd)
              (by_first_column (expiry_column s c) (expiry_column s d) (storage_column s c ∷ [])
                (storage_column s d ∷ []) h))
          (stocks_with_expiry e company item s) expiring (laws.order_stocks-IsOrdered _ _))
        (IsOrdered-map (λ c. has_stock_of company (lot_without_expiry item) s c ≡ true) _ _
          (λ c d hc hd h. rw (undated company item s c hc, undated company item s d hd) refl)
          (stocks_no_expiry e company item s) lasting (laws.order_stocks-IsOrdered _ _))
        (pairs_of (λ c. has_stock_of company (lot_with_expiry item) s c ≡ true)
          (λ d. has_stock_of company (lot_without_expiry item) s d ≡ true) _
          (λ c d hc hd. rw (dated company item s c hc, undated company item s d hd) refl)
          (stocks_with_expiry e company item s) (stocks_no_expiry e company item s) expiring
          lasting)

  -- A predicate of all stock rows holds of the candidates.
  pub candidates-All : (P : Stock → Type 0) → All P s.stocks → All P (candidates e company item s)
  unfolding candidates
  candidates-All P h =
      All-append P (stocks_with_expiry e company item s) (stocks_no_expiry e company item s)
        (All-permᴰ P (laws.order_stocks-permᴰ _ _) (All-keep P _ s.stocks h))
        (All-permᴰ P (laws.order_stocks-permᴰ _ _) (All-keep P _ s.stocks h))
