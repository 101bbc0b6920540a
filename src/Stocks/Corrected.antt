-- ===== src/Stocks/Corrected.antt =====
-- StocksService.updateStock as a whole: its journal line against the stock row.
use warehousehub.Base.{
  ℕ, Bool, ◌≡◌, true, ℤ, pos, ◌+ℤ◌, ◌-ℤ◌, ◌≤ℤ◌, int_laws, ltb_ℤ, Option, some, List, ◌==◌, ◌&&◌,
  ◌||◌, arith, find_by, find_by_test, find_by-All, find_by-Distinct, Bool-cases, Option-cases, inl,
  inr,
}
use warehousehub.Db.{Store, Stock, Engine, IsEngine, Post, Post-mono}
use warehousehub.Ledger.{same_stock}
use warehousehub.Ledger.Steps.{same_stock_refl, same_stock_symm}
use warehousehub.Journal.{Books}
use warehousehub.Transfers.Rows.{IsShelved}
use warehousehub.Stocks.{in_branches, IsToTenths, find_visible, correct_stock}
use warehousehub.Stocks.Rounded.{IsNear, write_correction-IsNear}

owner :
    (id company : ℕ) (r : Stock) (b : Bool)
    → ((r.id == id) && (r.company == company) && b) ≡ true
    → (r.company == company) ≡ true
owner id company r b h = ground arith

antisym : (a b : ℤ) → a ≤ℤ b +ℤ pos 0 → b ≤ℤ a +ℤ pos 0 → a ≡ b
antisym a b h k = grind int_laws

module _ (e : Engine) (laws : IsEngine e) (to_tenths : ℤ → ℤ) (rounding : IsToTenths to_tenths)
    (company user id : ℕ) (on_hand reserved : ℤ) (branches : Option (List ℕ)) where
  change_above : (n c d : ℤ) → n -ℤ c ≤ℤ d +ℤ pos 50 → n ≤ℤ (c +ℤ d) +ℤ pos 50
  change_above n c d h = grind int_laws

  change_below : (n c d : ℤ) → d ≤ℤ (n -ℤ c) +ℤ pos 50 → c +ℤ d ≤ℤ n +ℤ pos 50
  change_below n c d h = grind int_laws

  -- With unique stock rows a manual correction that does not throw leaves unique rows, and for every
  -- warehouse and lot of the company the change of the physical quantity and the journal line differ by
  -- at most 50 thousandths, half a tenth.
  pub correct_stock-IsNear :
      (s : Store)
      → IsShelved s.stocks
      → Post
          (λ _ t. IsNear company 50 s t)
          (correct_stock e to_tenths company user id on_hand reserved branches s)
  unfolding correct_stock
  correct_stock-IsNear s v = elim (Bool-cases (ltb_ℤ on_hand (pos 0) || ltb_ℤ reserved (pos 0))) [
    | inl negative ↦ rw negative tt
    | inr fine ↦ elim (Option-cases (find_visible company branches id s)) [
      | inl missing ↦ rw (fine, missing) tt
      | inr (r, found) ↦
          rw (fine, found)
            (let rows =
                find_by-Distinct same_stock same_stock_refl same_stock_symm s.stocks v.ids in
              let row =
                find_by-All (λ c. find_by (λ x. x.id == c.id) s.stocks ≡ some c) _ s.stocks found
                  rows in
              let change = to_tenths on_hand -ℤ r.on_hand in
              write_correction-IsNear e company user 50 r (to_tenths on_hand) (to_tenths reserved)
                (to_tenths change)
                (owner id company r (in_branches branches r.warehouse s)
                  (find_by_test _ s.stocks found))
                (change_above (to_tenths on_hand) r.on_hand (to_tenths change)
                  (rounding.near_above change))
                (change_below (to_tenths on_hand) r.on_hand (to_tenths change)
                  (rounding.near_below change))
                s v row)
    ]
  ]

  sure_above : (n c d : ℤ) → d ≡ n -ℤ c → n ≤ℤ (c +ℤ d) +ℤ pos 0
  sure_above n c d h = grind int_laws

  sure_below : (n c d : ℤ) → d ≡ n -ℤ c → c +ℤ d ≤ℤ n +ℤ pos 0
  sure_below n c d h = grind int_laws

  -- If the row holds a whole number of tenths, the journal accounts for the correction exactly.
  pub correct_stock-Exact :
      (s : Store)
      → IsShelved s.stocks
      → (r : Stock) (y : ℤ) → find_visible company branches id s ≡ some r
      → r.on_hand ≡ to_tenths y
      → Post
          (λ _ t. IsNear company 0 s t)
          (correct_stock e to_tenths company user id on_hand reserved branches s)
  unfolding correct_stock
  correct_stock-Exact s v r y found tenths =
      elim (Bool-cases (ltb_ℤ on_hand (pos 0) || ltb_ℤ reserved (pos 0))) [
        | inl negative ↦ rw negative tt
        | inr fine ↦
            rw (fine, found)
              (let rows =
                  find_by-Distinct same_stock same_stock_refl same_stock_symm s.stocks v.ids in
                let row =
                  find_by-All (λ c. find_by (λ x. x.id == c.id) s.stocks ≡ some c) _ s.stocks found
                    rows in
                let change = to_tenths on_hand -ℤ r.on_hand in
                let same : to_tenths change ≡ change = rw tenths (rounding.exact on_hand y) in
                write_correction-IsNear e company user 0 r (to_tenths on_hand) (to_tenths reserved)
                  (to_tenths change)
                  (owner id company r (in_branches branches r.warehouse s)
                    (find_by_test _ s.stocks found))
                  (sure_above (to_tenths on_hand) r.on_hand (to_tenths change) same)
                  (sure_below (to_tenths on_hand) r.on_hand (to_tenths change) same) s v row)
      ]

  -- If the row holds a whole number of tenths, the change of the physical quantity is exactly what the
  -- journal line says, for every warehouse and lot of the company.
  pub correct_stock-Books :
      (s : Store)
      → IsShelved s.stocks
      → (r : Stock) (y : ℤ) → find_visible company branches id s ≡ some r
      → r.on_hand ≡ to_tenths y
      → Post
          (λ _ t. Books company s t)
          (correct_stock e to_tenths company user id on_hand reserved branches s)
  correct_stock-Books s v r y found tenths =
      Post-mono (λ _ t. IsNear company 0 s t) (λ _ t. Books company s t) _
        (λ _ t n. record {
          shelved = n.shelved;
          booked = λ w l. antisym _ _ (n.not_above w l) (n.not_below w l);
        })
        (correct_stock-Exact s v r y found tenths)
