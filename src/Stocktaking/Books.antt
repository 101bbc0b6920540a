-- ===== src/Stocktaking/Books.antt =====
-- The correction of one stock row and its journal line.
use warehousehub.Base.{
  ℕ, ◌≡◌, refl, ap, ◌∙◌, subst, true, false, ℤ, pos, ◌+ℤ◌, ◌≤ℤ◌, int_laws, +ℤ-zero, ltb_ℤ, Option,
  none, some, List, ◌∷◌, ◌==◌, arith, All, sum_of-update_first, All-update_first, find_by,
  find_by_test, find_by-All, find_by-Distinct, update_first, Distinct-update_first, Bool-cases,
  Option-cases, inl, inr,
}
use warehousehub.Db.{
  Store, Stock, has_key, InventoryTxLine, Engine, IsEngine, Post, update_stock, insert_stock,
  insert_tx_line, ◌>>=◌,
}
use warehousehub.Ledger.{same_stock, same_key, hand_by, hand_at}
use warehousehub.Ledger.Steps.{
  same_stock_refl, same_stock_symm, same_key_refl, same_key_symm, some-eq,
}
use warehousehub.Journal.{delta_by, journal_at, Books, Books-refl, Books-trans}
use warehousehub.Ledger.{lot_key}
use warehousehub.Transfers.{find_stock}
use warehousehub.Transfers.Rows.{IsShelved}
use warehousehub.Transfers.Balance.{none_found}
use warehousehub.Stocktaking.{adjust_row}

abbrev pub IsNonnegative : List Stock → Type 0
IsNonnegative stocks = All (λ r. pos 0 ≤ℤ r.on_hand) stocks

-- A correction: the journal accounts for it, and no row holds less than nothing.
pub record Corrects (company : ℕ) (s t : Store) : Type 0 where
  pub books : Books company s t
  pub nonnegative : IsNonnegative t.stocks

-- One step of a correction.
pub record Adjusts (company : ℕ) (s t : Store) : Type 0 where
  pub books : Books company s t
  pub stays_nonnegative : IsNonnegative s.stocks → IsNonnegative t.stocks

pub Adjusts-refl : (company : ℕ) (s : Store) → IsShelved s.stocks → Adjusts company s s
Adjusts-refl company s v = record { books = Books-refl company s v; stays_nonnegative = λ n. n }

pub Adjusts-trans :
    (company : ℕ) (s t u : Store) → Adjusts company s t → Adjusts company t u → Adjusts company s u
Adjusts-trans company s t u h k = record {
  books = Books-trans company s t u h.books k.books;
  stays_nonnegative = λ n. k.stays_nonnegative (h.stays_nonnegative n);
}

both_grow : (h j d : ℤ) → (d +ℤ h) +ℤ j ≡ h +ℤ (d +ℤ j)
both_grow h j d = grind int_laws

row_grows : (x x' u u' d j : ℤ) → x' +ℤ u ≡ x +ℤ u' → u' ≡ u +ℤ d → x' +ℤ j ≡ x +ℤ (d +ℤ j)
row_grows x x' u u' d j p q = grind int_laws

module _ (e : Engine) (laws : IsEngine e) (company tx warehouse lot : ℕ) (delta : ℤ) where
  abbrev entry : InventoryTxLine
  entry = record { tx = tx; warehouse = warehouse; lot = lot; qty_delta = delta; unit_cost = none }

  abbrev new_row : ℕ → Stock
  new_row id = record {
    id = id;
    company = company;
    warehouse = warehouse;
    lot = lot;
    on_hand = delta;
    reserved = pos 0;
  }

  hand_by-new :
      (w l : ℕ) (id : ℕ)
      → hand_by (lot_key company w l) (new_row id) ≡ delta_by (lot_key company w l) entry
  hand_by-new w l id = ground arith

  hand_by-corrected :
      (w l : ℕ) (r : Stock)
      → has_key (lot_key company warehouse lot) r ≡ true
      → hand_by (lot_key company w l) (record r { on_hand = r.on_hand +ℤ delta })
        ≡ hand_by (lot_key company w l) r +ℤ delta_by (lot_key company w l) entry
  hand_by-corrected w l r at = ground (arith, +ℤ-zero (pos 0))

  Adjusts-new :
      (s : Store)
      → IsShelved s.stocks
      → find_stock (lot_key company warehouse lot) s ≡ none
      → ltb_ℤ (pos 0) delta ≡ true
      → Adjusts company s
          (record s { stocks = new_row (e.new_id s) ∷ s.stocks; tx_lines = entry ∷ s.tx_lines })
  Adjusts-new s v missing more = record {
    books = record {
      shelved = record {
        ids = (laws.new_id-stocks s, v.ids);
        keys = (none_found (has_key (lot_key company warehouse lot)) s.stocks missing, v.keys);
      };
      booked = λ w l.
          let key = lot_key company w l in
          ap (λ x. (x +ℤ hand_at key s.stocks) +ℤ journal_at key s.tx_lines)
            (hand_by-new w l (e.new_id s))
          ∙ both_grow (hand_at key s.stocks) (journal_at key s.tx_lines) (delta_by key entry);
    };
    stays_nonnegative = λ n. (ground arith, n);
  }

  Adjusts-row :
      (s : Store) (r : Stock) {m : List Stock}
      → IsShelved s.stocks
      → find_stock (lot_key company warehouse lot) s ≡ some r
      → ltb_ℤ (r.on_hand +ℤ delta) (pos 0) ≡ false
      → update_first (λ x. x.id == r.id) (λ x. record x { on_hand = r.on_hand +ℤ delta }) s.stocks
        ≡ some m
      → Adjusts company s (record s { stocks = m; tx_lines = entry ∷ s.tx_lines })
  Adjusts-row s r {m} v found enough upd =
      let p = λ (x : Stock). x.id == r.id in
      let f = λ (x : Stock). record x { on_hand = r.on_hand +ℤ delta } in
      let row : find_by p s.stocks ≡ some r =
        find_by-All (λ c. find_by (λ x. x.id == c.id) s.stocks ≡ some c) _ s.stocks found
          (find_by-Distinct same_stock same_stock_refl same_stock_symm s.stocks v.ids) in
      record {
        books = record {
          shelved = record {
            ids =
                Distinct-update_first same_stock same_stock_refl same_stock_symm p f s.stocks upd
                  (λ a b. refl) v.ids;
            keys =
                Distinct-update_first same_key same_key_refl same_key_symm p f s.stocks upd
                  (λ a b. refl) v.keys;
          };
          booked = λ w l.
              let key = lot_key company w l in
              let (x, hit, moved) = sum_of-update_first (hand_by key) p f s.stocks upd in
              let is_r : x ≡ r = some-eq (find_by p s.stocks) row hit in
              row_grows (hand_at key s.stocks) (hand_at key m) (hand_by key r) (hand_by key (f r))
                (delta_by key entry) (journal_at key s.tx_lines)
                (subst
                  (λ y. hand_at key m +ℤ hand_by key y ≡ hand_at key s.stocks +ℤ hand_by key (f y))
                  is_r moved)
                (hand_by-corrected w l r (find_by_test _ s.stocks found));
        };
        stays_nonnegative = λ n.
            All-update_first (λ x. pos 0 ≤ℤ x.on_hand) p f s.stocks upd
              (λ _ _ _. not_below (r.on_hand +ℤ delta) enough) n;
      }
    where
      not_below : (x : ℤ) → ltb_ℤ x (pos 0) ≡ false → pos 0 ≤ℤ x
      not_below x h = ground arith

  pub adjust_row-Adjusts :
      (s : Store)
      → IsShelved s.stocks
      → (o : Option Stock) → find_stock (lot_key company warehouse lot) s ≡ o
      → Post (λ _ t. Adjusts company s t) (adjust_row e company tx warehouse lot delta o s)
  unfolding adjust_row insert_stock insert_tx_line update_stock
  adjust_row-Adjusts s v none missing = elim (Bool-cases (ltb_ℤ (pos 0) delta)) [
    | inl more ↦ rw more (Adjusts-new s v missing more)
    | inr nothing ↦ rw nothing (Adjusts-refl company s v)
  ]
  adjust_row-Adjusts s v (some r) found = elim (Bool-cases (ltb_ℤ (r.on_hand +ℤ delta) (pos 0))) [
    | inl below ↦ rw below tt
    | inr enough ↦
        elim (Option-cases (
          update_first (λ x. x.id == r.id) (λ x. record x { on_hand = r.on_hand +ℤ delta })
            s.stocks)) [
              | inl gone ↦ rw enough (rw (gone, ◌>>=◌, update_stock) tt)
              | inr (m, upd) ↦
                  rw enough (rw (upd, ◌>>=◌, update_stock) (Adjusts-row s r v found enough upd))
            ]
  ]
