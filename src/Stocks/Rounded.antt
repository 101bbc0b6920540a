-- ===== src/Stocks/Rounded.antt =====
-- StocksService.updateStock: how far the journal may be from the stock row.
use warehousehub.Base.{
  ℕ, Bool, ◌≡◌, refl, subst, true, false, ℤ, pos, ◌+ℤ◌, ◌≤ℤ◌, int_laws, zero-+ℤ, eqb_ℤ, eqb_ℤ-eq,
  none, some, List, ◌∷◌, ◌==◌, ◌&&◌, sum_of-update_first, find_by, update_first,
  Distinct-update_first, Bool-cases, Option-cases, inl, inr, if◌then◌else◌,
}
use warehousehub.Db.{
  Store, Stock, StockKey, InventoryTx, InventoryTxLine, Engine, Post, update_stock, insert_tx,
  insert_tx_line, ◌>>=◌,
}
use warehousehub.Ledger.{same_stock, same_key, hand_by, hand_at, lot_key}
use warehousehub.Ledger.Steps.{
  same_stock_refl, same_stock_symm, same_key_refl, same_key_symm, some-eq,
}
use warehousehub.Journal.{delta_by, journal_at}
use warehousehub.Transfers.Rows.{IsShelved}
use warehousehub.Stocks.{write_correction}

-- The journal is within `slack` of what the stock rows show.
pub record IsNear (company slack : ℕ) (s t : Store) : Type 0 where
  pub shelved : IsShelved t.stocks
  pub not_above :
      (warehouse lot : ℕ)
      → hand_at (lot_key company warehouse lot) t.stocks
          +ℤ journal_at (lot_key company warehouse lot) s.tx_lines
        ≤ℤ hand_at (lot_key company warehouse lot) s.stocks
          +ℤ journal_at (lot_key company warehouse lot) t.tx_lines
          +ℤ pos slack
  pub not_below :
      (warehouse lot : ℕ)
      → hand_at (lot_key company warehouse lot) s.stocks
          +ℤ journal_at (lot_key company warehouse lot) t.tx_lines
        ≤ℤ hand_at (lot_key company warehouse lot) t.stocks
          +ℤ journal_at (lot_key company warehouse lot) s.tx_lines
          +ℤ pos slack

-- x' - x = u' - u, and u' is within 50 of u + d.
shift_above :
    (slack : ℕ) (x x' u u' d j : ℤ)
    → x' +ℤ u ≡ x +ℤ u'
    → u' ≤ℤ (u +ℤ d) +ℤ pos slack
    → x' +ℤ j ≤ℤ (x +ℤ (d +ℤ j)) +ℤ pos slack
shift_above slack x x' u u' d j e h = grind int_laws

shift_below :
    (slack : ℕ) (x x' u u' d j : ℤ)
    → x' +ℤ u ≡ x +ℤ u'
    → u +ℤ d ≤ℤ u' +ℤ pos slack
    → x +ℤ (d +ℤ j) ≤ℤ (x' +ℤ j) +ℤ pos slack
shift_below slack x x' u u' d j e h = grind int_laws

if_above :
    (slack : ℕ) (b : Bool) (n c d : ℤ)
    → n ≤ℤ (c +ℤ d) +ℤ pos slack
    → (if b then n else pos 0)
      ≤ℤ ((if b then c else pos 0) +ℤ (if b then d else pos 0)) +ℤ pos slack
if_above slack true n c d h = h
if_above slack false n c d h = omega int_laws

if_below :
    (slack : ℕ) (b : Bool) (n c d : ℤ)
    → c +ℤ d ≤ℤ n +ℤ pos slack
    → (if b then c else pos 0) +ℤ (if b then d else pos 0) ≤ℤ (if b then n else pos 0) +ℤ pos slack
if_below slack true n c d h = h
if_below slack false n c d h = omega int_laws

module _ (e : Engine) (company user slack : ℕ) (r : Stock) (on_hand reserved delta : ℤ)
    (owned : (r.company == company) ≡ true) (above : on_hand ≤ℤ (r.on_hand +ℤ delta) +ℤ pos slack)
    (below : r.on_hand +ℤ delta ≤ℤ on_hand +ℤ pos slack) where
  abbrev corrected : Stock → Stock
  corrected x = record x { on_hand = on_hand; reserved = reserved }

  abbrev correction : ℕ → InventoryTxLine
  correction tx = record {
    tx = tx;
    warehouse = r.warehouse;
    lot = r.lot;
    qty_delta = delta;
    unit_cost = none;
  }

  -- What the row counts for at a key, with its journal line and without.
  counts_above :
      (w l tx : ℕ)
      → hand_by (lot_key company w l) (corrected r)
        ≤ℤ (hand_by (lot_key company w l) r +ℤ delta_by (lot_key company w l) (correction tx))
          +ℤ pos slack
  counts_above w l tx =
      rw owned (if_above slack ((r.warehouse == w) && (r.lot == l)) on_hand r.on_hand delta above)

  counts_below :
      (w l tx : ℕ)
      → hand_by (lot_key company w l) r +ℤ delta_by (lot_key company w l) (correction tx)
        ≤ℤ hand_by (lot_key company w l) (corrected r) +ℤ pos slack
  counts_below w l tx =
      rw owned (if_below slack ((r.warehouse == w) && (r.lot == l)) on_hand r.on_hand delta below)

  abbrev by_id : Stock → Bool
  by_id x = x.id == r.id

  moved :
      (s : Store) (m : List Stock)
      → find_by by_id s.stocks ≡ some r
      → update_first by_id corrected s.stocks ≡ some m
      → (key : StockKey)
      → hand_at key m +ℤ hand_by key r ≡ hand_at key s.stocks +ℤ hand_by key (corrected r)
  moved s m row upd key =
      let (x, hit, change) = sum_of-update_first (hand_by key) by_id corrected s.stocks upd in
      subst
        (λ y. hand_at key m +ℤ hand_by key y ≡ hand_at key s.stocks +ℤ hand_by key (corrected y))
        (some-eq (find_by by_id s.stocks) row hit) change

  corrected-IsShelved :
      (s : Store) (m : List Stock)
      → IsShelved s.stocks
      → update_first by_id corrected s.stocks ≡ some m
      → IsShelved m
  corrected-IsShelved s m v upd = record {
    ids =
        Distinct-update_first same_stock same_stock_refl same_stock_symm by_id corrected s.stocks
          upd (λ a b. refl) v.ids;
    keys =
        Distinct-update_first same_key same_key_refl same_key_symm by_id corrected s.stocks upd
          (λ a b. refl) v.keys;
  }

  nothing_added : (b : Bool) (j : ℤ) → delta ≡ pos 0 → (if b then delta else pos 0) +ℤ j ≡ j
  nothing_added true j h = rw h (zero-+ℤ j)
  nothing_added false j h = zero-+ℤ j

  written :
      (s : Store) (m : List Stock) (entries : List InventoryTx) (tx : ℕ)
      → IsShelved s.stocks
      → find_by by_id s.stocks ≡ some r
      → update_first by_id corrected s.stocks ≡ some m
      → IsNear company slack s
          (record s { stocks = m; txs = entries; tx_lines = correction tx ∷ s.tx_lines })
  written s m entries tx v row upd = record {
    shelved = corrected-IsShelved s m v upd;
    not_above = λ w l.
        let key = lot_key company w l in
        shift_above slack (hand_at key s.stocks) (hand_at key m) (hand_by key r)
          (hand_by key (corrected r)) (delta_by key (correction tx)) (journal_at key s.tx_lines)
          (moved s m row upd key) (counts_above w l tx);
    not_below = λ w l.
        let key = lot_key company w l in
        shift_below slack (hand_at key s.stocks) (hand_at key m) (hand_by key r)
          (hand_by key (corrected r)) (delta_by key (correction tx)) (journal_at key s.tx_lines)
          (moved s m row upd key) (counts_below w l tx);
  }

  unwritten :
      (s : Store) (m : List Stock) (entries : List InventoryTx)
      → delta ≡ pos 0
      → IsShelved s.stocks
      → find_by by_id s.stocks ≡ some r
      → update_first by_id corrected s.stocks ≡ some m
      → IsNear company slack s (record s { stocks = m; txs = entries })
  unwritten s m entries nothing v row upd =
      let near = written s m entries 0 v row upd in
      let no_entry = λ (key : StockKey).
        nothing_added ((r.warehouse == key.warehouse) && (r.lot == key.lot))
          (journal_at key s.tx_lines) nothing in
      record {
        shelved = near.shelved;
        not_above = λ w l.
            let key = lot_key company w l in
            subst
              (λ j.
                hand_at key m +ℤ journal_at key s.tx_lines
                ≤ℤ (hand_at key s.stocks +ℤ j) +ℤ pos slack)
              (no_entry key) (near.not_above w l);
        not_below = λ w l.
            let key = lot_key company w l in
            subst
              (λ j.
                hand_at key s.stocks +ℤ j
                ≤ℤ (hand_at key m +ℤ journal_at key s.tx_lines) +ℤ pos slack)
              (no_entry key) (near.not_below w l);
      }

  pub write_correction-IsNear :
      (s : Store)
      → IsShelved s.stocks
      → find_by by_id s.stocks ≡ some r
      → Post
          (λ _ t. IsNear company slack s t)
          (write_correction e company user r on_hand reserved delta s)
  unfolding write_correction update_stock insert_tx insert_tx_line
  write_correction-IsNear s v row = elim (Option-cases (update_first by_id corrected s.stocks)) [
    | inl missing ↦ rw (missing, ◌>>=◌, update_stock) tt
    | inr (m, upd) ↦ elim (Bool-cases (eqb_ℤ delta (pos 0))) [
      | inl zero_delta ↦
          rw (upd, ◌>>=◌, update_stock)
            (rw zero_delta (unwritten s m _ (eqb_ℤ-eq delta (pos 0) zero_delta) v row upd))
      | inr change ↦ rw (upd, ◌>>=◌, update_stock) (rw change (written s m _ _ v row upd))
    ]
  ]
