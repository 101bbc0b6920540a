-- ===== src/Stocks.antt =====
-- apps/api/src/modules/stocks/stocks.service.ts: the manual correction of a stock row.
pub mod Rounded
pub mod Corrected
use warehousehub.Base.{
  ℕ, Bool, true, false, ℤ, pos, ◌-ℤ◌, ◌+ℤ◌, ◌≤ℤ◌, ◌≡◌, ltb_ℤ, eqb_ℤ, Option, none, some, List, [],
  ◌∷◌, ◌==◌, ◌&&◌, ◌||◌, length, contains, find_by, if◌then◌else◌,
}
use warehousehub.Db.{
  Store, Stock, Warehouse, TxType, Engine, Tx, pure, throw_if, or_throw, gets, ◌>>=◌, ◌>>◌,
  not_found, bad_request, negative_qty, stock_not_found, update_stock, insert_tx, insert_tx_line,
}

-- `Number(x.toFixed(1))` on thousandths: `near` and `exact` are what ECMAScript documents of `toFixed`,
-- the nearest number of tenths, and that of a difference of tenths is the difference.
pub record IsToTenths (to_tenths : ℤ → ℤ) : Type 0 where
  pub near_below : (x : ℤ) → to_tenths x ≤ℤ x +ℤ pos 50
  pub near_above : (x : ℤ) → x ≤ℤ to_tenths x +ℤ pos 50
  pub exact : (x y : ℤ) → to_tenths (to_tenths x -ℤ to_tenths y) ≡ to_tenths x -ℤ to_tenths y

-- The branches that the user may see; all of them if the list is absent or empty.
abbrev pub in_branches : Option (List ℕ) → ℕ → Store → Bool
in_branches none warehouse s = true
in_branches (some branches) warehouse s =
    (length branches == 0) || elim (find_by (λ (w : Warehouse). w.id == warehouse) s.warehouses) [
      | none ↦ false
      | some w ↦ contains w.branch branches
    ]

abbrev pub find_visible : ℕ → Option (List ℕ) → ℕ → Store → Option Stock
find_visible company branches id s =
    find_by (λ r. (r.id == id) && (r.company == company) && in_branches branches r.warehouse s)
      s.stocks

-- The transaction; `delta` is the rounded change.
unfoldable pub write_correction : Engine → ℕ → ℕ → Stock → ℤ → ℤ → ℤ → Tx (Unit {0})
write_correction e company user current on_hand reserved delta = do
  update_stock (λ r. r.id == current.id) (λ r. record r { on_hand = on_hand; reserved = reserved })
  tx ← gets e.new_id
  insert_tx (record {
    id = tx;
    company = company;
    kind = TxType.adjustment;
    actor = user;
    ref_id = current.id;
  })
  if eqb_ℤ delta (pos 0)
      then pure tt
      else insert_tx_line (record {
        tx = tx;
        warehouse = current.warehouse;
        lot = current.lot;
        qty_delta = delta;
        unit_cost = none;
      })

unfoldable pub correct_stock :
    Engine → (ℤ → ℤ) → ℕ → ℕ → ℕ → ℤ → ℤ → Option (List ℕ) → Tx (Unit {0})
correct_stock e to_tenths company user id on_hand reserved branches = do
  throw_if (ltb_ℤ on_hand (pos 0) || ltb_ℤ reserved (pos 0)) (bad_request negative_qty)
  current ← or_throw (← gets (find_visible company branches id)) (not_found stock_not_found)
  write_correction e company user current (to_tenths on_hand) (to_tenths reserved)
      (to_tenths (to_tenths on_hand -ℤ current.on_hand))
