-- ===== src/Journal.antt =====
-- The inventory journal (`inventoryTxLine`) against the stock rows: what it means that every physical
-- change has its journal line.
pub mod Leaves
pub mod Booked
pub mod Upsert
use warehousehub.Base.{
  ℕ, ◌≡◌, refl, ℤ, pos, ◌+ℤ◌, int_laws, List, ◌==◌, ◌&&◌, sum_of, if◌then◌else◌,
}
use warehousehub.Db.{Store, StockKey, InventoryTxLine}
use warehousehub.Ledger.{hand_at, lot_key}
use warehousehub.Transfers.Rows.{IsShelved}

-- What the journal says of a lot in a warehouse.
abbrev pub delta_by : StockKey → InventoryTxLine → ℤ
delta_by k l = if (l.warehouse == k.warehouse) && (l.lot == k.lot) then l.qty_delta else pos 0

abbrev pub journal_at : StockKey → List InventoryTxLine → ℤ
journal_at k ls = sum_of (delta_by k) ls

-- A change of the company's stock rows with its journal lines.
pub record Books (company : ℕ) (s t : Store) : Type 0 where
  pub shelved : IsShelved t.stocks
  pub booked :
      (warehouse lot : ℕ)
      → hand_at (lot_key company warehouse lot) t.stocks
          +ℤ journal_at (lot_key company warehouse lot) s.tx_lines
        ≡ hand_at (lot_key company warehouse lot) s.stocks
          +ℤ journal_at (lot_key company warehouse lot) t.tx_lines

pub Books-refl : (company : ℕ) (s : Store) → IsShelved s.stocks → Books company s s
Books-refl company s v = record { shelved = v; booked = λ w l. refl }

-- Neither the stock rows nor the journal lines change.
pub Books-same :
    (company : ℕ) (s t : Store)
    → IsShelved s.stocks
    → t.stocks ≡ s.stocks
    → t.tx_lines ≡ s.tx_lines
    → Books company s t
Books-same company s t v same lines = record {
  shelved = rw same v;
  booked = λ w l. rw (same, lines) refl;
}

chain : (a b c x y z : ℤ) → b +ℤ x ≡ a +ℤ y → c +ℤ y ≡ b +ℤ z → c +ℤ x ≡ a +ℤ z
chain a b c x y z e d = grind int_laws

pub Books-trans :
    (company : ℕ) (s t u : Store) → Books company s t → Books company t u → Books company s u
Books-trans company s t u h k = record {
  shelved = k.shelved;
  booked = λ w l.
      let key = lot_key company w l in
      chain (hand_at key s.stocks) (hand_at key t.stocks) (hand_at key u.stocks)
        (journal_at key s.tx_lines) (journal_at key t.tx_lines) (journal_at key u.tx_lines)
        (h.booked w l) (k.booked w l);
}
