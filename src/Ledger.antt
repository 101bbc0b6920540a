-- ===== src/Ledger.antt =====
-- The ledger of reservations: what the stock rows and the pick allocations of the outbound
-- services agree on. Ledger/Steps has the two moves by which they change together.
pub mod Steps
pub mod Safe
pub mod Snapshot
use warehousehub.Base.{
  ℕ, ◌≡◌, refl, arith, Bool, ℤ, pos, ◌≤ℤ◌, List, ◌==◌, ◌&&◌, All, Distinct, sum_of, exists_by, true,
  if◌then◌else◌,
}
use warehousehub.Db.{Store, Stock, StockKey, has_key, points_to, Allocation, is_open}

abbrev pub same_stock : Stock → Stock → Bool
same_stock a b = a.id == b.id

abbrev pub same_key : Stock → Stock → Bool
same_key a b = (a.company == b.company) && (a.warehouse == b.warehouse) && (a.lot == b.lot)

abbrev pub same_allocation : Allocation → Allocation → Bool
same_allocation a b = a.id == b.id

-- What a row reserves, and an open allocation holds, at one key.
abbrev pub reserved_by : StockKey → Stock → ℤ
reserved_by k r = if has_key k r then r.reserved else pos 0

abbrev pub held_by : StockKey → Allocation → ℤ
held_by k a = if points_to k a && is_open a then a.qty else pos 0

-- The physical quantity at a key.
abbrev pub hand_by : StockKey → Stock → ℤ
hand_by k r = if has_key k r then r.on_hand else pos 0

abbrev pub hand_at : StockKey → List Stock → ℤ
hand_at k l = sum_of (hand_by k) l

-- The quantity that is held for one order line.
abbrev pub held_for : ℕ → ℕ → Allocation → ℤ
held_for company line a =
    if (a.company == company) && (a.line == line) && is_open a then a.qty else pos 0

abbrev pub held_for_line : ℕ → ℕ → List Allocation → ℤ
held_for_line company line l = sum_of (held_for company line) l

abbrev pub reserved_at : StockKey → List Stock → ℤ
reserved_at k l = sum_of (reserved_by k) l

abbrev pub held_at : StockKey → List Allocation → ℤ
held_at k l = sum_of (held_by k) l

-- The key of a lot's row in a warehouse of the company.
abbrev pub lot_key : ℕ → ℕ → ℕ → StockKey
lot_key company warehouse lot = record { company = company; warehouse = warehouse; lot = lot }

-- The stock row that an allocation points to.
abbrev pub key_of : Allocation → StockKey
key_of a = record { company = a.company; warehouse = a.warehouse; lot = a.lot }

-- No stock row reserves more than it holds, no allocation is negative, identifiers and stock keys
-- are unique, each allocation points to a stock row, and at every key the reserved quantity is the sum of the open allocations.
pub record IsSound (stocks : List Stock) (allocations : List Allocation) : Type 0 where
  pub stock_ids : Distinct same_stock stocks
  pub stock_keys : Distinct same_key stocks
  pub allocation_ids : Distinct same_allocation allocations
  pub covered : All (λ r. r.reserved ≤ℤ r.on_hand) stocks
  pub nonneg : All (λ a. pos 0 ≤ℤ a.qty) allocations
  pub backed : All (λ a. exists_by (has_key (key_of a)) stocks ≡ true) allocations
  pub reconciled : (k : StockKey) → reserved_at k stocks ≡ held_at k allocations

abbrev pub IsSoundStore : Store → Type 0
IsSoundStore s = IsSound s.stocks s.allocations

-- Two stores that differ at most in the stock rows and the allocations.
pub record SameOthers (s t : Store) : Type 0 where
  pub same_orders : t.orders ≡ s.orders
  pub same_lines : t.lines ≡ s.lines
  pub same_lots : t.lots ≡ s.lots
  pub same_warehouses : t.warehouses ≡ s.warehouses
  pub same_items : t.items ≡ s.items
  pub same_customers : t.customers ≡ s.customers
  pub same_txs : t.txs ≡ s.txs
  pub same_tx_lines : t.tx_lines ≡ s.tx_lines
  pub same_transfers : t.transfers ≡ s.transfers
  pub same_stocktakings : t.stocktakings ≡ s.stocktakings
  pub same_count_lines : t.count_lines ≡ s.count_lines
  pub same_branches : t.branches ≡ s.branches
  pub same_asns : t.asns ≡ s.asns
  pub same_uploads : t.uploads ≡ s.uploads
  pub same_receipts : t.receipts ≡ s.receipts
  pub same_receipt_lines : t.receipt_lines ≡ s.receipt_lines

pub SameOthers-refl : (s : Store) → SameOthers s s
SameOthers-refl s = record {
  same_orders = refl;
  same_lines = refl;
  same_lots = refl;
  same_warehouses = refl;
  same_items = refl;
  same_customers = refl;
  same_txs = refl;
  same_tx_lines = refl;
  same_transfers = refl;
  same_stocktakings = refl;
  same_count_lines = refl;
  same_branches = refl;
  same_asns = refl;
  same_uploads = refl;
  same_receipts = refl;
  same_receipt_lines = refl;
}

-- A change of the stock rows and the allocations before a change that leaves the other tables alone.
pub SameOthers-after :
    (s : Store) (l : List Stock) (m : List Allocation) (u : Store)
    → SameOthers (record s { stocks = l; allocations = m }) u
    → SameOthers s u
SameOthers-after s l m u h = record {
  same_orders = h.same_orders;
  same_lines = h.same_lines;
  same_lots = h.same_lots;
  same_warehouses = h.same_warehouses;
  same_items = h.same_items;
  same_customers = h.same_customers;
  same_txs = h.same_txs;
  same_tx_lines = h.same_tx_lines;
  same_transfers = h.same_transfers;
  same_stocktakings = h.same_stocktakings;
  same_count_lines = h.same_count_lines;
  same_branches = h.same_branches;
  same_asns = h.same_asns;
  same_uploads = h.same_uploads;
  same_receipts = h.same_receipts;
  same_receipt_lines = h.same_receipt_lines;
}
