-- ===== src/Examples/Database.antt =====
-- A small database: one company with two warehouses, three lots of one item, and an order.
use warehousehub.Base.{
  ℕ, ◌≡◌, refl, true, false, ℤ, pos, Option, none, some, List, [], ◌∷◌, arith, ◌+ℤ◌, +ℤ-zero,
  int_laws,
}
use warehousehub.Db.{
  Store, Warehouse, Lot, Stock, Order, Line, Allocation, StorageType, OutboundStatus, LineStatus,
  PickSource, Transfer, TransferStatus, CountLine, StocktakingStatus, StockKey, is_open,
}
use warehousehub.Transfers.Rows.{IsShelved}
use warehousehub.Notices.{NewAsn}
use warehousehub.Ledger.{IsSoundStore, reserved_at, held_at, reserved_by, held_by, held_for_line}

abbrev pub dry_and_cool : List Warehouse
dry_and_cool =
    (record {
      id = 1;
      company = 1;
      branch = 1;
      storage = StorageType.dry;
      is_default_region = true;
    })
    ∷ (record {
      id = 2;
      company = 1;
      branch = 1;
      storage = StorageType.cool;
      is_default_region = true;
    })
    ∷ []

-- Lot 3 has no expiry date; lot 2 expires before lot 1.
abbrev pub three_lots : List Lot
three_lots =
    (record { id = 1; company = 1; item = 1; expiry = some 200; created_at = 1 })
    ∷ (record { id = 2; company = 1; item = 1; expiry = some 100; created_at = 2 })
    ∷ (record { id = 3; company = 1; item = 1; expiry = none; created_at = 3 })
    ∷ []

abbrev pub stock_row : ℕ → ℕ → ℕ → ℤ → ℤ → Stock
stock_row id warehouse lot on_hand reserved = record {
  id = id;
  company = 1;
  warehouse = warehouse;
  lot = lot;
  on_hand = on_hand;
  reserved = reserved;
}

abbrev pub three_stocks : List Stock
three_stocks =
    stock_row 1 1 1 (pos 5000) (pos 0)
    ∷ stock_row 2 1 2 (pos 4000) (pos 3000)
    ∷ stock_row 3 2 3 (pos 9000) (pos 0)
    ∷ []

abbrev pub an_order : OutboundStatus → Order
an_order status = record {
  id = 1;
  company = 1;
  customer = 1;
  planned_date = 50;
  status = status;
  created_by = 7;
  picked_submitted_by = none;
  picked_submitted_at = none;
  verified_by = none;
  verified_at = none;
  shipping_started_by = none;
  shipping_started_at = none;
  delivered_by = none;
  delivered_at = none;
  memo = none;
  version = 1;
}

abbrev pub a_line : Line
a_line = record {
  id = 1;
  order = 1;
  item = 1;
  requested = pos 6000;
  picked = pos 0;
  shipped = pos 0;
  delivered = pos 0;
  status = LineStatus.active;
  version = 1;
}

-- Three units of lot 2 are held for the line, two of which were picked.
abbrev pub an_allocation : Allocation
an_allocation = record {
  id = 1;
  company = 1;
  line = 1;
  warehouse = 1;
  lot = 2;
  qty = pos 3000;
  picked = pos 2000;
  source = PickSource.auto_fefo;
  is_released = false;
  released_at = none;
  is_committed = false;
  committed_at = none;
  created_at = 10;
}

abbrev pub database : OutboundStatus → Store
database status = record {
  warehouses = dry_and_cool;
  items =
      (record {
        id = 1;
        company = 1;
        code = "A-1";
        name = "Rice";
        unit_cost = some (pos 2000);
        is_active = true;
      })
      ∷ [];
  customers = (record { id = 1; company = 1 }) ∷ [];
  lots = three_lots;
  stocks = three_stocks;
  orders = an_order status ∷ [];
  lines = a_line ∷ [];
  allocations = an_allocation ∷ [];
  txs = [];
  tx_lines = [];
  transfers = [];
  stocktakings = [];
  count_lines = [];
  branches = (record { id = 1; company = 1 }) ∷ [];
  asns = [];
  uploads = [];
  receipts = [];
  receipt_lines = [];
}

nothing_reserved : (k : StockKey) (r : Stock) → r.reserved ≡ pos 0 → reserved_by k r ≡ pos 0
nothing_reserved k r h = ground arith

row_of :
    (k : StockKey) (r : Stock) (a : Allocation)
    → (a.company ≡ r.company) × (a.warehouse ≡ r.warehouse) × (a.lot ≡ r.lot) × (a.qty ≡ r.reserved)
    → is_open a ≡ true
    → reserved_by k r ≡ held_by k a
row_of k r a same opened = ground arith

add_up : (x y z u : ℤ) → x ≡ pos 0 → z ≡ pos 0 → y ≡ u → x +ℤ (y +ℤ (z +ℤ pos 0)) ≡ u +ℤ pos 0
add_up x y z u h k e = grind int_laws

books : (k : StockKey) → reserved_at k three_stocks ≡ held_at k (an_allocation ∷ [])
books k =
    add_up (reserved_by k (stock_row 1 1 1 (pos 5000) (pos 0)))
      (reserved_by k (stock_row 2 1 2 (pos 4000) (pos 3000)))
      (reserved_by k (stock_row 3 2 3 (pos 9000) (pos 0))) (held_by k an_allocation)
      (nothing_reserved k (stock_row 1 1 1 (pos 5000) (pos 0)) refl)
      (nothing_reserved k (stock_row 3 2 3 (pos 9000) (pos 0)) refl)
      (row_of k (stock_row 2 1 2 (pos 4000) (pos 3000)) an_allocation (refl, refl, refl, refl) refl)

pub database-IsSound : (status : OutboundStatus) → IsSoundStore (database status)
database-IsSound status = record {
  stock_ids = ((refl, (refl, tt)), ((refl, tt), (tt, tt)));
  stock_keys = ((refl, (refl, tt)), ((refl, tt), (tt, tt)));
  allocation_ids = (tt, tt);
  covered = (omega arith, (omega arith, (omega arith, tt)));
  nonneg = (omega arith, tt);
  backed = (refl, tt);
  reconciled = books;
}

pub database-held :
    (status : OutboundStatus) → held_for_line 1 1 (database status).allocations ≡ pos 3000
database-held status = +ℤ-zero (pos 3000)

-- A transfer of lot 1 to a warehouse that has none of it yet.
abbrev pub a_transfer : Transfer
a_transfer = record {
  id = 1;
  company = 1;
  from_warehouse = 1;
  to_warehouse = 2;
  status = TransferStatus.pending;
  memo = none;
  requested_by = 7;
  confirmed_by = none;
  confirmed_at = none;
  lines = (record { lot = 1; qty = pos 2000 }) ∷ [];
}

abbrev pub transfer_database : Store
transfer_database = record (database OutboundStatus.picking) { transfers = a_transfer ∷ [] }

-- A count of the first warehouse: less of lot 1 than the system says, and none of lot 3.
abbrev pub count_line : ℕ → ℕ → ℤ → Option ℤ → CountLine
count_line id lot system_qty actual_qty = record {
  id = id;
  stocktaking = 1;
  lot = lot;
  system_qty = system_qty;
  actual_qty = actual_qty;
}

abbrev pub count_database : Store
count_database = record (database OutboundStatus.picking) {
  stocktakings =
      (record {
        id = 1;
        company = 1;
        warehouse = 1;
        status = StocktakingStatus.in_progress;
        memo = none;
        created_by = 7;
        confirmed_by = none;
        confirmed_at = none;
      })
      ∷ [];
  count_lines =
      count_line 1 1 (pos 5000) (some (pos 4500))
      ∷ count_line 2 3 (pos 0) (some (pos 100))
      ∷ count_line 3 2 (pos 4000) none
      ∷ [];
}

pub database-IsShelved : IsShelved three_stocks
database-IsShelved = record {
  ids = (database-IsSound OutboundStatus.picking).stock_ids;
  keys = (database-IsSound OutboundStatus.picking).stock_keys;
}

abbrev pub a_notice : NewAsn
a_notice = record {
  from_branch = none;
  from_warehouse = some 2;
  to_branch = 1;
  to_warehouse = 1;
  expected_date = 70;
  lines = (record { item = 1; quantity = pos 5000; expiry = some 300 }) ∷ [];
}
