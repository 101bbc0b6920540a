-- ===== src/Lots.antt =====
-- A lot of an item by its expiry date, and the warehouse of a storage type, as the services that
-- bring goods in look them up (apps/api/src/modules/inbound/inbound.service.ts and
-- apps/api/src/modules/returns/returns.service.ts).
pub mod WarehouseMap
pub mod Days
use warehousehub.Base.{
  ℕ, ◌+◌, ◌-◌, ◌*◌, ◌%◌, Bool, true, false, Option, none, some, List, [], ◌∷◌, ◌==◌, ◌&&◌, not, leb,
  ltb, find_by, if◌then◌else◌,
}
use warehousehub.Db.{
  Store, Lot, Warehouse, StorageType, storage_rank, Engine, Tx, pure, gets, ◌>>=◌, ◌>>◌, insert_lot,
}

abbrev pub ms_per_day : ℕ
ms_per_day = 24 * 60 * 60 * 1000

-- normalizeToUtcDay, addUtcDays
unfoldable pub normalize_to_utc_day : ℕ → ℕ
normalize_to_utc_day t = t - t % ms_per_day

unfoldable pub add_utc_days : ℕ → ℕ → ℕ
add_utc_days t days = t + days * ms_per_day

abbrev pub has_no_expiry : Option ℕ → Bool
has_no_expiry none = true
has_no_expiry (some _) = false

-- `expiryDate: { gte, lt }`
abbrev pub expires_within : ℕ → ℕ → Option ℕ → Bool
expires_within first end none = false
expires_within first end (some t) = leb first t && ltb t end

abbrev pub expires_at : ℕ → Option ℕ → Bool
expires_at at none = false
expires_at at (some t) = t == at

-- The first lot of the item whose expiry date passes the test.
abbrev pub find_lot : ℕ → ℕ → (Option ℕ → Bool) → Store → Option Lot
find_lot company item p s =
    find_by (λ l. (l.company == company) && (l.item == item) && p l.expiry) s.lots

-- A lot with the expiry date is created if none is there; the result is its identifier.
unfoldable pub create_lot : Engine → ℕ → ℕ → Option ℕ → ℕ → Option Lot → Tx ℕ
create_lot e company item expiry now (some l) = pure l.id
create_lot e company item expiry now none = do
  id ← gets e.new_id
  insert_lot (record { id = id; company = company; item = item; expiry = expiry; created_at = now })
  pure id

unfoldable pub get_or_create_lot : Engine → ℕ → ℕ → (Option ℕ → Bool) → Option ℕ → ℕ → Tx ℕ
get_or_create_lot e company item p expiry now =
    gets (find_lot company item p) >>= create_lot e company item expiry now

abbrev pub same_storage : StorageType → StorageType → Bool
same_storage a b = storage_rank a == storage_rank b

-- An entry of the map from storage types to warehouses.
pub record TypeEntry : Type 0 where
  pub storage : StorageType
  pub warehouse : ℕ

abbrev pub map_get : StorageType → List TypeEntry → Option ℕ
map_get k [] = none
map_get k (x ∷ m) =
    let rest = map_get k m in if same_storage x.storage k then some x.warehouse else rest

abbrev pub is_missing : StorageType → List TypeEntry → Bool
is_missing k m = elim (map_get k m) [ none ↦ true | some _ ↦ false ]

-- A loop over the warehouses that enters those that pass the test and whose type has no entry.
unfoldable pub enter_warehouses :
    (Warehouse → Bool) → List Warehouse → List TypeEntry → List TypeEntry
enter_warehouses p [] m = m
enter_warehouses p (w ∷ ws) m = enter_warehouses p ws (
    if p w && is_missing w.storage m
    then (record { storage = w.storage; warehouse = w.id }) ∷ m
    else m)

-- The default region goes first.
unfoldable pub warehouse_by_type : List Warehouse → List TypeEntry
warehouse_by_type ws =
    enter_warehouses (λ w. true) ws (enter_warehouses (λ w. w.is_default_region) ws [])
