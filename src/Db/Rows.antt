-- ===== src/Db/Rows.antt =====
-- The rows of the inventory and outbound tables of apps/api/prisma/schema.prisma. An identifier
-- is a number (only compared), an instant a number of milliseconds, a quantity an integer number
-- of thousandths (the columns are Decimal(18, 3)).
use Prim.Native.String.{String}
use warehousehub.Base.{ℕ, Bool, ℤ, Option, List, [], ◌∷◌, true, false, ◌==◌, ◌&&◌, ◌||◌, not}

-- The enum's order is the order in which PostgreSQL sorts it.
pub data StorageType : Type 0 where
  dry cool frz : StorageType

abbrev pub storage_rank : StorageType → ℕ
storage_rank StorageType.dry = 0
storage_rank StorageType.cool = 1
storage_rank StorageType.frz = 2

pub data OutboundStatus : Type 0 where
  draft picking picked ready_to_ship shipping delivered cancelled : OutboundStatus

abbrev pub status_rank : OutboundStatus → ℕ
status_rank OutboundStatus.draft = 0
status_rank OutboundStatus.picking = 1
status_rank OutboundStatus.picked = 2
status_rank OutboundStatus.ready_to_ship = 3
status_rank OutboundStatus.shipping = 4
status_rank OutboundStatus.delivered = 5
status_rank OutboundStatus.cancelled = 6

abbrev pub same_status : OutboundStatus → OutboundStatus → Bool
same_status a b = status_rank a == status_rank b

-- `statuses.includes(status)`
abbrev pub has_status : OutboundStatus → List OutboundStatus → Bool
has_status a [] = false
has_status a (b ∷ bs) = same_status b a || has_status a bs

pub data LineStatus : Type 0 where
  active cancelled short_shipped delivered : LineStatus

abbrev pub is_cancelled : LineStatus → Bool
is_cancelled LineStatus.cancelled = true
is_cancelled _ = false

abbrev pub is_active_line : LineStatus → Bool
is_active_line LineStatus.active = true
is_active_line _ = false

pub data PickSource : Type 0 where
  auto_fefo manual : PickSource

pub data TxType : Type 0 where
  inbound_confirm outbound_confirm pick_reserve pick_release adjustment : TxType
  return_restock return_discard transfer : TxType

pub record Warehouse : Type 0 where
  pub id : ℕ
  pub company : ℕ
  pub branch : ℕ
  pub storage : StorageType
  pub is_default_region : Bool

pub record Item : Type 0 where
  pub id : ℕ
  pub company : ℕ
  pub code : String
  pub name : String
  pub unit_cost : Option ℤ
  pub is_active : Bool

pub record Customer : Type 0 where
  pub id : ℕ
  pub company : ℕ

pub record Lot : Type 0 where
  pub id : ℕ
  pub company : ℕ
  pub item : ℕ
  pub expiry : Option ℕ
  pub created_at : ℕ

pub record Stock : Type 0 where
  pub id : ℕ
  pub company : ℕ
  pub warehouse : ℕ
  pub lot : ℕ
  pub on_hand : ℤ
  pub reserved : ℤ

-- A user and a time that the workflow stamps on an order.
pub record Order : Type 0 where
  pub id : ℕ
  pub company : ℕ
  pub customer : ℕ
  pub planned_date : ℕ
  pub status : OutboundStatus
  pub created_by : ℕ
  pub picked_submitted_by : Option ℕ
  pub picked_submitted_at : Option ℕ
  pub verified_by : Option ℕ
  pub verified_at : Option ℕ
  pub shipping_started_by : Option ℕ
  pub shipping_started_at : Option ℕ
  pub delivered_by : Option ℕ
  pub delivered_at : Option ℕ
  pub memo : Option String
  pub version : ℕ

pub record Line : Type 0 where
  pub id : ℕ
  pub order : ℕ
  pub item : ℕ
  pub requested : ℤ
  pub picked : ℤ
  pub shipped : ℤ
  pub delivered : ℤ
  pub status : LineStatus
  pub version : ℕ

pub record Allocation : Type 0 where
  pub id : ℕ
  pub company : ℕ
  pub line : ℕ
  pub warehouse : ℕ
  pub lot : ℕ
  pub qty : ℤ
  pub picked : ℤ
  pub source : PickSource
  pub is_released : Bool
  pub released_at : Option ℕ
  pub is_committed : Bool
  pub committed_at : Option ℕ
  pub created_at : ℕ

-- The entries of the inventory journal.
pub record InventoryTx : Type 0 where
  pub id : ℕ
  pub company : ℕ
  pub kind : TxType
  pub actor : ℕ
  pub ref_id : ℕ

pub record InventoryTxLine : Type 0 where
  pub tx : ℕ
  pub warehouse : ℕ
  pub lot : ℕ
  pub qty_delta : ℤ
  pub unit_cost : Option ℤ

-- `isReleased: false, isCommitted: false`
abbrev pub is_open : Allocation → Bool
is_open a = not a.is_released && not a.is_committed

-- The unique key (companyId, warehouseId, lotId) of a stock row, which an allocation points to.
pub record StockKey : Type 0 where
  pub company : ℕ
  pub warehouse : ℕ
  pub lot : ℕ

abbrev pub has_key : StockKey → Stock → Bool
has_key k r = (r.company == k.company) && (r.warehouse == k.warehouse) && (r.lot == k.lot)

abbrev pub points_to : StockKey → Allocation → Bool
points_to k a = (a.company == k.company) && (a.warehouse == k.warehouse) && (a.lot == k.lot)
