-- ===== src/Picking/Reserve.antt =====
-- OutboundPickingService.reserveAdditionalForLineTx and reserveForOrderTx: first expired, first out.
pub mod Step
pub mod Safety
pub mod Candidates
pub mod FirstExpired
pub mod InEighths
pub mod OfItem
pub mod PerLine
pub mod Shortfall
pub mod Plan
pub mod Shares
use warehousehub.Base.{
  ℕ, Bool, true, false, ℤ, pos, ◌+ℤ◌, ◌-ℤ◌, leb_ℤ, ltb_ℤ, min_ℤ, Option, none, some, List, [], ◌∷◌,
  ◌++◌, ◌==◌, ◌&&◌, not, keep, find_by, length, ltb, if◌then◌else◌,
}
use warehousehub.Db.{
  Allocation, Store, Stock, Line, Lot, storage_rank, OutboundStatus, has_status, is_cancelled,
  PickSource, Engine, Tx, pure, throw, throw_if, or_throw, gets, ◌>>=◌, ◌>>◌, not_found,
  bad_request, order_not_found, order_not_reservable, already_reserved, update_stock, update_order,
  insert_allocation, find_order,
}
use warehousehub.Picking.Release.{release_all_for_order, open_for_order}

abbrev pub lot_row : Store → Stock → Option Lot
lot_row s r = find_by (λ l. l.id == r.lot) s.lots

-- `lot: { itemId, expiryDate: { not: null } }` and `lot: { itemId, expiryDate: null }`
abbrev pub lot_with_expiry : ℕ → Option Lot → Bool
lot_with_expiry item none = false
lot_with_expiry item (some l) = (l.item == item) && elim l.expiry [ none ↦ false | some _ ↦ true ]

abbrev pub lot_without_expiry : ℕ → Option Lot → Bool
lot_without_expiry item none = false
lot_without_expiry item (some l) =
    (l.item == item) && elim l.expiry [ none ↦ true | some _ ↦ false ]

abbrev pub has_stock_of : ℕ → (Option Lot → Bool) → Store → Stock → Bool
has_stock_of company lot_test s r =
    (r.company == company) && ltb_ℤ (pos 0) r.on_hand && lot_test (lot_row s r)

-- The columns of `orderBy`.
abbrev pub expiry_column : Store → Stock → ℕ
expiry_column s r = elim (lot_row s r) [
  | none ↦ 0
  | some l ↦ elim l.expiry [ none ↦ 0 | some t ↦ t ]
]

abbrev pub created_column : Store → Stock → ℕ
created_column s r = elim (lot_row s r) [ none ↦ 0 | some l ↦ l.created_at ]

abbrev pub storage_column : Store → Stock → ℕ
storage_column s r = elim (find_by (λ w. w.id == r.warehouse) s.warehouses) [
  | none ↦ 0
  | some w ↦ storage_rank w.storage
]

-- `stocksWithExpiry` and `stocksNoExpiry`
abbrev pub stocks_with_expiry : Engine → ℕ → ℕ → Store → List Stock
stocks_with_expiry e company item s =
    e.order_stocks (λ r. expiry_column s r ∷ storage_column s r ∷ [])
      (keep (has_stock_of company (lot_with_expiry item) s) s.stocks)

abbrev pub stocks_no_expiry : Engine → ℕ → ℕ → Store → List Stock
stocks_no_expiry e company item s =
    e.order_stocks (λ r. storage_column s r ∷ created_column s r ∷ [])
      (keep (has_stock_of company (lot_without_expiry item) s) s.stocks)

unfoldable pub candidates : Engine → ℕ → ℕ → Store → List Stock
candidates e company item s =
    stocks_with_expiry e company item s ++ stocks_no_expiry e company item s

abbrev pub available : Stock → ℤ
available r = r.on_hand -ℤ r.reserved

abbrev pub auto_allocation : ℕ → ℕ → ℕ → ℕ → Stock → ℤ → Allocation
auto_allocation id company line now c take = record {
  id = id;
  company = company;
  line = line;
  warehouse = c.warehouse;
  lot = c.lot;
  qty = take;
  picked = pos 0;
  source = PickSource.auto_fefo;
  is_released = false;
  released_at = none;
  is_committed = false;
  committed_at = none;
  created_at = now;
}

-- `reserved: { increment: take }`
abbrev pub add_reserved : ℤ → Stock → Stock
add_reserved take r = record r { reserved = r.reserved +ℤ take }

-- `tx.stock.update` and `tx.pickAllocation.create` of one candidate.
unfoldable pub reserve_one : Engine → ℕ → ℕ → ℕ → Stock → ℤ → Tx (Unit {0})
reserve_one e company line now c take = do
  update_stock (λ r. r.id == c.id) (add_reserved take)
  id ← gets e.new_id
  insert_allocation (auto_allocation id company line now c take)

-- The loop over the candidates; the result is what remains to be reserved. The source subtracts
-- doubles, which is exact for whole numbers of eighths of a unit (Base/Eighths): of 4.2 less 0.1 less
-- 4.1 it is left with a positive rest, which this loop is not.
unfoldable pub reserve_loop : Engine → ℕ → ℕ → ℕ → List Stock → ℤ → Tx ℤ
reserve_loop e company line now [] remaining = pure remaining
reserve_loop e company line now (c ∷ cs) remaining =
    let skip = reserve_loop e company line now cs remaining in
    let take = min_ℤ remaining (available c) in
    let step =
      reserve_one e company line now c take
      >> reserve_loop e company line now cs (remaining -ℤ take) in
    if leb_ℤ remaining (pos 0)
    then pure remaining
    else if leb_ℤ (available c) (pos 0)
    then skip
    else step

pub record Reservation : Type 0 where
  pub reserved : ℤ
  pub shortage : ℤ

unfoldable pub reserve_additional_for_line : Engine → ℕ → ℕ → ℕ → ℕ → ℤ → Tx Reservation
reserve_additional_for_line e company line item now add =
    if leb_ℤ add (pos 0) then pure (record { reserved = pos 0; shortage = pos 0 }) else do
      cs ← gets (candidates e company item)
      remaining ← reserve_loop e company line now cs add
      pure (record { reserved = add -ℤ remaining; shortage = remaining })

-- One entry of `shortages`.
pub record Shortage : Type 0 where
  pub line : ℕ
  pub item : ℕ
  pub missing : ℤ

-- The loop over the lines of the order, which collects the shortages.
unfoldable pub reserve_lines : Engine → ℕ → ℕ → List Line → Tx (List Shortage)
reserve_lines e company now [] = pure []
reserve_lines e company now (l ∷ ls) =
    let rest = reserve_lines e company now ls in
    let reserve_this = do
      r ← reserve_additional_for_line e company l.id l.item now l.requested
      more ← rest
      pure (
          if ltb_ℤ (pos 0) r.shortage
          then (record { line = l.id; item = l.item; missing = r.shortage }) ∷ more
          else more)
    in if is_cancelled l.status
      then rest
      else if leb_ℤ l.requested (pos 0)
      then rest
      else reserve_this

abbrev pub order_lines : ℕ → Store → List Line
order_lines order s = keep (λ l. l.order == order) s.lines

-- `pickAllocation.count > 0`, and what follows from it.
unfoldable pub release_before_reserve : ℕ → ℕ → ℕ → Bool → Tx (Unit {0})
release_before_reserve company order now force s =
    if ltb 0 (length (open_for_order company order s))
    then (if force
        then (release_all_for_order company order now >>= λ _. pure tt) s
        else throw (bad_request already_reserved) s)
    else pure tt s

unfoldable pub reserve_for_order :
    Engine → ℕ → ℕ → ℕ → List OutboundStatus → Bool → Tx (List Shortage)
reserve_for_order e company order now allow force = do
  o ← or_throw (← gets (find_order company order)) (not_found order_not_found)
  throw_if (not (has_status o.status allow)) (bad_request order_not_reservable)
  lines ← gets (order_lines order)
  release_before_reserve company order now force
  shortages ← reserve_lines e company now lines
  update_order order (λ r. record r {
    status = OutboundStatus.picking;
    verified_at = none;
    verified_by = none;
    shipping_started_at = none;
    shipping_started_by = none;
    delivered_at = none;
    delivered_by = none;
  })
  pure shortages
