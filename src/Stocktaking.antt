-- ===== src/Stocktaking.antt =====
-- apps/api/src/modules/stocktaking/stocktaking.service.ts: counts of a warehouse, and the correction
-- of the stock rows by what was counted.
pub mod Books
pub mod Journal
use Prim.Native.String.{String}
use warehousehub.Base.{
  ℕ, Bool, true, false, ℤ, pos, ◌+ℤ◌, ◌-ℤ◌, eqb_ℤ, ltb_ℤ, Option, none, some, List, [], ◌∷◌, ◌==◌,
  ◌&&◌, ◌||◌, not, keep, find_by, exists_by, length, if◌then◌else◌,
}
use warehousehub.Db.{
  Store, Stock, Stocktaking, StocktakingStatus, is_draft, is_in_progress, CountLine, TxType, Engine,
  Tx, pure, throw_if, or_throw, gets, ◌>>=◌, ◌>>◌, not_found, bad_request, warehouse_not_found,
  stocktaking_not_found, not_open_for_lines, lines_required, not_in_progress, count_line_not_found,
  negative_count, nothing_counted, negative_stock, insert_stocktaking, update_stocktaking,
  insert_count_line, update_count_line, insert_tx, insert_tx_line, insert_stock, update_stock,
}
use warehousehub.Ledger.{lot_key}
use warehousehub.Transfers.{trimmed, find_warehouse, find_stock}

-- The result is the identifier of the new stocktaking.
unfoldable pub create_stocktaking : Engine → (String → String) → ℕ → ℕ → ℕ → Option String → Tx ℕ
create_stocktaking e trim company user warehouse memo = do
  w ← or_throw (← gets (find_warehouse company warehouse)) (not_found warehouse_not_found)
  id ← gets e.new_id
  insert_stocktaking (record {
    id = id;
    company = company;
    warehouse = warehouse;
    status = StocktakingStatus.draft;
    memo = trimmed trim memo;
    created_by = user;
    confirmed_by = none;
    confirmed_at = none;
  })
  pure id

abbrev pub find_stocktaking : ℕ → ℕ → Store → Option Stocktaking
find_stocktaking company id s = find_by (λ c. (c.id == id) && (c.company == company)) s.stocktakings

abbrev pub has_line_for : ℕ → Store → ℕ → Bool
has_line_for id s lot = exists_by (λ c. (c.stocktaking == id) && (c.lot == lot)) s.count_lines

-- `stockMap.get(lot) ?? 0`
abbrev pub system_qty_of : ℕ → ℕ → Store → ℕ → ℤ
system_qty_of company warehouse s lot = elim (find_stock (lot_key company warehouse lot) s) [
  | none ↦ pos 0
  | some r ↦ r.on_hand
]

-- `stocktakingLine.createMany`, with the quantities from before.
unfoldable pub insert_count_lines : Engine → ℕ → (ℕ → ℤ) → List ℕ → Tx (Unit {0})
insert_count_lines e id system_qty [] = pure tt
insert_count_lines e id system_qty (lot ∷ lots) = do
  line ← gets e.new_id
  insert_count_line (record {
    id = line;
    stocktaking = id;
    lot = lot;
    system_qty = system_qty lot;
    actual_qty = none;
  })
  insert_count_lines e id system_qty lots

-- The part of `addLines` for lots that have no line yet.
unfoldable pub add_new_lots : Engine → ℕ → Stocktaking → List ℕ → Tx (Unit {0})
add_new_lots e company c lots = do
  system_qty ← gets (system_qty_of company c.warehouse)
  insert_count_lines e c.id system_qty lots
  if is_draft c.status
      then update_stocktaking c.id (λ r. record r { status = StocktakingStatus.in_progress })
      else pure tt

-- `lots` are the lots of `dto.lines`. The source writes the lines and then the status without a
-- transaction; one call alone cannot fail between the two, since the row of the status was found.
unfoldable pub add_count_lines : Engine → ℕ → ℕ → List ℕ → Tx (Unit {0})
add_count_lines e company id lots = do
  c ← or_throw (← gets (find_stocktaking company id)) (not_found stocktaking_not_found)
  throw_if (not (is_draft c.status || is_in_progress c.status)) (bad_request not_open_for_lines)
  throw_if (length lots == 0) (bad_request lines_required)
  has_line ← gets (has_line_for id)
  if length (keep (λ lot. not (has_line lot)) lots) == 0
      then pure tt
      else add_new_lots e company c (keep (λ lot. not (has_line lot)) lots)

unfoldable pub update_actual_qty : ℕ → ℕ → ℕ → ℤ → Tx (Unit {0})
update_actual_qty company id line qty = do
  c ← or_throw (← gets (find_stocktaking company id)) (not_found stocktaking_not_found)
  throw_if (not (is_in_progress c.status)) (bad_request not_in_progress)
  l ←
      or_throw
        (← gets
          (λ s. find_by (λ (x : CountLine). (x.id == line) && (x.stocktaking == id)) s.count_lines))
        (not_found count_line_not_found)
  throw_if (ltb_ℤ qty (pos 0)) (bad_request negative_count)
  update_count_line line (λ r. record r { actual_qty = some qty })

abbrev pub is_counted : CountLine → Bool
is_counted l = elim l.actual_qty [ none ↦ false | some _ ↦ true ]

-- `actQty - sysQty`
abbrev pub qty_delta_of : CountLine → ℤ
qty_delta_of l = elim l.actual_qty [ none ↦ pos 0 | some q ↦ q ] -ℤ l.system_qty

-- The stock row is corrected, or created if more than nothing was counted.
unfoldable pub adjust_row : Engine → ℕ → ℕ → ℕ → ℕ → ℤ → Option Stock → Tx (Unit {0})
adjust_row e company tx warehouse lot delta none =
    let create_row = do
      id ← gets e.new_id
      insert_stock (record {
        id = id;
        company = company;
        warehouse = warehouse;
        lot = lot;
        on_hand = delta;
        reserved = pos 0;
      })
      insert_tx_line (record {
        tx = tx;
        warehouse = warehouse;
        lot = lot;
        qty_delta = delta;
        unit_cost = none;
      })
    in if ltb_ℤ (pos 0) delta then create_row else pure tt
adjust_row e company tx warehouse lot delta (some r) = do
  throw_if (ltb_ℤ (r.on_hand +ℤ delta) (pos 0)) (bad_request negative_stock)
  update_stock (λ x. x.id == r.id) (λ x. record x { on_hand = r.on_hand +ℤ delta })
  insert_tx_line
      (record { tx = tx; warehouse = warehouse; lot = lot; qty_delta = delta; unit_cost = none })

unfoldable pub adjust_line : Engine → ℕ → ℕ → ℕ → CountLine → Tx (Unit {0})
adjust_line e company tx warehouse l =
    let adjust =
      gets (find_stock (lot_key company warehouse l.lot))
      >>= adjust_row e company tx warehouse l.lot (qty_delta_of l) in
    if eqb_ℤ (qty_delta_of l) (pos 0) then pure tt else adjust

-- The loop over the counted lines.
unfoldable pub adjust_lines : Engine → ℕ → ℕ → ℕ → List CountLine → Tx (Unit {0})
adjust_lines e company tx warehouse [] = pure tt
adjust_lines e company tx warehouse (l ∷ ls) =
    adjust_line e company tx warehouse l >> adjust_lines e company tx warehouse ls

-- The journal entry and the corrections.
unfoldable pub apply_count : Engine → ℕ → ℕ → Stocktaking → List CountLine → Tx (Unit {0})
apply_count e company user c ls = do
  tx ← gets e.new_id
  insert_tx
      (record { id = tx; company = company; kind = TxType.adjustment; actor = user; ref_id = c.id })
  adjust_lines e company tx c.warehouse ls

unfoldable pub confirm_stocktaking : Engine → ℕ → ℕ → ℕ → ℕ → Tx (Unit {0})
confirm_stocktaking e company id user now = do
  c ← or_throw (← gets (find_stocktaking company id)) (not_found stocktaking_not_found)
  throw_if (not (is_in_progress c.status)) (bad_request not_in_progress)
  counted ← gets (λ s. keep (λ l. (l.stocktaking == id) && is_counted l) s.count_lines)
  throw_if (length counted == 0) (bad_request nothing_counted)
  apply_count e company user c counted
  update_stocktaking id (λ r. record r {
    status = StocktakingStatus.confirmed;
    confirmed_by = some user;
    confirmed_at = some now;
  })
