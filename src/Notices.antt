-- ===== src/Notices.antt =====
-- apps/api/src/modules/asn/asn.service.ts: advance shipping notices of goods on their way.
pub mod Items
pub mod Created
use warehousehub.Base.{
  ℕ, ℤ, Bool, Option, none, some, List, [], ◌∷◌, ◌==◌, ◌&&◌, not, keep, find_by, map, unique,
  contains, length, ltb,
}
use warehousehub.Db.{
  Store, Branch, Warehouse, Item, Asn, AsnLine, AsnStatus, is_pending_asn, Engine, Tx, pure,
  throw_if, or_throw, gets, ◌>>=◌, ◌>>◌, not_found, bad_request, lines_required,
  to_branch_not_found, to_warehouse_not_found, warehouse_not_in_branch, from_branch_not_found,
  from_warehouse_not_found, invalid_item, asn_not_found, asn_not_pending, insert_asn, update_asn,
}
use warehousehub.Transfers.{find_warehouse}

-- The body of the request.
pub record NewAsn : Type 0 where
  pub from_branch : Option ℕ
  pub from_warehouse : Option ℕ
  pub to_branch : ℕ
  pub to_warehouse : ℕ
  pub expected_date : ℕ
  pub lines : List AsnLine

abbrev pub find_branch : ℕ → ℕ → Store → Option Branch
find_branch company id s = find_by (λ b. (b.id == id) && (b.company == company)) s.branches

-- `if (dto.fromBranchId) { ... }`
unfoldable pub check_from_branch : ℕ → Option ℕ → Tx (Unit {0})
check_from_branch company none = pure tt
check_from_branch company (some id) = do
  b ← or_throw (← gets (find_branch company id)) (not_found from_branch_not_found)
  pure tt

-- `if (dto.fromWarehouseId) { ... }`
unfoldable pub check_from_warehouse : ℕ → Option ℕ → Tx (Unit {0})
check_from_warehouse company none = pure tt
check_from_warehouse company (some id) = do
  w ← or_throw (← gets (find_warehouse company id)) (not_found from_warehouse_not_found)
  pure tt

-- `foundIds`: the active items of the company among the given ones.
abbrev pub found_ids : ℕ → List ℕ → Store → List ℕ
found_ids company ids s =
    map (λ (i : Item). i.id)
      (keep (λ (i : Item). contains i.id ids && (i.company == company) && i.is_active) s.items)

abbrev pub missing_ids : ℕ → List ℕ → Store → List ℕ
missing_ids company ids s =
    let found = found_ids company ids s in keep (λ id. not (contains id found)) ids

-- The places of the request are the company's, and its items are active items of the company.
unfoldable pub check_notice : ℕ → NewAsn → Tx (Unit {0})
check_notice company dto = do
  throw_if (length dto.lines == 0) (bad_request lines_required)
  b ← or_throw (← gets (find_branch company dto.to_branch)) (not_found to_branch_not_found)
  w ← or_throw (← gets (find_warehouse company dto.to_warehouse)) (not_found to_warehouse_not_found)
  throw_if (not (w.branch == dto.to_branch)) (bad_request warehouse_not_in_branch)
  check_from_branch company dto.from_branch
  check_from_warehouse company dto.from_warehouse
  missing ← gets (missing_ids company (unique (map (λ (l : AsnLine). l.item) dto.lines)))
  throw_if (ltb 0 (length missing)) (bad_request invalid_item)

-- The result is the identifier of the new notice.
unfoldable pub create_asn : Engine → ℕ → ℕ → NewAsn → Tx ℕ
create_asn e company user dto = do
  check_notice company dto
  id ← gets e.new_id
  insert_asn (record {
    id = id;
    company = company;
    from_branch = dto.from_branch;
    from_warehouse = dto.from_warehouse;
    to_branch = dto.to_branch;
    to_warehouse = dto.to_warehouse;
    expected_date = dto.expected_date;
    status = AsnStatus.pending;
    created_by = user;
    lines = dto.lines;
  })
  pure id

unfoldable pub cancel_asn : ℕ → ℕ → Tx (Unit {0})
cancel_asn company id = do
  a ←
      or_throw (← gets (λ s. find_by (λ (a : Asn). (a.id == id) && (a.company == company)) s.asns))
        (not_found asn_not_found)
  throw_if (not (is_pending_asn a.status)) (bad_request asn_not_pending)
  update_asn id (λ r. record r { status = AsnStatus.cancelled })
