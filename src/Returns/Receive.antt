-- ===== src/Returns/Receive.antt =====
-- returns.service.ts: `create`, and the receipts as the other methods find them.
use Prim.Native.String.{String}
use warehousehub.Base.{
  ℕ, ℤ, Option, none, some, List, [], ◌∷◌, map, ◌==◌, ◌&&◌, not, keep, find_by, length, unique,
  contains,
}
use warehousehub.Db.{
  Store, StorageType, Item, Customer, Receipt, ReceiptLine, ReturnStatus, Engine, Tx, pure,
  throw_if, or_throw, gets, ◌>>=◌, ◌>>◌, bad_request, lines_required, invalid_order,
  invalid_customer, invalid_item, find_order, insert_receipt, insert_receipt_line,
}

pub record NewReturnLine : Type 0 where
  pub item : ℕ
  pub outbound_line : Option ℕ
  pub storage : StorageType
  pub expiry : Option ℕ
  pub qty : ℤ

pub record NewReceipt : Type 0 where
  pub customer : Option ℕ
  pub order : Option ℕ
  pub received_at : Option ℕ
  pub memo : Option String
  pub lines : List NewReturnLine

-- `if (dto.outboundOrderId)` and the check under it.
unfoldable pub check_order : ℕ → Option ℕ → Tx (Unit {0})
check_order company none = pure tt
check_order company (some id) = do
  o ← or_throw (← gets (find_order company id)) (bad_request invalid_order)
  pure tt

-- `if (dto.customerId)` and the check under it.
unfoldable pub check_customer : ℕ → Option ℕ → Tx (Unit {0})
check_customer company none = pure tt
check_customer company (some id) = do
  c ←
      or_throw
        (← gets
          (λ s. find_by (λ (c : Customer). (c.id == id) && (c.company == company)) s.customers))
        (bad_request invalid_customer)
  pure tt

-- The distinct items are the company's.
unfoldable pub check_items : ℕ → List ℕ → Tx (Unit {0})
check_items company ids = do
  found ← gets (λ s. keep (λ (i : Item). (i.company == company) && contains i.id ids) s.items)
  throw_if (not (length found == length (unique ids))) (bad_request invalid_item)

unfoldable pub insert_return_line : Engine → ℕ → NewReturnLine → Tx (Unit {0})
insert_return_line e receipt l = do
  id ← gets e.new_id
  insert_receipt_line (record {
    id = id;
    receipt = receipt;
    item = l.item;
    outbound_line = l.outbound_line;
    storage = l.storage;
    expiry = l.expiry;
    qty = l.qty;
    decision = none;
    decided_by = none;
    decided_at = none;
    processed_by = none;
    processed_at = none;
    version = 1;
  })

unfoldable pub insert_return_lines : Engine → ℕ → List NewReturnLine → Tx (Unit {0})
insert_return_lines e receipt [] = pure tt
insert_return_lines e receipt (l ∷ ls) =
    insert_return_line e receipt l >> insert_return_lines e receipt ls

abbrev or_now : ℕ → Option ℕ → ℕ
or_now now none = now
or_now now (some t) = t

-- `returnReceipt.create`, with its lines.
unfoldable pub write_receipt : Engine → ℕ → ℕ → NewReceipt → ℕ → Tx ℕ
write_receipt e company user dto now = do
  id ← gets e.new_id
  insert_receipt (record {
    id = id;
    company = company;
    customer = dto.customer;
    order = dto.order;
    received_at = or_now now dto.received_at;
    status = ReturnStatus.received;
    memo = dto.memo;
    received_by = user;
    decided_by = none;
    decided_at = none;
    completed_by = none;
    completed_at = none;
    version = 1;
  })
  insert_return_lines e id dto.lines
  pure id

-- The result is the identifier of the new receipt.
unfoldable pub create_receipt : Engine → ℕ → ℕ → NewReceipt → ℕ → Tx ℕ
create_receipt e company user dto now = do
  throw_if (length dto.lines == 0) (bad_request lines_required)
  check_order company dto.order
  check_customer company dto.customer
  check_items company (map (λ l. l.item) dto.lines)
  write_receipt e company user dto now

abbrev pub find_receipt : ℕ → ℕ → Store → Option Receipt
find_receipt company id s = find_by (λ r. (r.id == id) && (r.company == company)) s.receipts

-- `include: { lines: true }`
abbrev pub lines_of : ℕ → Store → List ReceiptLine
lines_of id s = keep (λ l. l.receipt == id) s.receipt_lines
