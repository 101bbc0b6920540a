-- ===== src/Returns/Change.antt =====
-- returns.service.ts: `update`, `cancel` and `decide`.
use Prim.Native.String.{String}
use warehousehub.Base.{
  ℕ, ◌+◌, Bool, true, false, ℤ, pos, eqb_ℤ, Option, none, some, List, [], ◌∷◌, ◌==◌, ◌||◌, not,
  find_by, length, if◌then◌else◌,
}
use warehousehub.Db.{
  StorageType, ReceiptLine, ReturnStatus, is_received, ReturnDecision, Engine, Tx, pure, throw_if,
  or_throw, gets, ◌>>=◌, ◌>>◌, not_found, bad_request, lines_required, receipt_not_found,
  only_received, invalid_line, line_decided, invalid_patch, new_line_incomplete, update_receipt,
  update_receipt_line, delete_receipt_line,
}
use warehousehub.Returns.Receive.{
  check_order, check_customer, check_items, insert_return_line, find_receipt, lines_of,
}

-- A field of a change request: `undefined`, `null` or a value.
pub data Field (A : Type 0) : Type 0 where
  unchanged cleared : Field A
  given : A → Field A

abbrev pub set_field : {A : Type 0} → Field A → Option A → Option A
set_field Field.unchanged old = old
set_field Field.cleared old = none
set_field (Field.given a) old = some a

-- The value if there is one, for `if (dto.customerId)`.
abbrev pub value_of : {A : Type 0} → Field A → Option A
value_of (Field.given a) = some a
value_of _ = none

abbrev pub or_old : {A : Type 0} → Option A → A → A
or_old none old = old
or_old (some a) old = a

pub record LinePatch : Type 0 where
  pub id : Option ℕ
  pub is_deleted : Bool
  pub item : Option ℕ
  pub outbound_line : Option ℕ
  pub storage : Option StorageType
  pub qty : Option ℤ
  pub expiry : Option ℕ
  pub clear_expiry : Bool

pub record ReceiptPatch : Type 0 where
  pub customer : Field ℕ
  pub order : Field ℕ
  pub received_at : Option ℕ
  pub memo : Field String
  pub lines : List LinePatch

-- The items that the patches name.
abbrev pub named_items : List LinePatch → List ℕ
named_items [] = []
named_items (p ∷ ps) = elim p.item [ none ↦ named_items ps | some i ↦ i ∷ named_items ps ]

abbrev pub has_value : {A : Type 0} → Option A → Bool
has_value none = false
has_value (some _) = true

abbrev pub patched_expiry : LinePatch → Option ℕ → Option ℕ
patched_expiry p old =
    if p.clear_expiry then none else elim p.expiry [ none ↦ old | some t ↦ some t ]

abbrev pub patched_line : LinePatch → ReceiptLine → ReceiptLine
patched_line p l = record l {
  item = or_old p.item l.item;
  outbound_line = elim p.outbound_line [ none ↦ l.outbound_line | some x ↦ some x ];
  storage = or_old p.storage l.storage;
  qty = or_old p.qty l.qty;
  expiry = patched_expiry p l.expiry;
  version = l.version + 1;
}

-- A patch of a line that was there; `known` are the receipt's lines from before the loop.
unfoldable pub patch_known : List ReceiptLine → LinePatch → ℕ → Tx (Unit {0})
patch_known known p id = do
  l ← or_throw (find_by (λ (l : ReceiptLine). l.id == id) known) (bad_request invalid_line)
  throw_if (has_value l.decision || has_value l.processed_at) (bad_request line_decided)
  if p.is_deleted then delete_receipt_line id else update_receipt_line id (patched_line p)

-- `!patch.qty` holds of a missing quantity and of 0.
abbrev pub nonzero : Option ℤ → Option ℤ
nonzero none = none
nonzero (some q) = if eqb_ℤ q (pos 0) then none else some q

unfoldable pub patch_new : Engine → ℕ → LinePatch → Tx (Unit {0})
patch_new e receipt p = do
  throw_if p.is_deleted (bad_request invalid_patch)
  item ← or_throw p.item (bad_request new_line_incomplete)
  storage ← or_throw p.storage (bad_request new_line_incomplete)
  qty ← or_throw (nonzero p.qty) (bad_request new_line_incomplete)
  insert_return_line e receipt (record {
    item = item;
    outbound_line = p.outbound_line;
    storage = storage;
    expiry = p.expiry;
    qty = qty;
  })

unfoldable pub patch_line : Engine → ℕ → List ReceiptLine → LinePatch → Option ℕ → Tx (Unit {0})
patch_line e receipt known p (some id) = patch_known known p id
patch_line e receipt known p none = patch_new e receipt p

unfoldable pub patch_lines : Engine → ℕ → List ReceiptLine → List LinePatch → Tx (Unit {0})
patch_lines e receipt known [] = pure tt
patch_lines e receipt known (p ∷ ps) =
    patch_line e receipt known p p.id >> patch_lines e receipt known ps

-- The checks of the request and the writes; `known` are the receipt's lines from before.
unfoldable pub apply_patch : Engine → ℕ → ℕ → ReceiptPatch → List ReceiptLine → Tx (Unit {0})
apply_patch e company id dto known = do
  check_customer company (value_of dto.customer)
  check_items company (named_items dto.lines)
  check_order company (value_of dto.order)
  update_receipt id (λ x. record x {
    customer = set_field dto.customer x.customer;
    order = set_field dto.order x.order;
    received_at = or_old dto.received_at x.received_at;
    memo = set_field dto.memo x.memo;
    version = x.version + 1;
  })
  patch_lines e id known dto.lines

unfoldable pub update_return : Engine → ℕ → ℕ → ReceiptPatch → Tx (Unit {0})
update_return e company id dto = do
  r ← or_throw (← gets (find_receipt company id)) (not_found receipt_not_found)
  known ← gets (lines_of id)
  throw_if (not (is_received r.status)) (bad_request only_received)
  apply_patch e company id dto known

unfoldable pub cancel_receipt : ℕ → ℕ → Tx (Unit {0})
cancel_receipt company id = do
  r ← or_throw (← gets (find_receipt company id)) (not_found receipt_not_found)
  throw_if (not (is_received r.status)) (bad_request only_received)
  update_receipt id (λ x. record x { status = ReturnStatus.cancelled; version = x.version + 1 })

pub record LineDecision : Type 0 where
  pub line : ℕ
  pub decision : ReturnDecision

-- The loop over the decisions.
unfoldable pub decide_lines : ℕ → ℕ → List ReceiptLine → List LineDecision → Tx (Unit {0})
decide_lines user now known [] = pure tt
decide_lines user now known (d ∷ ds) = do
  l ← or_throw (find_by (λ (l : ReceiptLine). l.id == d.line) known) (bad_request invalid_line)
  update_receipt_line d.line (λ x. record x {
    decision = some d.decision;
    decided_by = some user;
    decided_at = some now;
    version = x.version + 1;
  })
  decide_lines user now known ds

unfoldable pub decide_receipt : ℕ → ℕ → ℕ → List LineDecision → ℕ → Tx (Unit {0})
decide_receipt company user id ds now = do
  throw_if (length ds == 0) (bad_request lines_required)
  r ← or_throw (← gets (find_receipt company id)) (not_found receipt_not_found)
  known ← gets (lines_of id)
  throw_if (not (is_received r.status)) (bad_request only_received)
  decide_lines user now known ds
  update_receipt id (λ x. record x {
    status = ReturnStatus.decided;
    decided_by = some user;
    decided_at = some now;
    version = x.version + 1;
  })
