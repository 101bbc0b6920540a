-- ===== src/Items.antt =====
-- apps/api/src/modules/items/items.service.ts: the items of a company.
pub mod Unique
use Prim.Native.String.{String}
use Prim.Native.String as Str
use text.Mathlib.Text.{◌==◌ as str_eq}
use warehousehub.Base.{
  ℕ, Bool, true, false, ℤ, Option, none, some, ◌∷◌, ◌==◌, ◌&&◌, not, exists_by, find_by,
  if◌then◌else◌,
}
use warehousehub.Db.{
  Store, Item, Engine, Tx, pure, throw, throw_if, or_throw, gets, ◌>>=◌, ◌>>◌, ok, err, not_found,
  bad_request, conflict, field_required, duplicate_code, item_not_found, update_item,
}

abbrev pub is_blank : String → Bool
is_blank Str.[] = true
is_blank _ = false

-- normalizeRequiredString
unfoldable pub normalize_required : (String → String) → String → Tx String
normalize_required trim value =
    throw_if (is_blank (trim value)) (bad_request field_required) >> pure (trim value)

-- normalizeRequiredStringForUpdate; a field that is not given keeps its value.
unfoldable pub normalize_for_update : (String → String) → String → Option String → Tx String
normalize_for_update trim old none = pure old
normalize_for_update trim old (some value) = normalize_required trim value

-- The unique key of the items, `@@unique([companyId, itemCode])`.
abbrev pub has_code : ℕ → String → Item → Bool
has_code company code i = (i.company == company) && str_eq i.code code

-- `item.create`, with the conflict that a taken code gives.
unfoldable pub insert_unique_item : Item → Tx (Unit {0})
insert_unique_item i s =
    if exists_by (has_code i.company i.code) s.items
    then err (conflict duplicate_code)
    else ok tt (record s { items = i ∷ s.items })

pub record NewItem : Type 0 where
  pub code : String
  pub name : String
  pub unit_cost : Option ℤ

abbrev pub new_item : ℕ → ℕ → String → String → Option ℤ → Item
new_item id company code name cost = record {
  id = id;
  company = company;
  code = code;
  name = name;
  unit_cost = cost;
  is_active = true;
}

-- The result is the identifier of the new item.
unfoldable pub create_item : Engine → (String → String) → ℕ → NewItem → Tx ℕ
create_item e trim company dto = do
  code ← normalize_required trim dto.code
  name ← normalize_required trim dto.name
  id ← gets e.new_id
  insert_unique_item (new_item id company code name dto.unit_cost)
  pure id

abbrev pub find_item : ℕ → ℕ → Store → Option Item
find_item company id s = find_by (λ (i : Item). (i.id == id) && (i.company == company)) s.items

-- `unit_cost` is absent if the request leaves the cost alone.
pub record ItemChange : Type 0 where
  pub code : Option String
  pub name : Option String
  pub unit_cost : Option (Option ℤ)

abbrev pub cost_after : Option (Option ℤ) → Option ℤ → Option ℤ
cost_after none old = old
cost_after (some cost) old = cost

-- Another item of the company has the code.
abbrev pub code_is_taken : ℕ → ℕ → String → Store → Bool
code_is_taken company id code s =
    exists_by (λ (i : Item). not (i.id == id) && has_code company code i) s.items

unfoldable pub change_item : (String → String) → ℕ → ℕ → ItemChange → Tx (Unit {0})
change_item trim company id dto = do
  found ← or_throw (← gets (find_item company id)) (not_found item_not_found)
  code ← normalize_for_update trim found.code dto.code
  name ← normalize_for_update trim found.name dto.name
  throw_if (← gets (code_is_taken company id code)) (conflict duplicate_code)
  update_item id
      (λ i. record i { code = code; name = name; unit_cost = cost_after dto.unit_cost i.unit_cost })

-- `deactivate` and `activate`.
unfoldable pub set_item_active : Bool → ℕ → ℕ → Tx (Unit {0})
set_item_active active company id = do
  found ← or_throw (← gets (find_item company id)) (not_found item_not_found)
  update_item id (λ i. record i { is_active = active })
