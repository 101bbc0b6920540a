-- ===== src/Items/Unique.antt =====
-- ItemsService.create: an item code is given once.
use Prim.Native.String.{String}
use text.Mathlib.TextPositions.{eq_refl}
use warehousehub.Base.{
  ℕ, List, ap, ◌∙◌, ◌≡◌, refl, true, false, ==_refl, exists_by, Bool-cases, inl, inr, ◌∷◌,
}
use warehousehub.Db.{Store, Item, Engine, err, Post, conflict, duplicate_code, ◌>>=◌, ◌>>◌}
use warehousehub.Items.{
  is_blank, normalize_required, has_code, insert_unique_item, new_item, NewItem, create_item,
}

module _ (e : Engine) (trim : String → String) (company : ℕ) where
  taken_refused :
      (dto : NewItem) (s : Store)
      → is_blank (trim dto.code) ≡ false
      → is_blank (trim dto.name) ≡ false
      → exists_by (has_code company (trim dto.code)) s.items ≡ true
      → create_item e trim company dto s ≡ err (conflict duplicate_code)
  unfolding create_item normalize_required insert_unique_item
  taken_refused dto s code name taken =
      rw (code, name) (rw (taken, insert_unique_item, ◌>>◌, ◌>>=◌) refl)

  same_code_found :
      (code : String) (i : Item) (is : List Item)
      → i.company ≡ company
      → code ≡ i.code
      → exists_by (has_code company code) (i ∷ is) ≡ true
  same_code_found code i is ours same = rw (ours, same, ==_refl company, eq_refl i.code) refl

  -- In the store that the creation of an item returns, a request for an item of the company whose
  -- code is the same after trimming is refused as a duplicate, if its name is not blank.
  pub create_item_once :
      (dto again : NewItem) (s : Store)
      → trim again.code ≡ trim dto.code
      → is_blank (trim again.name) ≡ false
      → Post
          (λ _ t. create_item e trim company again t ≡ err (conflict duplicate_code))
          (create_item e trim company dto s)
  unfolding create_item normalize_required insert_unique_item
  create_item_once dto again s same named = elim (Bool-cases (is_blank (trim dto.code))) [
    | inl blank ↦ rw blank tt
    | inr code ↦ elim (Bool-cases (is_blank (trim dto.name))) [
      | inl blank ↦ rw (code, blank) tt
      | inr name ↦ elim (Bool-cases (exists_by (has_code company (trim dto.code)) s.items)) [
        | inl taken ↦ rw (code, name) (rw (taken, Post, insert_unique_item, ◌>>◌, ◌>>=◌) tt)
        | inr free ↦
            rw (code, name)
              (rw (free, Post, insert_unique_item, ◌>>◌, ◌>>=◌)
                (taken_refused again _ (ap is_blank same ∙ code) named (
                  same_code_found (trim again.code)
                    (new_item (e.new_id s) company (trim dto.code) (trim dto.name) dto.unit_cost)
                    s.items refl same)))
      ]
    ]
  ]
