-- ===== src/Lots/WarehouseMap.antt =====
-- What the map from storage types to warehouses holds.
use warehousehub.Base.{
  ℕ, ◌≡◌, refl, ap, ◌∙◌, sym, Bool, true, Option, none, some, List, [], ◌∷◌, ◌&&◌, if◌then◌else◌,
  Bool-cases, Option-cases, inl, inr,
}
use warehousehub.Db.{Warehouse, StorageType}
use warehousehub.Lots.{
  same_storage, TypeEntry, map_get, is_missing, enter_warehouses, warehouse_by_type,
}

-- The identifier of the first warehouse of the type that passes the test.
abbrev pub first_of : (Warehouse → Bool) → StorageType → List Warehouse → Option ℕ
first_of p k [] = none
first_of p k (w ∷ ws) =
    let rest = first_of p k ws in if p w && same_storage w.storage k then some w.id else rest

abbrev pub or_else : {A : Type 0} → Option A → Option A → Option A
or_else none b = b
or_else (some a) b = some a

or_else-none : (o : Option ℕ) → or_else o none ≡ o
or_else-none none = refl
or_else-none (some a) = refl

same_storage_eq : (a b : StorageType) → same_storage a b ≡ true → a ≡ b
same_storage_eq StorageType.dry StorageType.dry h = refl
same_storage_eq StorageType.cool StorageType.cool h = refl
same_storage_eq StorageType.frz StorageType.frz h = refl
same_storage_eq StorageType.dry StorageType.cool h = cc
same_storage_eq StorageType.dry StorageType.frz h = cc
same_storage_eq StorageType.cool StorageType.dry h = cc
same_storage_eq StorageType.cool StorageType.frz h = cc
same_storage_eq StorageType.frz StorageType.dry h = cc
same_storage_eq StorageType.frz StorageType.cool h = cc

new_entry :
    (p : Warehouse → Bool) (k : StorageType) (w : Warehouse) (ws : List Warehouse)
    (m : List TypeEntry)
    → map_get w.storage m ≡ none
    → or_else (map_get k ((record { storage = w.storage; warehouse = w.id }) ∷ m)) (first_of p k ws)
      ≡ or_else (map_get k m) (if same_storage w.storage k then some w.id else first_of p k ws)
new_entry p k w ws m missing = elim (Bool-cases (same_storage w.storage k)) [
  | inl same ↦
      let gone : map_get k m ≡ none = rw (← same_storage_eq w.storage k same) missing in
      rw (same, gone) refl
  | inr other ↦ rw other refl
]

old_entry :
    (p : Warehouse → Bool) (k : StorageType) (w : Warehouse) (ws : List Warehouse)
    (m : List TypeEntry) (y : ℕ)
    → map_get w.storage m ≡ some y
    → or_else (map_get k m) (first_of p k ws)
      ≡ or_else (map_get k m) (if same_storage w.storage k then some w.id else first_of p k ws)
old_entry p k w ws m y there = elim (Bool-cases (same_storage w.storage k)) [
  | inl same ↦
      let kept : map_get k m ≡ some y = rw (← same_storage_eq w.storage k same) there in
      rw kept refl
  | inr other ↦ rw other refl
]

enter_lem :
    (p : Warehouse → Bool) (k : StorageType) (ws : List Warehouse) (m : List TypeEntry)
    → map_get k (enter_warehouses p ws m) ≡ or_else (map_get k m) (first_of p k ws)
unfolding enter_warehouses
enter_lem p k [] m = sym (or_else-none (map_get k m))
enter_lem p k (w ∷ ws) m = elim (Bool-cases (p w)) [
  | inr skipped ↦ rw skipped (enter_lem p k ws m)
  | inl hit ↦ elim (Option-cases (map_get w.storage m)) [
    | inl missing ↦
        rw (hit, missing, is_missing)
          (enter_lem p k ws ((record { storage = w.storage; warehouse = w.id }) ∷ m)
            ∙ new_entry p k w ws m missing)
    | inr (y, there) ↦
        rw (hit, there, is_missing) (enter_lem p k ws m ∙ old_entry p k w ws m y there)
  ]
]

-- The map gives a storage type its first warehouse of the default region, and the first of the type
-- where no warehouse of the type is in the default region.
pub map_get-warehouse_by_type :
    (ws : List Warehouse) (k : StorageType)
    → map_get k (warehouse_by_type ws)
      ≡ or_else (first_of (λ w. w.is_default_region) k ws) (first_of (λ w. true) k ws)
unfolding warehouse_by_type
map_get-warehouse_by_type ws k =
    enter_lem (λ w. true) k ws (enter_warehouses (λ w. w.is_default_region) ws [])
    ∙ ap (λ o. or_else o (first_of (λ w. true) k ws)) (enter_lem (λ w. w.is_default_region) k ws [])
