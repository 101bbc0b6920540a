-- ===== src/Examples/Sorting.antt =====
-- A database engine that sorts by insertion and numbers new rows by the largest identifier in use.
use mathlib.Core.List.{Permᴰ}
use mathlib.Core.List.Permᴰ as Perm
use warehousehub.Base.{
  ℕ, suc, ◌≡◌, refl, ◌+◌, ◌≤◌, Bool, true, false, List, [], ◌∷◌, map, All, All-map, All-permᴰ,
  arith, ◌==◌, ltb, leb, Bool-cases, inl, inr, if◌then◌else◌,
}
use warehousehub.Db.{
  Store, Stock, Allocation, Order, Line, InventoryTx, Transfer, Stocktaking, CountLine, Asn, Item,
  Lot, Upload, Receipt, ReceiptLine, Engine, IsEngine, lex_leb, IsOrdered,
}

lex_leb_total : (x y : List ℕ) → lex_leb x y ≡ false → lex_leb y x ≡ true
lex_leb_total [] y h = ground arith
lex_leb_total (a ∷ x) [] h = refl
lex_leb_total (a ∷ x) (b ∷ y) h = ground (arith, lex_leb_total x y)

lex_leb_trans : (x y z : List ℕ) → lex_leb x y ≡ true → lex_leb y z ≡ true → lex_leb x z ≡ true
lex_leb_trans [] y z h k = refl
lex_leb_trans (a ∷ x) [] z h k = ground arith
lex_leb_trans (a ∷ x) (b ∷ y) [] h k = ground arith
lex_leb_trans (a ∷ x) (b ∷ y) (c ∷ z) h k = ground (arith, lex_leb_trans x y z)

module _ {A : Type 0} (le : A → A → Bool) where
  abbrev pub insert : A → List A → List A
  insert a [] = a ∷ []
  insert a (b ∷ l) = if le a b then a ∷ b ∷ l else b ∷ insert a l

  abbrev pub sort : List A → List A
  sort [] = []
  sort (a ∷ l) = insert a (sort l)

  insert-permᴰ : (a : A) (l : List A) → Permᴰ (a ∷ l) (insert a l)
  insert-permᴰ a [] = Perm.refl (a ∷ [])
  insert-permᴰ a (b ∷ l) = elim (Bool-cases (le a b)) [
    | inl e ↦ rw e (Perm.refl (a ∷ b ∷ l))
    | inr e ↦ rw e (Perm.trans (Perm.swap refl refl) (Perm.cons refl (insert-permᴰ a l)))
  ]

  pub sort-permᴰ : (l : List A) → Permᴰ l (sort l)
  sort-permᴰ [] = Perm.nil
  sort-permᴰ (a ∷ l) = Perm.trans (Perm.cons refl (sort-permᴰ l)) (insert-permᴰ a (sort l))

  module _ (total : (a b : A) → le a b ≡ false → le b a ≡ true)
      (transitive : (a b c : A) → le a b ≡ true → le b c ≡ true → le a c ≡ true) where
    insert-IsOrdered : (a : A) (l : List A) → IsOrdered le l → IsOrdered le (insert a l)
    insert-IsOrdered a [] h = (tt, tt)
    insert-IsOrdered a (b ∷ l) h = elim (Bool-cases (le a b)) [
      | inl e ↦ rw e (
        (e, All-map (λ y. le b y ≡ true) (λ y. le a y ≡ true) (λ y k. transitive a b y e k) l h.0),
        h,
      )
      | inr e ↦ rw e (
        All-permᴰ (λ y. le b y ≡ true) (insert-permᴰ a l) (total a b e, h.0),
        insert-IsOrdered a l h.1,
      )
    ]

    pub sort-IsOrdered : (l : List A) → IsOrdered le (sort l)
    sort-IsOrdered [] = tt
    sort-IsOrdered (a ∷ l) = insert-IsOrdered a (sort l) (sort-IsOrdered l)

abbrev largest : List ℕ → ℕ
largest [] = 0
largest (x ∷ l) = let m = largest l in if ltb m x then x else m

above_largest : (l : List ℕ) (m : ℕ) → largest l ≤ m → All (λ x. (x == suc m) ≡ false) l
above_largest [] m h = tt
above_largest (x ∷ l) m h = (ground arith, above_largest l m (ground arith))

All-of_map :
    {A : Type 0} (f : A → ℕ) (m : ℕ) (l : List A)
    → All (λ x. (x == m) ≡ false) (map f l)
    → All (λ a. (f a == m) ≡ false) l
All-of_map f m [] h = tt
All-of_map f m (a ∷ l) h = (h.0, All-of_map f m l h.1)

abbrev pub next_id : Store → ℕ
next_id s = suc (
    largest (map (λ (r : Stock). r.id) s.stocks)
    + largest (map (λ (a : Allocation). a.id) s.allocations)
    + largest (map (λ (x : Order). x.id) s.orders)
    + largest (map (λ (x : Line). x.id) s.lines)
    + largest (map (λ (x : InventoryTx). x.id) s.txs)
    + largest (map (λ (x : Transfer). x.id) s.transfers)
    + largest (map (λ (x : Stocktaking). x.id) s.stocktakings)
    + largest (map (λ (x : CountLine). x.id) s.count_lines)
    + largest (map (λ (x : Asn). x.id) s.asns)
    + largest (map (λ (x : Item). x.id) s.items)
    + largest (map (λ (x : Lot). x.id) s.lots)
    + largest (map (λ (x : Upload). x.id) s.uploads)
    + largest (map (λ (x : Receipt). x.id) s.receipts)
    + largest (map (λ (x : ReceiptLine). x.id) s.receipt_lines))

-- The comparison of two rows by the columns of a key.
abbrev by_columns : {A : Type 0} → (A → List ℕ) → A → A → Bool
by_columns key a b = lex_leb (key a) (key b)

abbrev newer : Allocation → Allocation → Bool
newer a b = leb b.created_at a.created_at

abbrev pub engine : Engine
engine = record {
  order_stocks = λ key l. sort (by_columns key) l;
  newest_first = λ l. sort newer l;
  new_id = next_id;
}

pub engine-IsEngine : IsEngine engine
engine-IsEngine = record {
  order_stocks-permᴰ = λ key l. sort-permᴰ (by_columns key) l;
  order_stocks-IsOrdered = λ key l.
      sort-IsOrdered (by_columns key) (λ a b. lex_leb_total (key a) (key b))
        (λ a b c. lex_leb_trans (key a) (key b) (key c)) l;
  newest_first-IsOrdered =
      λ l. sort-IsOrdered newer (λ a b h. ground arith) (λ a b c h k. ground arith) l;
  newest_first-permᴰ = λ l. sort-permᴰ newer l;
  new_id-stocks =
      λ s. All-of_map (λ (r : Stock). r.id) _ s.stocks (above_largest _ _ (omega arith));
  new_id-allocations =
      λ s. All-of_map (λ (a : Allocation). a.id) _ s.allocations (above_largest _ _ (omega arith));
  new_id-orders =
      λ s. All-of_map (λ (x : Order). x.id) _ s.orders (above_largest _ _ (omega arith));
  new_id-lines = λ s. All-of_map (λ (x : Line). x.id) _ s.lines (above_largest _ _ (omega arith));
  new_id-txs =
      λ s. All-of_map (λ (x : InventoryTx). x.id) _ s.txs (above_largest _ _ (omega arith));
  new_id-transfers =
      λ s. All-of_map (λ (x : Transfer). x.id) _ s.transfers (above_largest _ _ (omega arith));
  new_id-stocktakings = λ s.
      All-of_map (λ (x : Stocktaking). x.id) _ s.stocktakings (above_largest _ _ (omega arith));
  new_id-count_lines =
      λ s. All-of_map (λ (x : CountLine). x.id) _ s.count_lines (above_largest _ _ (omega arith));
  new_id-asns = λ s. All-of_map (λ (x : Asn). x.id) _ s.asns (above_largest _ _ (omega arith));
  new_id-items = λ s. All-of_map (λ (x : Item). x.id) _ s.items (above_largest _ _ (omega arith));
  new_id-lots = λ s. All-of_map (λ (x : Lot). x.id) _ s.lots (above_largest _ _ (omega arith));
  new_id-uploads =
      λ s. All-of_map (λ (x : Upload). x.id) _ s.uploads (above_largest _ _ (omega arith));
  new_id-receipts =
      λ s. All-of_map (λ (x : Receipt). x.id) _ s.receipts (above_largest _ _ (omega arith));
  new_id-receipt_lines = λ s.
      All-of_map (λ (x : ReceiptLine). x.id) _ s.receipt_lines (above_largest _ _ (omega arith));
}
