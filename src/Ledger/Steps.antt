-- ===== src/Ledger/Steps.antt =====
-- The two moves of the ledger: a reservation adds an allocation and raises the reserved quantity
-- of its stock row; a closing takes both down again.
use warehousehub.Base.{
  ◌≡◌, sym, subst, Bool, true, false, ℤ, pos, ◌+ℤ◌, ◌-ℤ◌, ◌≤ℤ◌, int_laws, +ℤ-zero, Option, some,
  List, ◌∷◌, ◌==◌, arith, All, Distinct, find_by, update_first, sum_of-update_first,
  All-update_first, Distinct-update_first, find_by_test, exists_by, exists_by-update_first,
  find_by-exists_other, All-map, if◌then◌else◌, ==_refl,
}
use warehousehub.Db.{Stock, StockKey, has_key, points_to, Allocation, is_open}
use warehousehub.Ledger.{
  IsSound, same_stock, same_key, same_allocation, key_of, hand_by, hand_at, reserved_by, held_by,
  reserved_at, held_at,
}

pub same_stock_refl : (a : Stock) → same_stock a a ≡ true
same_stock_refl a = ==_refl a.id

pub same_stock_symm : (a b : Stock) → same_stock a b ≡ same_stock b a
same_stock_symm a b = ground arith

pub same_key_refl : (a : Stock) → same_key a a ≡ true
same_key_refl a = ground arith

pub same_key_symm : (a b : Stock) → same_key a b ≡ same_key b a
same_key_symm a b = ground arith

pub same_allocation_refl : (a : Allocation) → same_allocation a a ≡ true
same_allocation_refl a = ==_refl a.id

pub same_allocation_symm : (a b : Allocation) → same_allocation a b ≡ same_allocation b a
same_allocation_symm a b = ground arith

-- An update of a stock row that keeps its identity.
abbrev pub KeepsIdentity : (Stock → Stock) → Type 0
KeepsIdentity f =
    (r : Stock)
    → ((f r).id ≡ r.id)
      × ((f r).company ≡ r.company)
      × ((f r).warehouse ≡ r.warehouse)
      × ((f r).lot ≡ r.lot)

-- An update of an allocation that keeps its identity and the stock row it points to.
abbrev pub KeepsKey : (Allocation → Allocation) → Type 0
KeepsKey g =
    (b : Allocation)
    → ((g b).id ≡ b.id)
      × ((g b).company ≡ b.company)
      × ((g b).warehouse ≡ b.warehouse)
      × ((g b).lot ≡ b.lot)

has_key-keeps :
    (k : StockKey) (f : Stock → Stock)
    → KeepsIdentity f
    → (r : Stock) → has_key k (f r) ≡ has_key k r
has_key-keeps k f same r = ground (arith, same r)

pub backed_after :
    (p : Stock → Bool) (f : Stock → Stock) (stocks : List Stock) {stocks' : List Stock}
    (allocations : List Allocation)
    → update_first p f stocks ≡ some stocks'
    → KeepsIdentity f
    → All (λ a. exists_by (has_key (key_of a)) stocks ≡ true) allocations
    → All (λ a. exists_by (has_key (key_of a)) stocks' ≡ true) allocations
backed_after p f stocks {stocks'} allocations upd same =
    All-map (λ a. exists_by (has_key (key_of a)) stocks ≡ true)
      (λ a. exists_by (has_key (key_of a)) stocks' ≡ true)
      (λ a h.
        rw
          (exists_by-update_first (has_key (key_of a)) p f stocks upd
            (λ r. has_key-keeps (key_of a) f same r))
          h)
      allocations

-- The stock side of a move by which the row `r` changes its reserved quantity by `delta`.
pub stocks_after :
    (p : Stock → Bool) (f : Stock → Stock) (stocks : List Stock) {stocks' : List Stock}
    (allocations : List Allocation)
    → IsSound stocks allocations
    → update_first p f stocks ≡ some stocks'
    → KeepsIdentity f
    → ((r : Stock)
        → find_by p stocks ≡ some r
        → r.reserved ≤ℤ r.on_hand
        → (f r).reserved ≤ℤ (f r).on_hand)
    → Distinct same_stock stocks'
      × Distinct same_key stocks'
      × All (λ r. r.reserved ≤ℤ r.on_hand) stocks'
stocks_after p f stocks allocations v h same cover = (
  Distinct-update_first same_stock same_stock_refl same_stock_symm p f stocks h
      (λ a b. rw (same b).0) v.stock_ids,
  Distinct-update_first same_key same_key_refl same_key_symm p f stocks h
      (λ a b. ground (arith, same b)) v.stock_keys,
  All-update_first (λ r. r.reserved ≤ℤ r.on_hand) p f stocks h cover v.covered,
)

-- Both sides of the books change by the same quantity, so they stay equal.
balance : (x x' y u u' w : ℤ) → x ≡ y → x' +ℤ u ≡ x +ℤ u' → u' ≡ u +ℤ w → x' ≡ w +ℤ y
balance x x' y u u' w e p d = grind int_laws

pub some-eq {ℓ} : {A : Type ℓ} {a b : A} (o : Option A) → o ≡ some a → o ≡ some b → b ≡ a
some-eq o p q = cc

-- What a row and its new allocation add at a key is the same.
reserved_by-reserve :
    (k : StockKey) (c d : Stock) (a : Allocation) (take : ℤ)
    → (d.company ≡ c.company) × (d.warehouse ≡ c.warehouse) × (d.lot ≡ c.lot)
    → d.reserved ≡ c.reserved +ℤ take
    → (a.company ≡ c.company) × (a.warehouse ≡ c.warehouse) × (a.lot ≡ c.lot) × (a.qty ≡ take)
    → is_open a ≡ true
    → reserved_by k d ≡ reserved_by k c +ℤ held_by k a
reserved_by-reserve k c d a take same res key opened = ground (arith, +ℤ-zero (pos 0))

module _ (stocks : List Stock) (allocations : List Allocation)
    (v : IsSound stocks allocations) where
  -- A reservation of `take` on the row `c` for the new allocation `a`.
  pub reserve-IsSound :
      (c : Stock) (a : Allocation) (take : ℤ) (f : Stock → Stock) {stocks' : List Stock}
      → find_by (λ r. r.id == c.id) stocks ≡ some c
      → update_first (λ r. r.id == c.id) f stocks ≡ some stocks'
      → KeepsIdentity f
      → (f c).reserved ≡ c.reserved +ℤ take
      → (f c).on_hand ≡ c.on_hand
      → pos 0 ≤ℤ take
      → take ≤ℤ c.on_hand -ℤ c.reserved
      → (a.company ≡ c.company) × (a.warehouse ≡ c.warehouse) × (a.lot ≡ c.lot) × (a.qty ≡ take)
      → is_open a ≡ true
      → All (λ b. same_allocation b a ≡ false) allocations
      → IsSound stocks' (a ∷ allocations)
  reserve-IsSound c a take f {stocks'} found upd same res hand nonneg room key opened fresh =
      record {
        stock_ids = sides.0;
        stock_keys = sides.1;
        allocation_ids = (fresh, v.allocation_ids);
        covered = sides.2;
        nonneg = (rw key.3 nonneg, v.nonneg);
        backed = (
          rw
              (exists_by-update_first (has_key (key_of a)) (λ r. r.id == c.id) f stocks upd
                (λ r. has_key-keeps (key_of a) f same r))
              (find_by-exists_other (λ r. r.id == c.id) (has_key (key_of a)) stocks found
                (ground arith)),
          backed_after (λ r. r.id == c.id) f stocks allocations upd same v.backed,
        );
        reconciled = books;
      }
    where
      cover :
          (r : Stock)
          → find_by (λ r. r.id == c.id) stocks ≡ some r
          → r.reserved ≤ℤ r.on_hand
          → (f r).reserved ≤ℤ (f r).on_hand
      cover r e h =
          rw (some-eq (find_by (λ r. r.id == c.id) stocks) found e, res, hand) (omega int_laws)

      sides :
          Distinct same_stock stocks'
          × Distinct same_key stocks'
          × All (λ r. r.reserved ≤ℤ r.on_hand) stocks'
      sides = stocks_after (λ r. r.id == c.id) f stocks allocations v upd same cover

      books : (k : StockKey) → reserved_at k stocks' ≡ held_at k (a ∷ allocations)
      books k =
          let (r, e, moved) =
            sum_of-update_first (reserved_by k) (λ r. r.id == c.id) f stocks upd in
          let is_c : r ≡ c = some-eq (find_by (λ r. r.id == c.id) stocks) found e in
          balance (reserved_at k stocks) (reserved_at k stocks') (held_at k allocations)
            (reserved_by k c) (reserved_by k (f c)) (held_by k a) (v.reconciled k)
            (subst
              (λ x.
                reserved_at k stocks' +ℤ reserved_by k x
                ≡ reserved_at k stocks +ℤ reserved_by k (f x))
              is_c moved)
            (reserved_by-reserve k c (f c) a take ((same c).1, (same c).2, (same c).3) res key
              opened)

balance_down :
    (x x' y y' u u' w w' z : ℤ)
    → x ≡ y
    → x' +ℤ u ≡ x +ℤ u'
    → y' +ℤ w ≡ y +ℤ w'
    → u ≡ u' +ℤ z
    → w ≡ w' +ℤ z
    → x' ≡ y'
balance_down x x' y y' u u' w w' z e p q du dw = grind int_laws

-- The part of a quantity that counts at a key.
abbrev pub counted_at : StockKey → Allocation → ℤ → ℤ
counted_at k a q = if points_to k a then q else pos 0

sub-add : (a b : ℤ) → a ≡ a -ℤ b +ℤ b
sub-add a b = omega int_laws

reserved_by-close :
    (k k₀ : StockKey) (r d : Stock) (a : Allocation) (q : ℤ)
    → has_key k₀ r ≡ true
    → (d.company ≡ r.company) × (d.warehouse ≡ r.warehouse) × (d.lot ≡ r.lot)
    → d.reserved ≡ r.reserved -ℤ q
    → (a.company ≡ k₀.company) × (a.warehouse ≡ k₀.warehouse) × (a.lot ≡ k₀.lot)
    → reserved_by k r ≡ reserved_by k d +ℤ counted_at k a q
reserved_by-close k k₀ r d a q at same res key =
    ground (arith, +ℤ-zero (pos 0), sub-add r.reserved q)

module _ (stocks : List Stock) (allocations : List Allocation)
    (v : IsSound stocks allocations) where
  -- The stock row at `k₀` and the allocation `a` that points to it give up `q` together.
  pub close-IsSound :
      (k₀ : StockKey) (a : Allocation) (q : ℤ) (f : Stock → Stock) (g : Allocation → Allocation)
      {stocks' : List Stock} {allocations' : List Allocation}
      → update_first (has_key k₀) f stocks ≡ some stocks'
      → find_by (λ b. b.id == a.id) allocations ≡ some a
      → update_first (λ b. b.id == a.id) g allocations ≡ some allocations'
      → KeepsIdentity f
      → ((r : Stock) → (f r).reserved ≡ r.reserved -ℤ q)
      → ((r : Stock) → r.reserved ≤ℤ r.on_hand → (f r).reserved ≤ℤ (f r).on_hand)
      → (a.company ≡ k₀.company) × (a.warehouse ≡ k₀.warehouse) × (a.lot ≡ k₀.lot)
      → KeepsKey g
      → pos 0 ≤ℤ (g a).qty
      → ((k : StockKey) → held_by k a ≡ held_by k (g a) +ℤ counted_at k a q)
      → IsSound stocks' allocations'
  close-IsSound k₀ a q f g {stocks'} {allocations'} upd found closed same res cover key keep nonneg
        part =
      record {
        stock_ids = sides.0;
        stock_keys = sides.1;
        allocation_ids =
            Distinct-update_first same_allocation same_allocation_refl same_allocation_symm
              (λ b. b.id == a.id) g allocations closed (λ x b. ground (arith, keep b))
              v.allocation_ids;
        covered = sides.2;
        nonneg =
            All-update_first (λ b. pos 0 ≤ℤ b.qty) (λ b. b.id == a.id) g allocations closed
              (λ b e _. subst (λ c. pos 0 ≤ℤ (g c).qty) (sym (is_a b e)) nonneg) v.nonneg;
        backed =
            All-update_first (λ b. exists_by (has_key (key_of b)) stocks' ≡ true)
              (λ b. b.id == a.id) g allocations closed (λ b _ h. ground (arith, keep b, h))
              (backed_after (has_key k₀) f stocks allocations upd same v.backed);
        reconciled = books;
      }
    where
      is_a : (b : Allocation) → find_by (λ b. b.id == a.id) allocations ≡ some b → b ≡ a
      is_a b e = some-eq (find_by (λ b. b.id == a.id) allocations) found e

      sides :
          Distinct same_stock stocks'
          × Distinct same_key stocks'
          × All (λ r. r.reserved ≤ℤ r.on_hand) stocks'
      sides = stocks_after (has_key k₀) f stocks allocations v upd same (λ r _ h. cover r h)

      books : (k : StockKey) → reserved_at k stocks' ≡ held_at k allocations'
      books k =
          let (r, e, moved) = sum_of-update_first (reserved_by k) (has_key k₀) f stocks upd in
          let (b, e', moved') =
            sum_of-update_first (held_by k) (λ b. b.id == a.id) g allocations closed in
          balance_down (reserved_at k stocks) (reserved_at k stocks') (held_at k allocations)
            (held_at k allocations') (reserved_by k r) (reserved_by k (f r)) (held_by k a)
            (held_by k (g a)) (counted_at k a q) (v.reconciled k) moved
            (subst
              (λ x.
                held_at k allocations' +ℤ held_by k x ≡ held_at k allocations +ℤ held_by k (g x))
              (is_a b e') moved')
            (reserved_by-close k k₀ r (f r) a q (find_by_test (has_key k₀) stocks e)
              ((same r).1, (same r).2, (same r).3) (res r) key)
            (part k)

hand_by-close :
    (k k₀ : StockKey) (r d : Stock) (a : Allocation) (q : ℤ)
    → has_key k₀ r ≡ true
    → (d.company ≡ r.company) × (d.warehouse ≡ r.warehouse) × (d.lot ≡ r.lot)
    → d.on_hand ≡ r.on_hand -ℤ q
    → (a.company ≡ k₀.company) × (a.warehouse ≡ k₀.warehouse) × (a.lot ≡ k₀.lot)
    → hand_by k r ≡ hand_by k d +ℤ counted_at k a q
hand_by-close k k₀ r d a q at same res key = ground (arith, +ℤ-zero (pos 0), sub-add r.on_hand q)

move_down : (x x' u u' z : ℤ) → x' +ℤ u ≡ x +ℤ u' → u ≡ u' +ℤ z → x' +ℤ z ≡ x
move_down x x' u u' z p d = grind int_laws

-- A row that gives up `q` of what it holds lowers the physical quantity at its key by `q`.
pub hand_at-close :
    (stocks : List Stock) (k₀ : StockKey) (a : Allocation) (q : ℤ) (f : Stock → Stock)
    {stocks' : List Stock}
    → update_first (has_key k₀) f stocks ≡ some stocks'
    → KeepsIdentity f
    → ((r : Stock) → (f r).on_hand ≡ r.on_hand -ℤ q)
    → (a.company ≡ k₀.company) × (a.warehouse ≡ k₀.warehouse) × (a.lot ≡ k₀.lot)
    → (k : StockKey) → hand_at k stocks' +ℤ counted_at k a q ≡ hand_at k stocks
hand_at-close stocks k₀ a q f {stocks'} upd same less key k =
    let (r, e, moved) = sum_of-update_first (hand_by k) (has_key k₀) f stocks upd in
    move_down (hand_at k stocks) (hand_at k stocks') (hand_by k r) (hand_by k (f r))
      (counted_at k a q) moved
      (hand_by-close k k₀ r (f r) a q (find_by_test (has_key k₀) stocks e)
        ((same r).1, (same r).2, (same r).3) (less r) key)
