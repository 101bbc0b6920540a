-- ===== src/Workflow/Final.antt =====
-- A delivered or cancelled order keeps its status.
pub mod Inner
pub mod Calls
pub mod Edits
pub mod Runs
use warehousehub.Base.{
  ℕ, ◌≡◌, refl, sym, ap, ◌∙◌, Bool, true, false, Option, none, some, List, [], ◌∷◌, ◌==◌, ◌&&◌,
  ◌||◌, not, Distinct, Distinct-update_first, update_first, find_by, find_by_test, find_by-All,
  find_by-Distinct, find_by-update_first, Bool-cases, Option-cases, inl, inr, ◌⊎◌, arith, ==_refl,
  All,
}
use warehousehub.Db.{
  Store, Order, OutboundStatus, Tx, Post, err, Error, throw_if, or_throw, gets, ◌>>=◌, ◌>>◌,
  update_order, insert_order, find_order,
}
use warehousehub.Frames.{Leaves}
use warehousehub.Frames.Invariants.{Keeps, Keeps-of_Leaves, Keeps-found, Keeps-then, Keeps-throw_if}

abbrev pub same_order : Order → Order → Bool
same_order a b = a.id == b.id

same_order_refl : (a : Order) → same_order a a ≡ true
same_order_refl a = ==_refl a.id

same_order_symm : (a b : Order) → same_order a b ≡ same_order b a
same_order_symm a b = ground arith

-- Order identifiers are unique, and the order has the status.
pub record Rests (id : ℕ) (status : OutboundStatus) (orders : List Order) : Type 0 where
  pub ids : Distinct same_order orders
  pub order : Order
  pub found : find_by (λ o. o.id == id) orders ≡ some order
  pub rests : order.status ≡ status

abbrev pub RestsIn : ℕ → OutboundStatus → Store → Type 0
RestsIn id status s = Rests id status s.orders

abbrev pub orders_of : Store → List Order
orders_of s = s.orders

module _ (id : ℕ) (status : OutboundStatus) where
  pub rests-Leaves : {A : Type 0} (m : Tx A) → Leaves orders_of m → Keeps (RestsIn id status) m
  rests-Leaves m h = Keeps-of_Leaves orders_of (Rests id status) m h

  -- Another order is updated.
  pub update_other :
      (other : ℕ) (f : Order → Order)
      → (other == id) ≡ false
      → ((o : Order) → (f o).id ≡ o.id)
      → Keeps (RestsIn id status) (update_order other f)
  unfolding update_order
  update_other other f apart same = record {
    apply = λ s v. elim (Option-cases (update_first (λ o. o.id == other) f s.orders)) [
      | inl missing ↦ rw (missing, update_order) tt
      | inr (l, upd) ↦
          rw (upd, update_order)
            (record {
              ids =
                  Distinct-update_first same_order same_order_refl same_order_symm
                    (λ o. o.id == other) f s.orders upd (λ a b. rw (same b) refl) v.ids;
              order = v.order;
              found =
                  find_by-update_first (λ o. o.id == id) (λ o. o.id == other) f s.orders upd
                    (λ r at. (not_it r.id at, rw (same r) (not_it r.id at)))
                  ∙ v.found;
              rests = v.rests;
            })
    ];
  }
    where
      not_it : (n : ℕ) → (n == other) ≡ true → (n == id) ≡ false
      not_it n at = ground arith

  -- The order that a call finds is the one that rests.
  pub found_rests :
      (company order : ℕ) (s : Store) (o : Order)
      → RestsIn id status s
      → find_order company order s ≡ some o
      → (order == id) ≡ true
      → o.status ≡ status
  found_rests company order s o v found same =
      let rows = find_by-Distinct same_order same_order_refl same_order_symm s.orders v.ids in
      let row =
        find_by-All (λ c. find_by (λ y. y.id == c.id) s.orders ≡ some c) _ s.orders found rows in
      let it : o.id ≡ id = its_id (o.company == company) (find_by_test _ s.orders found) same in
      let one : some o ≡ some v.order = sym row ∙ rw it v.found in
      let eq : o ≡ v.order = cc in ap (λ x. x.status) eq ∙ v.rests
    where
      its_id : (b : Bool) → ((o.id == order) && b) ≡ true → (order == id) ≡ true → o.id ≡ id
      its_id b h k = ground arith

abbrev pub is_final : OutboundStatus → Bool
is_final OutboundStatus.delivered = true
is_final OutboundStatus.cancelled = true
is_final _ = false

-- A test that holds of the final statuses.
pub test_of_final :
    (g : OutboundStatus → Bool)
    → g OutboundStatus.delivered ≡ true
    → g OutboundStatus.cancelled ≡ true
    → (st : OutboundStatus) → is_final st ≡ true
    → g st ≡ true
test_of_final g d c OutboundStatus.draft h = absurd (cc)
test_of_final g d c OutboundStatus.picking h = absurd (cc)
test_of_final g d c OutboundStatus.picked h = absurd (cc)
test_of_final g d c OutboundStatus.ready_to_ship h = absurd (cc)
test_of_final g d c OutboundStatus.shipping h = absurd (cc)
test_of_final g d c OutboundStatus.delivered h = d
test_of_final g d c OutboundStatus.cancelled h = c

module _ (id : ℕ) (status : OutboundStatus) (final : is_final status ≡ true) where
  -- A call on an order: on the order that rests it must throw, on others it must not disturb.
  pub Rests-call :
      {B : Type 0} (company order : ℕ) (x : Error) (k : Order → Tx B)
      → ((o : Order) → is_final o.status ≡ true → Keeps (RestsIn id status) (k o))
      → ((order == id) ≡ false → (o : Order) → Keeps (RestsIn id status) (k o))
      → Keeps (RestsIn id status) (gets (find_order company order) >>= λ o. or_throw o x >>= k)
  Rests-call company order x k refused apart =
      Keeps-found (RestsIn id status) (find_order company order) x k (λ s o found v.
        elim (Bool-cases (order == id)) [
          | inl same ↦
              (refused o (rw (found_rests id status company order s o v found same) final)).apply s
                v
          | inr other ↦ (apart other o).apply s v
        ])

  pub Rests-thrown :
      {B : Type 0} (b : Bool) (x : Error) (m : Tx B)
      → b ≡ true
      → Keeps (RestsIn id status) (throw_if b x >> m)
  Rests-thrown true x m h = record { apply = λ s v. tt }
  Rests-thrown false x m h = absurd (cc)

  -- A call that tests the status of the order that it finds.
  pub Rests-guarded :
      {B : Type 0} (g : OutboundStatus → Bool)
      → g OutboundStatus.delivered ≡ true
      → g OutboundStatus.cancelled ≡ true
      → (company order : ℕ) (x y : Error) (m : Order → Tx B)
      → ((order == id) ≡ false → (o : Order) → Keeps (RestsIn id status) (m o))
      → Keeps (RestsIn id status) (
          gets (find_order company order) >>= λ o.
          or_throw o x >>= λ o. throw_if (g o.status) y >> m o)
  Rests-guarded g d c company order x y m apart =
      Rests-call company order x (λ o. throw_if (g o.status) y >> m o)
        (λ o h. Rests-thrown (g o.status) y (m o) (test_of_final g d c o.status h))
        (λ other o.
          Keeps-then (RestsIn id status) (throw_if (g o.status) y) (m o)
            (Keeps-throw_if (RestsIn id status) (g o.status) y) (apart other o))
