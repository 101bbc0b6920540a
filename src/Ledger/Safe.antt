-- ===== src/Ledger/Safe.antt =====
-- Calls that keep the ledger sound, and the rules by which a sequence of calls does.
use warehousehub.Base.{
  ℕ, Bool, true, false, Option, none, some, ◌==◌, update_first, Option-cases, inl, inr,
  if◌then◌else◌,
}
use warehousehub.Db.{
  Store, Order, Line, InventoryTx, Error, Tx, pure, throw_if, or_throw, gets, ◌>>=◌, ◌>>◌, Post,
  Post-bind, update_order, update_line_row, update_line_rows, insert_order, insert_line, insert_tx,
}
use warehousehub.Ledger.{IsSoundStore}

-- If the call returns on a sound ledger, it leaves a sound ledger.
pub record Safe {A : Type 0} (m : Tx A) : Type 0 where
  pub apply : (s : Store) → IsSoundStore s → Post (λ _ t. IsSoundStore t) (m s)

pub Safe-bind :
    {A B : Type 0} (m : Tx A) (f : A → Tx B) → Safe m → ((a : A) → Safe (f a)) → Safe (m >>= f)
Safe-bind m f h k = record {
  apply = λ s v.
      Post-bind (λ _ t. IsSoundStore t) (λ _ t. IsSoundStore t) m f s (h.apply s v)
        (λ a t _ w. (k a).apply t w);
}

pub Safe-then : {B : Type 0} (m : Tx (Unit {0})) (k : Tx B) → Safe m → Safe k → Safe (m >> k)
Safe-then m k h g = Safe-bind m (λ _. k) h (λ _. g)

pub Safe-pure : {A : Type 0} (a : A) → Safe (pure a)
Safe-pure a = record { apply = λ s v. v }

pub Safe-gets : {A : Type 0} (f : Store → A) → Safe (gets f)
Safe-gets f = record { apply = λ s v. v }

pub Safe-throw_if : (b : Bool) (x : Error) → Safe (throw_if b x)
Safe-throw_if true x = record { apply = λ s v. tt }
Safe-throw_if false x = record { apply = λ s v. v }

pub Safe-or_throw : {A : Type 0} (o : Option A) (x : Error) → Safe (or_throw o x)
Safe-or_throw none x = record { apply = λ s v. tt }
Safe-or_throw (some a) x = record { apply = λ s v. v }

pub Safe-if : {A : Type 0} (b : Bool) (m n : Tx A) → Safe m → Safe n → Safe (if b then m else n)
Safe-if true m n h k = h
Safe-if false m n h k = k

-- The statements on orders, lines and the journal do not touch the ledger.
pub Safe-update_order : (id : ℕ) (f : Order → Order) → Safe (update_order id f)
unfolding update_order
Safe-update_order id f = record {
  apply = λ s v. elim (Option-cases (update_first (λ o. o.id == id) f s.orders)) [
    | inl e ↦ rw (e, update_order) tt
    | inr (l, e) ↦ rw (e, update_order) v
  ];
}

pub Safe-update_line_row : (id : ℕ) (f : Line → Line) → Safe (update_line_row id f)
unfolding update_line_row
Safe-update_line_row id f = record {
  apply = λ s v. elim (Option-cases (update_first (λ l. l.id == id) f s.lines)) [
    | inl e ↦ rw (e, update_line_row) tt
    | inr (l, e) ↦ rw (e, update_line_row) v
  ];
}

pub Safe-update_line_rows : (p : Line → Bool) (f : Line → Line) → Safe (update_line_rows p f)
unfolding update_line_rows
Safe-update_line_rows p f = record { apply = λ s v. v }

pub Safe-insert_order : (o : Order) → Safe (insert_order o)
unfolding insert_order
Safe-insert_order o = record { apply = λ s v. v }

pub Safe-insert_line : (l : Line) → Safe (insert_line l)
unfolding insert_line
Safe-insert_line l = record { apply = λ s v. v }

pub Safe-insert_tx : (t : InventoryTx) → Safe (insert_tx t)
unfolding insert_tx
Safe-insert_tx t = record { apply = λ s v. v }

pub ruleset safe = (
  Safe-bind, Safe-then, Safe-pure, Safe-gets, Safe-throw_if, Safe-or_throw, Safe-if,
  Safe-update_order, Safe-update_line_row, Safe-update_line_rows, Safe-insert_order,
  Safe-insert_line, Safe-insert_tx,
)
