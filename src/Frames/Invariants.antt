-- ===== src/Frames/Invariants.antt =====
-- Calls that keep an invariant of the store.
use warehousehub.Base.{
  ◌≡◌, Bool, true, false, Option, none, some, if◌then◌else◌, subst, sym, Option-cases, inl, inr,
}
use warehousehub.Db.{
  Store, Error, Tx, pure, throw_if, or_throw, gets, ◌>>=◌, ◌>>◌, Post, Post-bind, Post-mono,
}
use warehousehub.Frames.{Leaves}

pub record Keeps (I : Store → Type 0) {A : Type 0} (m : Tx A) : Type 0 where
  pub apply : (s : Store) → I s → Post (λ _ t. I t) (m s)

module _ (I : Store → Type 0) where
  pub Keeps-pure : {A : Type 0} (a : A) → Keeps I (pure a)
  Keeps-pure a = record { apply = λ s v. v }

  pub Keeps-gets : {A : Type 0} (g : Store → A) → Keeps I (gets g)
  Keeps-gets g = record { apply = λ s v. v }

  pub Keeps-throw_if : (b : Bool) (x : Error) → Keeps I (throw_if b x)
  Keeps-throw_if true x = record { apply = λ s v. tt }
  Keeps-throw_if false x = record { apply = λ s v. v }

  pub Keeps-or_throw : {A : Type 0} (o : Option A) (x : Error) → Keeps I (or_throw o x)
  Keeps-or_throw none x = record { apply = λ s v. tt }
  Keeps-or_throw (some a) x = record { apply = λ s v. v }

  pub Keeps-bind :
      {A B : Type 0} (m : Tx A) (k : A → Tx B)
      → Keeps I m
      → ((a : A) → Keeps I (k a))
      → Keeps I (m >>= k)
  Keeps-bind m k h g = record {
    apply =
        λ s v. Post-bind (λ _ t. I t) (λ _ t. I t) m k s (h.apply s v) (λ a t _ w. (g a).apply t w);
  }

  pub Keeps-then :
      {B : Type 0} (m : Tx (Unit {0})) (k : Tx B) → Keeps I m → Keeps I k → Keeps I (m >> k)
  Keeps-then m k h g = Keeps-bind m (λ _. k) h (λ _. g)

  pub Keeps-if :
      {A : Type 0} (b : Bool) (m n : Tx A) → Keeps I m → Keeps I n → Keeps I (if b then m else n)
  Keeps-if true m n h k = h
  Keeps-if false m n h k = k

  -- The rest of a call after `if (!row) throw error`.
  pub Keeps-found :
      {A B : Type 0} (g : Store → Option A) (x : Error) (k : A → Tx B)
      → ((s : Store) (a : A) → g s ≡ some a → I s → Post (λ _ t. I t) (k a s))
      → Keeps I (gets g >>= λ o. or_throw o x >>= k)
  Keeps-found g x k h = record {
    apply = λ s v. elim (Option-cases (g s)) [
      | inl missing ↦ rw missing tt
      | inr (a, found) ↦ rw found (h s a found v)
    ];
  }

-- An invariant of a part of the store is kept by a call that leaves the part alone.
pub Keeps-of_Leaves :
    {X : Type 0} (f : Store → X) (J : X → Type 0) {A : Type 0} (m : Tx A)
    → Leaves f m
    → Keeps (λ s. J (f s)) m
Keeps-of_Leaves f J m h = record {
  apply = λ s v.
      Post-mono (λ _ t. f t ≡ f s) (λ _ t. J (f t)) (m s) (λ _ t e. subst J (sym e) v) (h.apply s);
}

pub ruleset invariants =
    (Keeps-pure, Keeps-gets, Keeps-throw_if, Keeps-or_throw, Keeps-bind, Keeps-then, Keeps-if)
