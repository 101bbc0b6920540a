-- ===== src/Frames.antt =====
-- Calls that leave a part of the store alone, and the rules by which a sequence of calls does.
pub mod Statements
pub mod Invariants
use warehousehub.Base.{◌≡◌, refl, ◌∙◌, Bool, true, false, Option, none, some, if◌then◌else◌}
use warehousehub.Db.{
  Store, Error, Result, ok, err, Tx, pure, throw_if, or_throw, gets, ◌>>=◌, ◌>>◌, Post, Post-bind,
  Post-mono,
}

-- If the call returns, the part of the store that `f` takes is the one from before.
pub record Leaves {X : Type 0} (f : Store → X) {A : Type 0} (m : Tx A) : Type 0 where
  pub apply : (s : Store) → Post (λ _ t. f t ≡ f s) (m s)

module _ {X : Type 0} (f : Store → X) where
  pub Leaves-pure : {A : Type 0} (a : A) → Leaves f (pure a)
  Leaves-pure a = record { apply = λ s. refl }

  pub Leaves-gets : {A : Type 0} (g : Store → A) → Leaves f (gets g)
  Leaves-gets g = record { apply = λ s. refl }

  pub Leaves-throw_if : (b : Bool) (x : Error) → Leaves f (throw_if b x)
  Leaves-throw_if true x = record { apply = λ s. tt }
  Leaves-throw_if false x = record { apply = λ s. refl }

  pub Leaves-or_throw : {A : Type 0} (o : Option A) (x : Error) → Leaves f (or_throw o x)
  Leaves-or_throw none x = record { apply = λ s. tt }
  Leaves-or_throw (some a) x = record { apply = λ s. refl }

  pub Leaves-bind :
      {A B : Type 0} (m : Tx A) (k : A → Tx B)
      → Leaves f m
      → ((a : A) → Leaves f (k a))
      → Leaves f (m >>= k)
  Leaves-bind m k h g = record {
    apply = λ s.
        Post-bind (λ _ t. f t ≡ f s) (λ _ t. f t ≡ f s) m k s (h.apply s)
          (λ a t _ one.
            Post-mono (λ _ u. f u ≡ f t) (λ _ u. f u ≡ f s) (k a t) (λ _ u two. two ∙ one)
              ((g a).apply t));
  }

  pub Leaves-then :
      {B : Type 0} (m : Tx (Unit {0})) (k : Tx B) → Leaves f m → Leaves f k → Leaves f (m >> k)
  Leaves-then m k h g = Leaves-bind m (λ _. k) h (λ _. g)

  pub Leaves-if :
      {A : Type 0} (b : Bool) (m n : Tx A) → Leaves f m → Leaves f n → Leaves f (if b then m else n)
  Leaves-if true m n h k = h
  Leaves-if false m n h k = k

pub ruleset frames = (
  Leaves-pure, Leaves-gets, Leaves-throw_if, Leaves-or_throw, Leaves-bind, Leaves-then, Leaves-if,
)
