-- ===== src/Journal/Booked.antt =====
-- Calls whose changes of the stock rows are in the journal, and the rules by which a sequence of
-- calls is one.
use warehousehub.Base.{ℕ, ◌≡◌, Bool, true, false, if◌then◌else◌}
use warehousehub.Db.{Store, Tx, ◌>>=◌, ◌>>◌, Post, Post-bind, Post-mono}
use warehousehub.Transfers.Rows.{IsShelved}
use warehousehub.Journal.{Books, Books-same, Books-trans}
use warehousehub.Journal.Leaves.{LeavesStock, leaves_stock}

-- If the call returns, the journal accounts for what it did to the company's stock rows.
pub record Booked (company : ℕ) {A : Type 0} (m : Tx A) : Type 0 where
  pub apply : (s : Store) → IsShelved s.stocks → Post (λ _ t. Books company s t) (m s)

module _ (company : ℕ) where
  pub Booked-of_LeavesStock : {A : Type 0} (m : Tx A) → LeavesStock m → Booked company m
  Booked-of_LeavesStock m h = record {
    apply = λ s v.
        Post-mono (λ _ t. (t.stocks ≡ s.stocks) × (t.tx_lines ≡ s.tx_lines))
          (λ _ t. Books company s t) (m s) (λ _ t k. Books-same company s t v k.0 k.1) (h.apply s);
  }

  pub Booked-bind :
      {A B : Type 0} (m : Tx A) (f : A → Tx B)
      → Booked company m
      → ((a : A) → Booked company (f a))
      → Booked company (m >>= f)
  Booked-bind m f h k = record {
    apply = λ s v.
        Post-bind (λ _ t. Books company s t) (λ _ t. Books company s t) m f s (h.apply s v)
          (λ a t _ one.
            Post-mono (λ _ u. Books company t u) (λ _ u. Books company s u) (f a t)
              (λ _ u two. Books-trans company s t u one two) ((k a).apply t one.shelved));
  }

  pub Booked-then :
      {B : Type 0} (m : Tx (Unit {0})) (k : Tx B)
      → Booked company m
      → Booked company k
      → Booked company (m >> k)
  Booked-then m k h g = Booked-bind m (λ _. k) h (λ _. g)

  pub Booked-if :
      {A : Type 0} (b : Bool) (m n : Tx A)
      → Booked company m
      → Booked company n
      → Booked company (if b then m else n)
  Booked-if true m n h k = h
  Booked-if false m n h k = k

pub ruleset booked = (leaves_stock, Booked-of_LeavesStock, Booked-bind, Booked-then, Booked-if)
