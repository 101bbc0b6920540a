-- ===== src/Db/Monad.antt =====
-- Results of a service call and the transaction monad. A transaction that throws is rolled back,
-- so an error carries no store: the caller goes on with the store from before.
use warehousehub.Base.{◌≡◌, refl, Bool, true, false, Option, none, some}
use warehousehub.Db.Tables.{Store}

-- The message of an exception of apps/api/src/modules (Korean messages in English).
pub data Message : Type 0 where
  lines_required customer_not_found invalid_item order_not_found qty_not_positive : Message
  order_final order_not_editable line_not_found line_cancelled order_not_cancellable : Message
  only_picking no_allocations picked_exceeds_requested order_not_pickable : Message
  stock_not_found insufficient_stock order_not_reservable already_reserved : Message
  not_enough_reserved only_picked only_ready only_shipping picked_exceeds_reserved : Message
  same_warehouse from_warehouse_not_found to_warehouse_not_found transfer_not_found : Message
  transfer_not_pending transfer_stock_not_found invalid_qty warehouse_not_found : Message
  stocktaking_not_found not_open_for_lines not_in_progress count_line_not_found : Message
  negative_count nothing_counted negative_stock : Message
  to_branch_not_found warehouse_not_in_branch from_branch_not_found asn_not_found : Message
  asn_not_pending : Message
  invalid_rows upload_not_found already_processed only_uploaded warehouse_missing : Message
  invalid_order invalid_customer receipt_not_found only_received only_decided : Message
  invalid_line line_decided invalid_patch new_line_incomplete invalid_lines : Message
  decision_required negative_qty field_required duplicate_code item_not_found : Message

-- `record_missing` is Prisma's refusal of an update whose row is not there, `unique_violation` that
-- of a row whose unique key is taken.
pub data Error : Type 0 where
  not_found bad_request conflict : Message → Error
  record_missing unique_violation : Error

pub data Result (A : Type 0) : Type 0 where
  ok : A → Store → Result A
  err : Error → Result A

abbrev pub Tx : Type 0 → Type 0
Tx A = Store → Result A

abbrev pub pure : {A : Type 0} → A → Tx A
pure a s = ok a s

abbrev pub throw : {A : Type 0} → Error → Tx A
throw x s = err x

infixl 5 ◌>>=◌ ◌>>◌
abbrev pub ◌>>=◌ : {A B : Type 0} → Tx A → (A → Tx B) → Tx B
◌>>=◌ m f s = elim (m s) [ ok a s' ↦ f a s' | err x ↦ err x ]

abbrev pub ◌>>◌ : {B : Type 0} → Tx (Unit {0}) → Tx B → Tx B
m >> k = m >>= λ _. k

abbrev pub gets : {A : Type 0} → (Store → A) → Tx A
gets f s = ok (f s) s

-- `if (test) throw error;`
abbrev pub throw_if : Bool → Error → Tx (Unit {0})
throw_if true x s = err x
throw_if false x s = ok tt s

-- `if (!row) throw error;`
abbrev pub or_throw : {A : Type 0} → Option A → Error → Tx A
or_throw none x s = err x
or_throw (some a) x s = ok a s

-- What a call guarantees if it returns; `Post.bind` goes through a sequence of calls.
-- A call that returns, and what it then guarantees.
abbrev pub Returns : {A : Type 0} → (A → Store → Type 0) → Result A → Type 0
Returns P (ok a s) = P a s
Returns P (err x) = ⊥

abbrev pub Post : {A : Type 0} → (A → Store → Type 0) → Result A → Type 0
Post P (ok a s) = P a s
Post P (err x) = Unit {0}

-- The store after a call: the new one, or the one from before if the call threw.
abbrev pub settle : {A : Type 0} → Store → Result A → Store
settle s (ok a s') = s'
settle s (err x) = s

pub Post-bind :
    {A B : Type 0} (P : A → Store → Type 0) (Q : B → Store → Type 0) (m : Tx A) (f : A → Tx B)
    (s : Store)
    → Post P (m s)
    → ((a : A) (s' : Store) → m s ≡ ok a s' → P a s' → Post Q (f a s'))
    → Post Q ((m >>= f) s)
Post-bind P Q m f s h k = go (m s) refl h
  where
    go : (r : Result _) → m s ≡ r → Post P r → Post Q (elim r [ ok a s' ↦ f a s' | err x ↦ err x ])
    go (ok a s') e p = k a s' e p
    go (err x) e p = tt

pub Returns-mono :
    {A : Type 0} (P Q : A → Store → Type 0) (r : Result A)
    → ((a : A) (s : Store) → P a s → Q a s)
    → Returns P r
    → Returns Q r
Returns-mono P Q (ok a s) f h = f a s h
Returns-mono P Q (err x) f h = h

pub Returns-bind :
    {A B : Type 0} (P : A → Store → Type 0) (Q : B → Store → Type 0) (m : Tx A) (f : A → Tx B)
    (s : Store)
    → Returns P (m s)
    → ((a : A) (s' : Store) → P a s' → Returns Q (f a s'))
    → Returns Q ((m >>= f) s)
Returns-bind P Q m f s h k = go (m s) h
  where
    go : (r : Result _) → Returns P r → Returns Q (elim r [ ok a s' ↦ f a s' | err x ↦ err x ])
    go (ok a s') p = k a s' p
    go (err x) p = absurd p

pub Returns-Post : {A : Type 0} (P : A → Store → Type 0) (r : Result A) → Returns P r → Post P r
Returns-Post P (ok a s) h = h
Returns-Post P (err x) h = tt

pub Post-mono :
    {A : Type 0} (P Q : A → Store → Type 0) (r : Result A)
    → ((a : A) (s : Store) → P a s → Q a s)
    → Post P r
    → Post Q r
Post-mono P Q (ok a s) f h = f a s h
Post-mono P Q (err x) f h = tt

pub Post-both :
    {A : Type 0} (P Q : A → Store → Type 0) (r : Result A)
    → Post P r
    → Post Q r
    → Post (λ a t. P a t × Q a t) r
Post-both P Q (ok a t) h k = (h, k)
Post-both P Q (err x) h k = tt

-- A call that returns, with the value and the store that it returns.
pub Returns-ok :
    {A : Type 0} (P : A → Store → Type 0) (r : Result A)
    → Returns P r
    → (a : A) × (s : Store) × (r ≡ ok a s) × P a s
Returns-ok P (ok a s) h = (a, s, refl, h)
Returns-ok P (err x) h = absurd h

pub bind-ok :
    {A B : Type 0} (m : Tx A) (f : A → Tx B) (s : Store) {a : A} {t : Store}
    → m s ≡ ok a t
    → (m >>= f) s ≡ f a t
bind-ok m f s h = rw (h, ◌>>=◌)
