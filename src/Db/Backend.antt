-- ===== src/Db/Backend.antt =====
-- What the database engine and Prisma decide: the order of the rows that a query with `orderBy`
-- returns, and the identifiers (`@default(uuid())`) of new rows. This code is not in the
-- repository, so it is a parameter, and `IsEngine` states what PostgreSQL and Prisma document.
use mathlib.Core.List.{Permᴰ}
use warehousehub.Base.{ℕ, ◌≡◌, Bool, false, List, [], ◌∷◌, ◌==◌, All, ltb, leb, if◌then◌else◌, true}
use warehousehub.Db.Rows.{Stock, Allocation}
use warehousehub.Db.Tables.{Store}

-- The order of sort keys: the first column that differs decides.
abbrev pub lex_leb : List ℕ → List ℕ → Bool
lex_leb [] ys = true
lex_leb (x ∷ xs) [] = false
lex_leb (x ∷ xs) (y ∷ ys) =
    let rest = lex_leb xs ys in if ltb x y then true else if x == y then rest else false

abbrev pub IsOrdered {ℓ} : {A : Type ℓ} → (A → A → Bool) → List A → Type 0
IsOrdered le [] = Unit
IsOrdered le (x ∷ xs) = All (λ y. le x y ≡ true) xs × IsOrdered le xs

pub record Engine : Type 0 where
  -- `findMany` on stocks, ordered by the columns of the key, ascending.
  pub order_stocks : (Stock → List ℕ) → List Stock → List Stock
  -- `findMany` on allocations with `orderBy: { createdAt: 'desc' }`.
  pub newest_first : List Allocation → List Allocation
  -- The identifier of the next row.
  pub new_id : Store → ℕ

-- A query returns each matching row once, in the order asked for; an identifier is new.
pub record IsEngine (e : Engine) : Type 0 where
  pub order_stocks-permᴰ : (key : Stock → List ℕ) (l : List Stock) → Permᴰ l (e.order_stocks key l)
  pub order_stocks-IsOrdered :
      (key : Stock → List ℕ) (l : List Stock)
      → IsOrdered (λ a b. lex_leb (key a) (key b)) (e.order_stocks key l)
  pub newest_first-permᴰ : (l : List Allocation) → Permᴰ l (e.newest_first l)
  pub newest_first-IsOrdered :
      (l : List Allocation) → IsOrdered (λ a b. leb b.created_at a.created_at) (e.newest_first l)
  pub new_id-stocks : (s : Store) → All (λ r. (r.id == e.new_id s) ≡ false) s.stocks
  pub new_id-allocations : (s : Store) → All (λ a. (a.id == e.new_id s) ≡ false) s.allocations
  pub new_id-orders : (s : Store) → All (λ a. (a.id == e.new_id s) ≡ false) s.orders
  pub new_id-lines : (s : Store) → All (λ a. (a.id == e.new_id s) ≡ false) s.lines
  pub new_id-txs : (s : Store) → All (λ a. (a.id == e.new_id s) ≡ false) s.txs
  pub new_id-transfers : (s : Store) → All (λ a. (a.id == e.new_id s) ≡ false) s.transfers
  pub new_id-stocktakings : (s : Store) → All (λ a. (a.id == e.new_id s) ≡ false) s.stocktakings
  pub new_id-items : (s : Store) → All (λ a. (a.id == e.new_id s) ≡ false) s.items
  pub new_id-lots : (s : Store) → All (λ a. (a.id == e.new_id s) ≡ false) s.lots
  pub new_id-uploads : (s : Store) → All (λ a. (a.id == e.new_id s) ≡ false) s.uploads
  pub new_id-receipts : (s : Store) → All (λ a. (a.id == e.new_id s) ≡ false) s.receipts
  pub new_id-receipt_lines : (s : Store) → All (λ a. (a.id == e.new_id s) ≡ false) s.receipt_lines
  pub new_id-asns : (s : Store) → All (λ a. (a.id == e.new_id s) ≡ false) s.asns
  pub new_id-count_lines : (s : Store) → All (λ a. (a.id == e.new_id s) ≡ false) s.count_lines
