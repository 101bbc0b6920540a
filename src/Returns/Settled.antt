-- ===== src/Returns/Settled.antt =====
-- A completed receipt has no line that is left to process.
pub mod Rows
pub mod Kept
pub mod Processed
use warehousehub.Base.{
  ℕ, suc, ◌≡◌, refl, Bool, true, false, Option, none, some, List, [], ◌∷◌, ◌==◌, ◌&&◌, ◌||◌, not,
  All, All-map, All-keep, All-update_first, Distinct, Distinct-update_first, exists_by,
  exists_by-update_first_before, update_first, find_by, keep, length, Bool-cases, inl, inr, arith,
  ==_refl, ◌⊎◌, find_by_test, find_by-All, find_by-Distinct,
}
use warehousehub.Db.{Store, Receipt, ReceiptLine, ReturnStatus, is_received}
use warehousehub.Returns.{has_value, find_receipt, remaining_lines}

abbrev pub is_completed : ReturnStatus → Bool
is_completed ReturnStatus.completed = true
is_completed _ = false

abbrev pub same_receipt : Receipt → Receipt → Bool
same_receipt a b = a.id == b.id

-- There is a completed receipt with the identifier.
abbrev pub is_closed : ℕ → List Receipt → Bool
is_closed id rs = exists_by (λ r. (r.id == id) && is_completed r.status) rs

-- The line is processed, or its receipt is not completed.
abbrev pub is_settled : List Receipt → ReceiptLine → Bool
is_settled rs l = has_value l.processed_at || not (is_closed l.receipt rs)

pub record IsSettled (rs : List Receipt) (ls : List ReceiptLine) : Type 0 where
  pub ids : Distinct same_receipt rs
  pub settled : All (λ l. is_settled rs l ≡ true) ls

same_receipt_refl : (a : Receipt) → same_receipt a a ≡ true
same_receipt_refl a = ==_refl a.id

same_receipt_symm : (a b : Receipt) → same_receipt a b ≡ same_receipt b a
same_receipt_symm a b = ground arith

-- Receipts that close no more than before keep the lines settled.
weaker :
    (rs rs' : List Receipt) (l : ReceiptLine)
    → (is_closed l.receipt rs' ≡ true → is_closed l.receipt rs ≡ true)
    → is_settled rs l ≡ true
    → is_settled rs' l ≡ true
weaker rs rs' l h v = elim (Bool-cases (has_value l.processed_at)) [
  | inl processed ↦ rw processed refl
  | inr left ↦ elim (Bool-cases (is_closed l.receipt rs')) [
    | inl closed ↦ let c = h closed in absurd (cc)
    | inr opened ↦ rw (left, opened) refl
  ]
]

past_head : (a b c : Bool) → b ≡ false → ((a && b) || c) ≡ true → c ≡ true
past_head a b c h k = ground arith

left_open : (b c : Bool) → c ≡ false → (b || not c) ≡ true
left_open b c h = ground arith

-- A receipt that is closed after the completion of `id` was closed before, or is `id`.
closed_other :
    (id : ℕ) (f : Receipt → Receipt) (other : ℕ)
    → ((r : Receipt) → (f r).id ≡ r.id)
    → (other == id) ≡ false
    → (r : Receipt) → (r.id == id) ≡ true
    → ((f r).id == other) && is_completed (f r).status ≡ true
    → (r.id == other) && is_completed r.status ≡ true
closed_other id f other same apart r at closed = let e = same r in ground arith

positive : (n : ℕ) → suc n ≡ 0 → ⊥
positive n h = ground arith

completed_lines :
    (id : ℕ) (rs rs' : List Receipt)
    → ((other : ℕ) → (other == id) ≡ false → is_closed other rs' ≡ true → is_closed other rs ≡ true)
    → (ls : List ReceiptLine)
    → length (keep (λ l. (l.receipt == id) && not (has_value l.processed_at)) ls) ≡ 0
    → All (λ l. is_settled rs l ≡ true) ls
    → All (λ l. is_settled rs' l ≡ true) ls
completed_lines id rs rs' before [] none_left v = tt
completed_lines id rs rs' before (l ∷ ls) none_left v = elim (Bool-cases (l.receipt == id)) [
  | inr other ↦ (
    weaker rs rs' l (before l.receipt other) v.0,
    completed_lines id rs rs' before ls (rw other at none_left) v.1,
  )
  | inl mine ↦ elim (Bool-cases (has_value l.processed_at)) [
    | inl processed ↦ (
      rw processed refl,
      completed_lines id rs rs' before ls (rw (mine, processed) at none_left) v.1,
    )
    | inr left ↦ let more = (rw (mine, left) at none_left) in absurd (positive _ more)
  ]
]

module _ (rs : List Receipt) (ls : List ReceiptLine) (v : IsSettled rs ls) where
  pub IsSettled-insert :
      (r : Receipt)
      → All (λ x. (x.id == r.id) ≡ false) rs
      → is_completed r.status ≡ false
      → IsSettled (r ∷ rs) ls
  IsSettled-insert r fresh opened = record {
    ids = (fresh, v.ids);
    settled =
        All-map (λ l. is_settled rs l ≡ true) (λ l. is_settled (r ∷ rs) l ≡ true)
          (λ l. weaker rs (r ∷ rs) l (λ h.
            past_head (r.id == l.receipt) (is_completed r.status) (is_closed l.receipt rs) opened
              h))
          ls v.settled;
  }

  pub IsSettled-insert_line :
      (l : ReceiptLine) → is_closed l.receipt rs ≡ false → IsSettled rs (l ∷ ls)
  IsSettled-insert_line l opened = record {
    ids = v.ids;
    settled = (left_open (has_value l.processed_at) (is_closed l.receipt rs) opened, v.settled);
  }

  pub IsSettled-update_line :
      (id : ℕ) (f : ReceiptLine → ReceiptLine)
      → ((l : ReceiptLine) → is_settled rs l ≡ true → is_settled rs (f l) ≡ true)
      → {ls' : List ReceiptLine} → update_first (λ l. l.id == id) f ls ≡ some ls'
      → IsSettled rs ls'
  IsSettled-update_line id f h upd = record {
    ids = v.ids;
    settled =
        All-update_first (λ l. is_settled rs l ≡ true) (λ l. l.id == id) f ls upd (λ l _ k. h l k)
          v.settled;
  }

  pub IsSettled-keep : (p : ReceiptLine → Bool) → IsSettled rs (keep p ls)
  IsSettled-keep p = record {
    ids = v.ids;
    settled = All-keep (λ l. is_settled rs l ≡ true) p ls v.settled;
  }

  -- A receipt is changed and not completed.
  pub IsSettled-update_receipt :
      (id : ℕ) (f : Receipt → Receipt)
      → ((r : Receipt) → (f r).id ≡ r.id)
      → ((r : Receipt) → is_completed (f r).status ≡ true → is_completed r.status ≡ true)
      → {rs' : List Receipt} → update_first (λ r. r.id == id) f rs ≡ some rs'
      → IsSettled rs' ls
  IsSettled-update_receipt id f same h {rs'} upd = record {
    ids =
        Distinct-update_first same_receipt same_receipt_refl same_receipt_symm (λ r. r.id == id) f
          rs upd (λ a b. rw (same b) refl) v.ids;
    settled =
        All-map (λ l. is_settled rs l ≡ true) (λ l. is_settled rs' l ≡ true)
          (λ l. weaker rs rs' l (λ c.
            exists_by-update_first_before (λ r. (r.id == l.receipt) && is_completed r.status)
              (λ r. r.id == id) f rs upd (λ r _ k. let e = same r in let w = h r in ground arith)
              c))
          ls v.settled;
  }

  -- A receipt none of whose lines is left is completed.
  pub IsSettled-complete :
      (id : ℕ) (f : Receipt → Receipt)
      → ((r : Receipt) → (f r).id ≡ r.id)
      → length (keep (λ l. (l.receipt == id) && not (has_value l.processed_at)) ls) ≡ 0
      → {rs' : List Receipt} → update_first (λ r. r.id == id) f rs ≡ some rs'
      → IsSettled rs' ls
  IsSettled-complete id f same none_left {rs'} upd = record {
    ids =
        Distinct-update_first same_receipt same_receipt_refl same_receipt_symm (λ r. r.id == id) f
          rs upd (λ a b. rw (same b) refl) v.ids;
    settled =
        completed_lines id rs rs'
          (λ other apart.
            exists_by-update_first_before (λ r. (r.id == other) && is_completed r.status)
              (λ r. r.id == id) f rs upd (closed_other id f other same apart))
          ls none_left v.settled;
  }
