-- ===== src/Returns/Settled/Rows.antt =====
-- The statements that keep the completed receipts without lines that are left to process.
use warehousehub.Base.{
  ℕ, ◌≡◌, refl, ◌∙◌, exists_by-update_first, true, false, List, ◌==◌, ◌&&◌, exists_by, update_first,
  Bool-cases, Option-cases, inl, inr,
}
use warehousehub.Db.{
  Store, Receipt, ReceiptLine, Tx, update_receipt, update_receipt_line, delete_receipt_line,
}
use warehousehub.Frames.{Leaves}
use warehousehub.Frames.Invariants.{Keeps, Keeps-of_Leaves}
use warehousehub.Returns.Settled.{
  is_completed, is_closed, is_settled, IsSettled, IsSettled-update_line, IsSettled-keep,
  IsSettled-update_receipt,
}

abbrev pub IsSettledStore : Store → Type 0
IsSettledStore s = IsSettled s.receipts s.receipt_lines

-- The lines of the receipt may still be added to.
abbrev pub MayGrow : ℕ → Store → Type 0
MayGrow id s = IsSettled s.receipts s.receipt_lines × (is_closed id s.receipts ≡ false)

abbrev pub returns_of : Store → List Receipt × List ReceiptLine
returns_of s = (s.receipts, s.receipt_lines)

pub settled-Leaves : {A : Type 0} (m : Tx A) → Leaves returns_of m → Keeps IsSettledStore m
settled-Leaves m h = Keeps-of_Leaves returns_of (λ x. IsSettled x.0 x.1) m h

pub grows-Leaves : {A : Type 0} (id : ℕ) (m : Tx A) → Leaves returns_of m → Keeps (MayGrow id) m
grows-Leaves id m h =
    Keeps-of_Leaves returns_of (λ x. IsSettled x.0 x.1 × (is_closed id x.0 ≡ false)) m h

-- A row of the lines is changed, and stays settled if it was.
pub MayGrow-update_line :
    (receipt id : ℕ) (f : ReceiptLine → ReceiptLine)
    → ((rs : List Receipt) (l : ReceiptLine) → is_settled rs l ≡ true → is_settled rs (f l) ≡ true)
    → Keeps (MayGrow receipt) (update_receipt_line id f)
unfolding update_receipt_line
MayGrow-update_line receipt id f h = record {
  apply = λ s v. elim (Option-cases (update_first (λ l. l.id == id) f s.receipt_lines)) [
    | inl missing ↦ rw (missing, update_receipt_line) tt
    | inr (l, upd) ↦
        rw (upd, update_receipt_line)
          (IsSettled-update_line s.receipts s.receipt_lines v.0 id f (h s.receipts) upd, v.1)
  ];
}

pub IsSettled-update_line_row :
    (id : ℕ) (f : ReceiptLine → ReceiptLine)
    → ((rs : List Receipt) (l : ReceiptLine) → is_settled rs l ≡ true → is_settled rs (f l) ≡ true)
    → Keeps IsSettledStore (update_receipt_line id f)
unfolding update_receipt_line
IsSettled-update_line_row id f h = record {
  apply = λ s v. elim (Option-cases (update_first (λ l. l.id == id) f s.receipt_lines)) [
    | inl missing ↦ rw (missing, update_receipt_line) tt
    | inr (l, upd) ↦
        rw (upd, update_receipt_line)
          (IsSettled-update_line s.receipts s.receipt_lines v id f (h s.receipts) upd)
  ];
}

pub MayGrow-delete_line : (receipt id : ℕ) → Keeps (MayGrow receipt) (delete_receipt_line id)
unfolding delete_receipt_line
MayGrow-delete_line receipt id = record {
  apply = λ s v. elim (Bool-cases (exists_by (λ (r : ReceiptLine). r.id == id) s.receipt_lines)) [
    | inl there ↦
        rw (there, delete_receipt_line) (IsSettled-keep s.receipts s.receipt_lines v.0 _, v.1)
    | inr missing ↦ rw (missing, delete_receipt_line) tt
  ];
}

-- A change of the header leaves the status alone.
pub update_header :
    (receipt id : ℕ) (f : Receipt → Receipt)
    → ((r : Receipt) → ((f r).id ≡ r.id) × ((f r).status ≡ r.status))
    → Keeps (MayGrow receipt) (update_receipt id f)
unfolding update_receipt
update_header receipt id f same = record {
  apply = λ s v. elim (Option-cases (update_first (λ r. r.id == id) f s.receipts)) [
    | inl missing ↦ rw (missing, update_receipt) tt
    | inr (l, upd) ↦
        rw (upd, update_receipt)
          (
            IsSettled-update_receipt s.receipts s.receipt_lines v.0 id f (λ r. (same r).0)
                (λ r h. rw (← (same r).1) h) upd,
            exists_by-update_first (λ r. (r.id == receipt) && is_completed r.status)
                  (λ r. r.id == id) f s.receipts upd (λ r. rw ((same r).0, (same r).1) refl)
                ∙ v.1,
          )
  ];
}

pub update_status :
    (id : ℕ) (f : Receipt → Receipt)
    → ((r : Receipt) → (f r).id ≡ r.id)
    → ((r : Receipt) → is_completed (f r).status ≡ true → is_completed r.status ≡ true)
    → Keeps IsSettledStore (update_receipt id f)
unfolding update_receipt
update_status id f same h = record {
  apply = λ s v. elim (Option-cases (update_first (λ r. r.id == id) f s.receipts)) [
    | inl missing ↦ rw (missing, update_receipt) tt
    | inr (l, upd) ↦
        rw (upd, update_receipt)
          (IsSettled-update_receipt s.receipts s.receipt_lines v id f same h upd)
  ];
}
