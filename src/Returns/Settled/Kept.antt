-- ===== src/Returns/Settled/Kept.antt =====
-- Every call of ReturnsService keeps the completed receipts without lines that are left to process.
use warehousehub.Base.{
  ℕ, ◌≡◌, refl, sym, ◌∙◌, Distinct, exists_by-find_by, Bool, true, false, Option, none, some, List,
  [], ◌∷◌, ◌==◌, ◌&&◌, ◌||◌, find_by, find_by_test, find_by-All, find_by-Distinct, Bool-cases, inl,
  inr, arith, All,
}
use warehousehub.Db.{
  Receipt, ReceiptLine, ReturnStatus, is_received, Engine, IsEngine, pure, Post-bind, Post-mono,
  insert_receipt, insert_receipt_line,
}
use warehousehub.Frames.{Leaves, frames}
use warehousehub.Frames.Invariants.{Keeps, Keeps-then, Keeps-found, invariants}
use warehousehub.Returns.{
  NewReturnLine, NewReceipt, LinePatch, ReceiptPatch, check_order, check_customer, check_items,
  insert_return_line, insert_return_lines, write_receipt, create_receipt, apply_patch, find_receipt,
  lines_of, patched_line, patch_known, patch_new, patch_line, patch_lines, update_return,
}
use warehousehub.Returns.Settled.{
  is_completed, same_receipt, same_receipt_refl, same_receipt_symm, is_closed, IsSettled-insert,
  IsSettled-insert_line,
}
use warehousehub.Returns.Settled.Rows.{
  IsSettledStore, MayGrow, returns_of, settled-Leaves, grows-Leaves, MayGrow-update_line,
  MayGrow-delete_line, update_header,
}

module _ (e : Engine) (laws : IsEngine e) where
  insert_return_line-grows :
      (receipt : ℕ) (l : NewReturnLine) → Keeps (MayGrow receipt) (insert_return_line e receipt l)
  unfolding insert_return_line insert_receipt_line
  insert_return_line-grows receipt l = record {
    apply = λ s v. (IsSettled-insert_line s.receipts s.receipt_lines v.0 _ v.1, v.1);
  }

  insert_return_lines-grows :
      (receipt : ℕ) (ls : List NewReturnLine)
      → Keeps (MayGrow receipt) (insert_return_lines e receipt ls)
  unfolding insert_return_lines
  insert_return_lines-grows receipt [] = search (invariants) depth 12
  insert_return_lines-grows receipt (l ∷ ls) =
      Keeps-then (MayGrow receipt) _ _ (insert_return_line-grows receipt l)
        (insert_return_lines-grows receipt ls)

  patch_line-grows :
      (receipt : ℕ) (known : List ReceiptLine) (p : LinePatch) (o : Option ℕ)
      → Keeps (MayGrow receipt) (patch_line e receipt known p o)
  unfolding patch_line patch_known patch_new
  patch_line-grows receipt known p none = search (invariants, insert_return_line-grows) depth 16
  patch_line-grows receipt known p (some id) =
      let patched = MayGrow-update_line receipt id (patched_line p) (λ rs l h. h) in
      search (invariants, MayGrow-delete_line) depth 16

  patch_lines-grows :
      (receipt : ℕ) (known : List ReceiptLine) (ps : List LinePatch)
      → Keeps (MayGrow receipt) (patch_lines e receipt known ps)
  unfolding patch_lines
  patch_lines-grows receipt known [] = search (invariants) depth 12
  patch_lines-grows receipt known (p ∷ ps) =
      Keeps-then (MayGrow receipt) _ _ (patch_line-grows receipt known p p.id)
        (patch_lines-grows receipt known ps)

  not_closed :
      (id : ℕ) (rs : List Receipt) → All (λ x. (x.id == id) ≡ false) rs → is_closed id rs ≡ false
  not_closed id [] h = refl
  not_closed id (x ∷ xs) h = rw (h.0, not_closed id xs h.1) refl

  write_receipt-Settled :
      (company user now : ℕ) (dto : NewReceipt)
      → Keeps IsSettledStore (write_receipt e company user dto now)
  unfolding write_receipt insert_receipt
  write_receipt-Settled company user now dto = record {
    apply = λ s v.
        Post-bind (λ _ t. MayGrow (e.new_id s) t) (λ _ t. IsSettledStore t)
          (insert_return_lines e (e.new_id s) dto.lines) (λ _. pure (e.new_id s)) _
          ((insert_return_lines-grows (e.new_id s) dto.lines).apply _ (
            IsSettled-insert s.receipts s.receipt_lines v _ (laws.new_id-receipts s) refl,
            rw (not_closed (e.new_id s) s.receipts (laws.new_id-receipts s))
                (and_or (e.new_id s == e.new_id s)),
          ))
          (λ _ t _ g. g.0);
  }
    where
      and_or : (b : Bool) → ((b && false) || false) ≡ false
      and_or true = refl
      and_or false = refl

  check_order-Leaves : (company : ℕ) (o : Option ℕ) → Leaves returns_of (check_order company o)
  unfolding check_order
  check_order-Leaves company none = search (frames) depth 12
  check_order-Leaves company (some id) = search (frames) depth 12

  check_customer-Leaves :
      (company : ℕ) (o : Option ℕ) → Leaves returns_of (check_customer company o)
  unfolding check_customer
  check_customer-Leaves company none = search (frames) depth 12
  check_customer-Leaves company (some id) = search (frames) depth 12

  check_items-Leaves : (company : ℕ) (ids : List ℕ) → Leaves returns_of (check_items company ids)
  unfolding check_items
  check_items-Leaves company ids = search (frames) depth 12

  pub create_receipt-Settled :
      (company user now : ℕ) (dto : NewReceipt)
      → Keeps IsSettledStore (create_receipt e company user dto now)
  unfolding create_receipt
  create_receipt-Settled company user now dto =
      search
        (
          invariants, settled-Leaves, check_order-Leaves, check_customer-Leaves, check_items-Leaves,
          write_receipt-Settled,
        )
        depth 24 fits 20000

  -- A received receipt of the company is not completed.
  found_open :
      (company id : ℕ) (rs : List Receipt) (r : Receipt)
      → Distinct same_receipt rs
      → find_by (λ x. (x.id == id) && (x.company == company)) rs ≡ some r
      → is_received r.status ≡ true
      → is_closed id rs ≡ false
  found_open company id rs r distinct found received = elim (Bool-cases (is_closed id rs)) [
    | inr opened ↦ opened
    | inl closed ↦
        let rows = find_by-Distinct same_receipt same_receipt_refl same_receipt_symm rs distinct in
        let (x, hit) = exists_by-find_by (λ x. (x.id == id) && is_completed x.status) rs closed in
        let row_x = find_by-All (λ c. find_by (λ y. same_receipt y c) rs ≡ some c) _ rs hit rows in
        let row_r =
          find_by-All (λ c. find_by (λ y. same_receipt y c) rs ≡ some c) _ rs found rows in
        absurd (
          conflict id company x r rs (find_by_test _ rs hit) (find_by_test _ rs found) received
            row_x row_r)
  ]
    where
      clash : (t : ReturnStatus) → is_received t ≡ true → is_completed t ≡ true → ⊥
      clash ReturnStatus.received h k = absurd (cc)
      clash ReturnStatus.decided h k = absurd (cc)
      clash ReturnStatus.completed h k = absurd (cc)
      clash ReturnStatus.cancelled h k = absurd (cc)

      conflict :
          (id company : ℕ) (x r : Receipt) (rs : List Receipt)
          → ((x.id == id) && is_completed x.status) ≡ true
          → ((r.id == id) && (r.company == company)) ≡ true
          → is_received r.status ≡ true
          → find_by (λ y. y.id == x.id) rs ≡ some x
          → find_by (λ y. y.id == r.id) rs ≡ some r
          → ⊥
      conflict id company x r rs hx hr received row_x row_r =
          let same : x.id ≡ r.id = ground arith in
          let one : some x ≡ some r = sym row_x ∙ rw same row_r in
          let eq : x ≡ r = cc in
          let done : is_completed x.status ≡ true = ground arith in
          clash r.status received (rw (← eq) done)

  keep_open :
      (company id : ℕ) (dto : ReceiptPatch) (known : List ReceiptLine)
      → Keeps (MayGrow id) (apply_patch e company id dto known)
  unfolding apply_patch
  keep_open company id dto known =
      search
        (
          invariants, grows-Leaves, check_order-Leaves, check_customer-Leaves, check_items-Leaves,
          update_header, patch_lines-grows,
        )
        depth 24 fits 20000

  pub update_return-Settled :
      (company id : ℕ) (dto : ReceiptPatch) → Keeps IsSettledStore (update_return e company id dto)
  unfolding update_return
  update_return-Settled company id dto =
      Keeps-found IsSettledStore (find_receipt company id) _ _ (λ s r found v.
        elim (Bool-cases (is_received r.status)) [
          | inr other ↦ rw other tt
          | inl received ↦ rw received (
              Post-mono (λ _ t. MayGrow id t) (λ _ t. IsSettledStore t) _ (λ _ t g. g.0)
                ((keep_open company id dto (lines_of id s)).apply s
                  (v, found_open company id s.receipts r v.ids found received)))
        ])
