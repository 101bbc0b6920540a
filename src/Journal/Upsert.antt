-- ===== src/Journal/Upsert.antt =====
-- A stock row is raised by `upsert` and the journal gets its line: the books stay even.
use warehousehub.Base.{
  ℕ, ◌≡◌, refl, sym, ap, ◌∙◌, ℤ, ◌+ℤ◌, int_laws, ◌∷◌, ◌==◌, arith, update_first, Option-cases, inl,
  inr, find_by,
}
use warehousehub.Db.{
  Store, InventoryTxLine, Engine, IsEngine, Post, Post-mono, Post-both, upsert_stock, update_stock,
  insert_stock, has_key,
}
use warehousehub.Ledger.{hand_at, lot_key}
use warehousehub.Transfers.{find_stock, receive}
use warehousehub.Transfers.Rows.{IsShelved}
use warehousehub.Transfers.Balance.{moved_by, Receives}
use warehousehub.Transfers.Confirm.{receive-Receives}
use warehousehub.Journal.{delta_by, journal_at, Books}

-- A stock row was raised, and the journal not yet written.
pub record Raises (company warehouse lot : ℕ) (qty : ℤ) (s t : Store) : Type 0 where
  pub shelved : IsShelved t.stocks
  pub raised :
      (w l : ℕ)
      → hand_at (lot_key company w l) t.stocks
        ≡ hand_at (lot_key company w l) s.stocks
          +ℤ moved_by company warehouse (lot_key company w l) (record { lot = lot; qty = qty })
  pub same_tx_lines : t.tx_lines ≡ s.tx_lines

module _ (e : Engine) (laws : IsEngine e) (company warehouse lot : ℕ) (qty : ℤ) where
  upsert_receives :
      (s : Store)
      → upsert_stock e (lot_key company warehouse lot) qty s
        ≡ receive e company warehouse
            (record { lot = lot; qty = qty })
            (find_stock (lot_key company warehouse lot) s)
            s
  unfolding upsert_stock receive insert_stock
  upsert_receives s =
      elim (Option-cases (find_by (has_key (lot_key company warehouse lot)) s.stocks)) [
        | inl missing ↦ rw (missing, upsert_stock) refl
        | inr (r, found) ↦ rw (found, upsert_stock) refl
      ]

  upsert-same_tx_lines :
      (s : Store)
      → Post (λ _ t. t.tx_lines ≡ s.tx_lines) (upsert_stock e (lot_key company warehouse lot) qty s)
  unfolding upsert_stock update_stock insert_stock
  upsert-same_tx_lines s =
      elim (Option-cases (find_by (has_key (lot_key company warehouse lot)) s.stocks)) [
        | inl missing ↦ rw (missing, upsert_stock) refl
        | inr (r, found) ↦
            elim (Option-cases (
              update_first (λ x. x.id == r.id) (λ x. record x { on_hand = x.on_hand +ℤ qty })
                s.stocks)) [
                  | inl gone ↦ rw (found, upsert_stock) (rw (gone, update_stock) tt)
                  | inr (l, upd) ↦ rw (found, upsert_stock) (rw (upd, update_stock) refl)
                ]
      ]

  pub upsert_stock-Raises :
      (s : Store)
      → IsShelved s.stocks
      → Post
          (λ _ t. Raises company warehouse lot qty s t)
          (upsert_stock e (lot_key company warehouse lot) qty s)
  upsert_stock-Raises s v =
      Post-mono
        (λ _ t.
          Receives company warehouse (record { lot = lot; qty = qty }) s t
          × (t.tx_lines ≡ s.tx_lines))
        (λ _ t. Raises company warehouse lot qty s t)
        (upsert_stock e (lot_key company warehouse lot) qty s)
        (λ _ t h. record {
          shelved = h.0.shelved;
          raised = λ w l. h.0.raised (lot_key company w l);
          same_tx_lines = h.1;
        })
        (Post-both (λ _ t. Receives company warehouse (record { lot = lot; qty = qty }) s t)
          (λ _ t. t.tx_lines ≡ s.tx_lines) (upsert_stock e (lot_key company warehouse lot) qty s)
          (rw (upsert_receives s) (
            receive-Receives e laws company warehouse warehouse (record { lot = lot; qty = qty }) s
              v))
          (upsert-same_tx_lines s))

  moved-delta :
      (w l : ℕ) (entry : InventoryTxLine)
      → (entry.warehouse ≡ warehouse) × (entry.lot ≡ lot) × (entry.qty_delta ≡ qty)
      → moved_by company warehouse (lot_key company w l) (record { lot = lot; qty = qty })
        ≡ delta_by (lot_key company w l) entry
  moved-delta w l entry same = ground arith

  even : (h h' d j : ℤ) → h' ≡ h +ℤ d → h' +ℤ j ≡ h +ℤ (d +ℤ j)
  even h h' d j e = grind int_laws

  -- The journal line evens the books.
  pub Raises-Books :
      (s t : Store) (entry : InventoryTxLine)
      → Raises company warehouse lot qty s t
      → (entry.warehouse ≡ warehouse) × (entry.lot ≡ lot) × (entry.qty_delta ≡ qty)
      → Books company s (record t { tx_lines = entry ∷ t.tx_lines })
  Raises-Books s t entry h same = record {
    shelved = h.shelved;
    booked = λ w l.
        let key = lot_key company w l in
        even (hand_at key s.stocks) (hand_at key t.stocks) (delta_by key entry)
          (journal_at key s.tx_lines)
          (h.raised w l ∙ ap (λ x. hand_at key s.stocks +ℤ x) (moved-delta w l entry same))
        ∙ ap (λ x. hand_at key s.stocks +ℤ (delta_by key entry +ℤ journal_at key x))
            (sym h.same_tx_lines);
  }
