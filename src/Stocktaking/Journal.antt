-- ===== src/Stocktaking/Journal.antt =====
-- StocktakingService.confirm: the inventory journal accounts for every correction of a stock row, and
-- no stock row falls below nothing.
use warehousehub.Base.{
  ℕ, refl, pos, eqb_ℤ, List, [], ◌∷◌, ◌==◌, ◌&&◌, update_first, Bool-cases, Option-cases, inl, inr,
  keep, length,
}
use warehousehub.Db.{
  Store, Stocktaking, is_in_progress, CountLine, Engine, IsEngine, TxType, Post, Post-bind,
  Post-mono, insert_tx, update_stocktaking,
}
use warehousehub.Ledger.{lot_key}
use warehousehub.Transfers.{find_stock}
use warehousehub.Transfers.Rows.{IsShelved}
use warehousehub.Stocktaking.{
  adjust_line, adjust_lines, apply_count, confirm_stocktaking, qty_delta_of, find_stocktaking,
  is_counted,
}
use warehousehub.Journal.{Books}
use warehousehub.Journal.Booked.{Booked}
use warehousehub.Stocktaking.Books.{
  IsNonnegative, Corrects, Adjusts, Adjusts-refl, Adjusts-trans, adjust_row-Adjusts,
}

module _ (e : Engine) (laws : IsEngine e) (company tx warehouse : ℕ) where
  adjust_line-Adjusts :
      (l : CountLine) (s : Store)
      → IsShelved s.stocks
      → Post (λ _ t. Adjusts company s t) (adjust_line e company tx warehouse l s)
  unfolding adjust_line
  adjust_line-Adjusts l s v = elim (Bool-cases (eqb_ℤ (qty_delta_of l) (pos 0))) [
    | inl same ↦ rw same (Adjusts-refl company s v)
    | inr other ↦ rw other (
        adjust_row-Adjusts e laws company tx warehouse l.lot (qty_delta_of l) s v
          (find_stock (lot_key company warehouse l.lot) s) refl)
  ]

  adjust_lines-Adjusts :
      (ls : List CountLine) (s : Store)
      → IsShelved s.stocks
      → Post (λ _ t. Adjusts company s t) (adjust_lines e company tx warehouse ls s)
  unfolding adjust_lines
  adjust_lines-Adjusts [] s v = Adjusts-refl company s v
  adjust_lines-Adjusts (l ∷ ls) s v =
      Post-bind (λ _ t. Adjusts company s t) (λ _ t. Adjusts company s t)
        (adjust_line e company tx warehouse l) (λ _. adjust_lines e company tx warehouse ls) s
        (adjust_line-Adjusts l s v)
        (λ _ t _ one.
          Post-mono (λ _ u. Adjusts company t u) (λ _ u. Adjusts company s u)
            (adjust_lines e company tx warehouse ls t)
            (λ _ u more. Adjusts-trans company s t u one more)
            (adjust_lines-Adjusts ls t one.books.shelved))

Adjusts-update :
    (company id : ℕ) (f : Stocktaking → Stocktaking) (s t : Store)
    → Adjusts company s t
    → Post (λ _ u. Adjusts company s u) (update_stocktaking id f t)
unfolding update_stocktaking
Adjusts-update company id f s t h =
    elim (Option-cases (update_first (λ c. c.id == id) f t.stocktakings)) [
      | inl missing ↦ rw (missing, update_stocktaking) tt
      | inr (l, upd) ↦
          rw (upd, update_stocktaking)
            (record {
              books = record { shelved = h.books.shelved; booked = h.books.booked };
              stays_nonnegative = h.stays_nonnegative;
            })
    ]

module _ (e : Engine) (laws : IsEngine e) (company id user now : ℕ) where
  abbrev with_adjustment : Stocktaking → Store → Store
  with_adjustment c s = record s {
    txs =
        (record {
          id = e.new_id s;
          company = company;
          kind = TxType.adjustment;
          actor = user;
          ref_id = c.id;
        })
        ∷ s.txs;
  }

  apply_count-Adjusts :
      (c : Stocktaking) (ls : List CountLine) (s : Store)
      → IsShelved s.stocks
      → Post (λ _ t. Adjusts company s t) (apply_count e company user c ls s)
  unfolding apply_count insert_tx
  apply_count-Adjusts c ls s v =
      let s₁ = with_adjustment c s in
      Post-mono (λ _ t. Adjusts company s₁ t) (λ _ t. Adjusts company s t) _
        (λ _ t h. record {
          books = record { shelved = h.books.shelved; booked = h.books.booked };
          stays_nonnegative = h.stays_nonnegative;
        })
        (adjust_lines-Adjusts e laws company (e.new_id s) c.warehouse ls s₁ v)

  counted_lines : Store → List CountLine
  counted_lines s = keep (λ l. (l.stocktaking == id) && is_counted l) s.count_lines

  confirm_stocktaking-Adjusts :
      (s : Store)
      → IsShelved s.stocks
      → Post (λ _ t. Adjusts company s t) (confirm_stocktaking e company id user now s)
  unfolding confirm_stocktaking counted_lines
  confirm_stocktaking-Adjusts s v = elim (Option-cases (find_stocktaking company id s)) [
    | inl missing ↦ rw missing tt
    | inr (c, found) ↦ elim (Bool-cases (is_in_progress c.status)) [
      | inr other ↦ rw (found, other) tt
      | inl open_count ↦ elim (Bool-cases (length (counted_lines s) == 0)) [
        | inl nothing ↦ rw (found, open_count) (rw nothing tt)
        | inr some_counted ↦
            rw (found, open_count)
              (rw some_counted (
                Post-bind (λ _ t. Adjusts company s t) (λ _ t. Adjusts company s t)
                  (apply_count e company user c (counted_lines s)) _ s
                  (apply_count-Adjusts c (counted_lines s) s v)
                  (λ _ t _ h. Adjusts-update company id _ s t h)))
      ]
    ]
  ]

  pub confirm_stocktaking-Booked : Booked company (confirm_stocktaking e company id user now)
  confirm_stocktaking-Booked = record {
    apply = λ s v.
        Post-mono (λ _ t. Adjusts company s t) (λ _ t. Books company s t) _ (λ _ t h. h.books)
          (confirm_stocktaking-Adjusts s v);
  }

  -- With unique stock rows, none of them negative, a confirmation that does not throw leaves unique
  -- rows, none of them negative, and for every warehouse and lot of the company the physical quantity
  -- has changed by exactly what the journal lines that it wrote say.
  pub confirm_stocktaking-Corrects :
      (s : Store)
      → IsShelved s.stocks
      → IsNonnegative s.stocks
      → Post (λ _ t. Corrects company s t) (confirm_stocktaking e company id user now s)
  confirm_stocktaking-Corrects s v n =
      Post-mono (λ _ t. Adjusts company s t) (λ _ t. Corrects company s t) _
        (λ _ t h. record { books = h.books; nonnegative = h.stays_nonnegative n })
        (confirm_stocktaking-Adjusts s v)
