-- ===== src/Transfers/Booked.antt =====
-- The journal lines of a confirmed transfer account for what it moves.
use warehousehub.Base.{
  ℕ, ◌≡◌, refl, ℤ, pos, ◌+ℤ◌, ◌-ℤ◌, int_laws, Option, none, some, List, [], ◌∷◌, ◌==◌, arith,
  update_first, Option-cases, inl, inr, ==_refl, zero-+ℤ,
}
use warehousehub.Db.{
  Store, Stock, Transfer, TransferLine, Engine, IsEngine, Post, Post-bind, Post-mono, Post-both,
  update_stock, insert_stock, insert_tx,
}
use warehousehub.Ledger.{hand_at, lot_key}
use warehousehub.Journal.{delta_by, journal_at, Books}
use warehousehub.Journal.Booked.{Booked, booked}
use warehousehub.Transfers.{
  check_lines, add_on_hand, receive, move_line, move_lines, apply_transfer, confirm_transfer,
}
use warehousehub.Transfers.Rows.{IsShelved}
use warehousehub.Transfers.Balance.{moved_by, moved_at, HasRows}
use warehousehub.Transfers.Confirm.{
  Moves, taken, move_runs, move_lines-Moves, check_lines-HasRows, with_entry,
}

pub receive-same_tx_lines :
    (e : Engine) (company warehouse : ℕ) (l : TransferLine) (o : Option Stock) (s : Store)
    → Post (λ _ t. t.tx_lines ≡ s.tx_lines) (receive e company warehouse l o s)
unfolding receive update_stock insert_stock
receive-same_tx_lines e company warehouse l none s = refl
receive-same_tx_lines e company warehouse l (some r) s =
    elim (Option-cases (update_first (λ x. x.id == r.id) (add_on_hand l.qty) s.stocks)) [
      | inl gone ↦ rw (gone, update_stock) tt
      | inr (m, upd) ↦ rw (upd, update_stock) refl
    ]

cancels :
    (d m j into : ℤ) → d +ℤ m ≡ pos 0 → (into +ℤ (d +ℤ j)) +ℤ (m +ℤ pos 0) ≡ j +ℤ (into +ℤ pos 0)
cancels d m j into e = grind int_laws

more :
    (a b c o os i is : ℤ)
    → b +ℤ (o +ℤ pos 0) ≡ a +ℤ (i +ℤ pos 0)
    → c +ℤ os ≡ b +ℤ is
    → c +ℤ (o +ℤ os) ≡ a +ℤ (i +ℤ is)
more a b c o os i is e d = grind int_laws

even : (h h' j j' o i : ℤ) → h' +ℤ o ≡ h +ℤ i → j' +ℤ o ≡ j +ℤ i → h' +ℤ j ≡ h +ℤ j'
even h h' j j' o i e d = grind int_laws

negated : (q : ℤ) → (pos 0 -ℤ q) +ℤ q ≡ pos 0
negated q = omega int_laws

module _ (e : Engine) (laws : IsEngine e) (company from_wh to_wh tx : ℕ) where
  -- The journal has changed by the given lines.
  abbrev Journals : List TransferLine → Store → Store → Type 0
  Journals ls s t =
      (w l : ℕ)
      → journal_at (lot_key company w l) t.tx_lines
          +ℤ moved_at company from_wh (lot_key company w l) ls
        ≡ journal_at (lot_key company w l) s.tx_lines
          +ℤ moved_at company to_wh (lot_key company w l) ls

  into_delta :
      (w lot : ℕ) (l : TransferLine)
      → delta_by
          (lot_key company w lot)
          (record { tx = tx; warehouse = to_wh; lot = l.lot; qty_delta = l.qty; unit_cost = none })
        ≡ moved_by company to_wh (lot_key company w lot) l
  into_delta w lot l = ground (arith, ==_refl company)

  out_delta :
      (w lot : ℕ) (l : TransferLine)
      → delta_by (lot_key company w lot) (record {
        tx = tx;
        warehouse = from_wh;
        lot = l.lot;
        qty_delta = pos 0 -ℤ l.qty;
        unit_cost = none;
      })
          +ℤ moved_by company from_wh (lot_key company w lot) l
        ≡ pos 0
  out_delta w lot l = ground (arith, ==_refl company, negated l.qty, zero-+ℤ (pos 0))

  move_line-Journals :
      (l : TransferLine) (s : Store)
      → Post (λ _ t. Journals (l ∷ []) s t) (move_line e company tx from_wh to_wh l s)
  move_line-Journals l s = rw (move_runs e laws company from_wh to_wh tx l s) (
      Post-mono (λ _ t. t.tx_lines ≡ (taken e laws company from_wh to_wh tx l s).tx_lines)
        (λ _ t. Journals (l ∷ []) s t) _
        (λ _ t same. λ w lot.
          let key = lot_key company w lot in
          rw (same, into_delta w lot l)
            (cancels _ (moved_by company from_wh key l) (journal_at key s.tx_lines)
              (moved_by company to_wh key l) (out_delta w lot l)))
        (receive-same_tx_lines e company to_wh l _ (taken e laws company from_wh to_wh tx l s)))

  move_lines-Journals :
      (ls : List TransferLine) (s : Store)
      → Post (λ _ t. Journals ls s t) (move_lines e company tx from_wh to_wh ls s)
  unfolding move_lines
  move_lines-Journals [] s = λ w l. refl
  move_lines-Journals (l ∷ ls) s =
      Post-bind (λ _ t. Journals (l ∷ []) s t) (λ _ t. Journals (l ∷ ls) s t)
        (move_line e company tx from_wh to_wh l) (λ _. move_lines e company tx from_wh to_wh ls) s
        (move_line-Journals l s)
        (λ _ t _ one.
          Post-mono (λ _ u. Journals ls t u) (λ _ u. Journals (l ∷ ls) s u)
            (move_lines e company tx from_wh to_wh ls t)
            (λ _ u rest. λ w lot.
              let key = lot_key company w lot in
              more (journal_at key s.tx_lines) (journal_at key t.tx_lines)
                (journal_at key u.tx_lines) (moved_by company from_wh key l)
                (moved_at company from_wh key ls) (moved_by company to_wh key l)
                (moved_at company to_wh key ls) (one w lot) (rest w lot))
            (move_lines-Journals ls t))

  move_lines-Books :
      (ls : List TransferLine) (s : Store)
      → IsShelved s.stocks
      → HasRows company from_wh ls s.stocks
      → Post (λ _ t. Books company s t) (move_lines e company tx from_wh to_wh ls s)
  move_lines-Books ls s v rows =
      Post-mono (λ _ t. Moves company from_wh to_wh ls s t × Journals ls s t)
        (λ _ t. Books company s t) (move_lines e company tx from_wh to_wh ls s)
        (λ _ t h. record {
          shelved = h.0.shelved;
          booked = λ w lot.
              let key = lot_key company w lot in
              even (hand_at key s.stocks) (hand_at key t.stocks) (journal_at key s.tx_lines)
                (journal_at key t.tx_lines) (moved_at company from_wh key ls)
                (moved_at company to_wh key ls) (h.0.balanced key) (h.1 w lot);
        })
        (Post-both _ (λ _ t. Journals ls s t) (move_lines e company tx from_wh to_wh ls s)
          (move_lines-Moves e laws company from_wh to_wh tx ls s v rows) (move_lines-Journals ls s))

module _ (e : Engine) (laws : IsEngine e) (company user id now : ℕ) where
  apply_transfer-Booked : (tr : Transfer) → Booked company (apply_transfer e company user tr)
  unfolding apply_transfer insert_tx
  apply_transfer-Booked tr = record {
    apply = λ s v.
        Post-bind (λ _ t. (t ≡ s) × HasRows company tr.from_warehouse tr.lines s.stocks)
          (λ _ t. Books company s t) (check_lines company tr.from_warehouse tr.lines) _ s
          (check_lines-HasRows e laws company tr.from_warehouse tr.to_warehouse tr.lines s)
          (λ _ t _ h.
            Post-mono (λ _ u. Books company (with_entry e laws company user id now tr t) u)
              (λ _ u. Books company s u) _
              (λ _ u b. record { shelved = b.shelved; booked = λ w l. rw (← h.0) (b.booked w l) })
              (move_lines-Books e laws company tr.from_warehouse tr.to_warehouse (e.new_id t)
                tr.lines (with_entry e laws company user id now tr t) (rw h.0 v) (rw h.0 h.1)));
  }

  pub confirm_transfer-Booked : Booked company (confirm_transfer e company user id now)
  unfolding confirm_transfer
  confirm_transfer-Booked = search (booked, apply_transfer-Booked) depth 12
