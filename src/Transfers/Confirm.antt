-- ===== src/Transfers/Confirm.antt =====
-- TransfersService.confirm as a whole: nothing is lost between the warehouses.
use warehousehub.Base.{
  none, ℕ, ◌≡◌, refl, ◌∙◌, true, ℤ, pos, ◌+ℤ◌, ◌-ℤ◌, int_laws, leb_ℤ, ltb_ℤ, some, List, [], ◌∷◌,
  ◌==◌, All-map, exists_by, find_by-exists_by, update_many, update_first, Bool-cases, Option-cases,
  inl, inr,
}
use warehousehub.Db.{
  Store, StockKey, has_key, Transfer, TransferLine, is_pending, TxType, Engine, IsEngine, Post,
  Post-bind, Post-mono, update_stock_rows, insert_tx_line, insert_tx, update_transfer,
}
use warehousehub.Ledger.{hand_at}
use warehousehub.Picking.Reserve.{available}
use warehousehub.Ledger.{lot_key}
use warehousehub.Transfers.{
  find_stock, find_transfer, check_lines, take_on_hand, receive, move_line, move_lines,
  apply_transfer, confirm_transfer,
}
use warehousehub.Transfers.Rows.{IsShelved, exists_by-update_many}
use warehousehub.Transfers.Balance.{
  moved_by, moved_at, HasRows, hand_at-taken, taken-IsShelved, Receives, receive_new, receive_row,
}

-- What moving lines leaves behind.
pub record Moves (company from_wh to_wh : ℕ) (ls : List TransferLine) (s t : Store) : Type 0 where
  pub shelved : IsShelved t.stocks
  pub rows :
      (k : StockKey) → exists_by (has_key k) s.stocks ≡ true → exists_by (has_key k) t.stocks ≡ true
  pub balanced :
      (k : StockKey)
      → hand_at k t.stocks +ℤ moved_at company from_wh k ls
        ≡ hand_at k s.stocks +ℤ moved_at company to_wh k ls

one_line :
    (x y z out into : ℤ) → y +ℤ out ≡ x → z ≡ y +ℤ into → z +ℤ (out +ℤ pos 0) ≡ x +ℤ (into +ℤ pos 0)
one_line x y z out into e d = grind int_laws

more_lines :
    (x y z out into outs ins : ℤ)
    → y +ℤ (out +ℤ pos 0) ≡ x +ℤ (into +ℤ pos 0)
    → z +ℤ outs ≡ y +ℤ ins
    → z +ℤ (out +ℤ outs) ≡ x +ℤ (into +ℤ ins)
more_lines x y z out into outs ins e d = grind int_laws

module _ (e : Engine) (laws : IsEngine e) (company from_wh to_wh : ℕ) where
  pub receive-Receives :
      (l : TransferLine) (s : Store)
      → IsShelved s.stocks
      → Post
          (λ _ t. Receives company to_wh l s t)
          (receive e company to_wh l (find_stock (lot_key company to_wh l.lot) s) s)
  receive-Receives l s v = elim (Option-cases (find_stock (lot_key company to_wh l.lot) s)) [
    | inl missing ↦ rw missing (receive_new e laws company to_wh l s v missing)
    | inr (r, found) ↦ rw found (receive_row e laws company to_wh l s r v found)
  ]

  abbrev pub taken : ℕ → TransferLine → Store → Store
  taken tx l s = record s {
    stocks = update_many (has_key (lot_key company from_wh l.lot)) (take_on_hand l.qty) s.stocks;
    tx_lines =
        (record { tx = tx; warehouse = to_wh; lot = l.lot; qty_delta = l.qty; unit_cost = none })
        ∷ (record {
          tx = tx;
          warehouse = from_wh;
          lot = l.lot;
          qty_delta = pos 0 -ℤ l.qty;
          unit_cost = none;
        })
        ∷ s.tx_lines;
  }

  pub move_runs :
      (tx : ℕ) (l : TransferLine) (s : Store)
      → move_line e company tx from_wh to_wh l s
        ≡ receive e company to_wh l
            (find_stock (lot_key company to_wh l.lot) (taken tx l s))
            (taken tx l s)
  unfolding move_line insert_tx_line update_stock_rows
  move_runs tx l s = refl

  move_line-Moves :
      (tx : ℕ) (l : TransferLine) (s : Store)
      → IsShelved s.stocks
      → exists_by (has_key (lot_key company from_wh l.lot)) s.stocks ≡ true
      → Post
          (λ _ t. Moves company from_wh to_wh (l ∷ []) s t)
          (move_line e company tx from_wh to_wh l s)
  move_line-Moves tx l s v row = rw (move_runs tx l s) (
      Post-mono (λ _ t. Receives company to_wh l (taken tx l s) t)
        (λ _ t. Moves company from_wh to_wh (l ∷ []) s t) _
        (λ _ t r. record {
          shelved = r.shelved;
          rows = λ k h. r.rows k (
              exists_by-update_many (has_key (lot_key company from_wh l.lot)) (take_on_hand l.qty)
                (has_key k) s.stocks (λ x. refl)
              ∙ h);
          balanced = λ k.
              one_line (hand_at k s.stocks) (hand_at k (taken tx l s).stocks) (hand_at k t.stocks)
                (moved_by company from_wh k l) (moved_by company to_wh k l)
                (hand_at-taken company from_wh l s.stocks k v row) (r.raised k);
        })
        (receive-Receives l (taken tx l s) (taken-IsShelved company from_wh l s.stocks v)))

  pub move_lines-Moves :
      (tx : ℕ) (ls : List TransferLine) (s : Store)
      → IsShelved s.stocks
      → HasRows company from_wh ls s.stocks
      → Post
          (λ _ t. Moves company from_wh to_wh ls s t)
          (move_lines e company tx from_wh to_wh ls s)
  unfolding move_lines
  move_lines-Moves tx [] s v rows = record { shelved = v; rows = λ k h. h; balanced = λ k. refl }
  move_lines-Moves tx (l ∷ ls) s v rows =
      Post-bind (λ _ t. Moves company from_wh to_wh (l ∷ []) s t)
        (λ _ t. Moves company from_wh to_wh (l ∷ ls) s t) (move_line e company tx from_wh to_wh l)
        (λ _. move_lines e company tx from_wh to_wh ls) s (move_line-Moves tx l s v rows.0)
        (λ _ t _ one.
          Post-mono (λ _ u. Moves company from_wh to_wh ls t u)
            (λ _ u. Moves company from_wh to_wh (l ∷ ls) s u)
            (move_lines e company tx from_wh to_wh ls t)
            (λ _ u more. record {
              shelved = more.shelved;
              rows = λ k h. more.rows k (one.rows k h);
              balanced = λ k.
                  more_lines (hand_at k s.stocks) (hand_at k t.stocks) (hand_at k u.stocks)
                    (moved_by company from_wh k l) (moved_by company to_wh k l)
                    (moved_at company from_wh k ls) (moved_at company to_wh k ls) (one.balanced k)
                    (more.balanced k);
            })
            (move_lines-Moves tx ls t one.shelved (
              All-map (λ x. exists_by (has_key (lot_key company from_wh x.lot)) s.stocks ≡ true)
                (λ x. exists_by (has_key (lot_key company from_wh x.lot)) t.stocks ≡ true)
                (λ x h. one.rows (lot_key company from_wh x.lot) h) ls rows.1)))

  pub check_lines-HasRows :
      (ls : List TransferLine) (s : Store)
      → Post
          (λ _ t. (t ≡ s) × HasRows company from_wh ls s.stocks)
          (check_lines company from_wh ls s)
  unfolding check_lines
  check_lines-HasRows [] s = (refl, tt)
  check_lines-HasRows (l ∷ ls) s =
      elim (Option-cases (find_stock (lot_key company from_wh l.lot) s)) [
        | inl missing ↦ rw missing tt
        | inr (r, found) ↦ elim (Bool-cases (leb_ℤ l.qty (pos 0))) [
          | inl bad ↦ rw (found, bad) tt
          | inr positive ↦ elim (Bool-cases (ltb_ℤ (available r) l.qty)) [
            | inl short ↦ rw (found, positive) (rw short tt)
            | inr enough ↦
                rw (found, positive)
                  (rw enough (
                    Post-mono (λ _ t. (t ≡ s) × HasRows company from_wh ls s.stocks)
                      (λ _ t. (t ≡ s) × HasRows company from_wh (l ∷ ls) s.stocks)
                      (check_lines company from_wh ls s)
                      (λ _ t h. (h.0, (find_by-exists_by _ s.stocks found, h.1)))
                      (check_lines-HasRows ls s)))
          ]
        ]
      ]

-- What a confirmed transfer leaves behind.
pub record Confirms (company id : ℕ) (s t : Store) : Type 0 where
  pub transfer : Transfer
  pub found : find_transfer company id s ≡ some transfer
  pub was_pending : is_pending transfer.status ≡ true
  pub shelved : IsShelved t.stocks
  pub balanced :
      (k : StockKey)
      → hand_at k t.stocks +ℤ moved_at company transfer.from_warehouse k transfer.lines
        ≡ hand_at k s.stocks +ℤ moved_at company transfer.to_warehouse k transfer.lines

keep_stocks :
    (id : ℕ) (f : Transfer → Transfer) (s : Store)
    → Post (λ _ t. t.stocks ≡ s.stocks) (update_transfer id f s)
unfolding update_transfer
keep_stocks id f s = elim (Option-cases (update_first (λ t. t.id == id) f s.transfers)) [
  | inl missing ↦ rw (missing, update_transfer) tt
  | inr (l, upd) ↦ rw (upd, update_transfer) refl
]

module _ (e : Engine) (laws : IsEngine e) (company user id now : ℕ) where
  abbrev pub with_entry : Transfer → Store → Store
  with_entry tr t = record t {
    txs =
        (record {
          id = e.new_id t;
          company = company;
          kind = TxType.transfer;
          actor = user;
          ref_id = tr.id;
        })
        ∷ t.txs;
  }

  after_check :
      (s t : Store) (tr : Transfer)
      → find_transfer company id s ≡ some tr
      → is_pending tr.status ≡ true
      → Moves company tr.from_warehouse tr.to_warehouse tr.lines s t
      → (f : Transfer → Transfer) → Post (λ _ u. Confirms company id s u) (update_transfer id f t)
  after_check s t tr found pending m f =
      Post-mono (λ _ u. u.stocks ≡ t.stocks) (λ _ u. Confirms company id s u)
        (update_transfer id f t)
        (λ _ u same. record {
          transfer = tr;
          found = found;
          was_pending = pending;
          shelved = rw same m.shelved;
          balanced = λ k. rw same (m.balanced k);
        })
        (keep_stocks id f t)

  pub apply_transfer-Moves :
      (s : Store) (tr : Transfer)
      → IsShelved s.stocks
      → Post
          (λ _ t. Moves company tr.from_warehouse tr.to_warehouse tr.lines s t)
          (apply_transfer e company user tr s)
  unfolding apply_transfer insert_tx
  apply_transfer-Moves s tr v =
      Post-bind (λ _ t. (t ≡ s) × HasRows company tr.from_warehouse tr.lines s.stocks)
        (λ _ t. Moves company tr.from_warehouse tr.to_warehouse tr.lines s t)
        (check_lines company tr.from_warehouse tr.lines) _ s
        (check_lines-HasRows e laws company tr.from_warehouse tr.to_warehouse tr.lines s)
        (λ _ t _ h.
          Post-mono
            (λ _ u. Moves company tr.from_warehouse tr.to_warehouse tr.lines (with_entry tr t) u)
            (λ _ u. Moves company tr.from_warehouse tr.to_warehouse tr.lines s u) _
            (λ _ u m. record {
              shelved = m.shelved;
              rows = λ k x. m.rows k (rw h.0 x);
              balanced = λ k. m.balanced k ∙ rw h.0 refl;
            })
            (move_lines-Moves e laws company tr.from_warehouse tr.to_warehouse (e.new_id t) tr.lines
              (with_entry tr t) (rw h.0 v) (rw h.0 h.1)))

  -- With unique stock rows a confirmation that does not throw is that of a pending transfer of the
  -- company; the stock rows stay unique, and at every stock key the physical quantity, with what the
  -- lines take from the source warehouse added, is the one from before, with what they bring to the
  -- target warehouse added: nothing is lost, and no other key changes.
  pub confirm_transfer-Confirms :
      (s : Store)
      → IsShelved s.stocks
      → Post (λ _ t. Confirms company id s t) (confirm_transfer e company user id now s)
  unfolding confirm_transfer
  confirm_transfer-Confirms s v = elim (Option-cases (find_transfer company id s)) [
    | inl missing ↦ rw missing tt
    | inr (tr, found) ↦ elim (Bool-cases (is_pending tr.status)) [
      | inl pending ↦
          rw (found, pending)
            (Post-bind (λ _ t. Moves company tr.from_warehouse tr.to_warehouse tr.lines s t)
              (λ _ t. Confirms company id s t) (apply_transfer e company user tr) _ s
              (apply_transfer-Moves s tr v) (λ _ t _ m. after_check s t tr found pending m _))
      | inr other ↦ rw (found, other) tt
    ]
  ]
