-- ===== src/Transfers/Balance.antt =====
-- A confirmed transfer takes from the source warehouse and adds to the target warehouse, at every
-- stock key, exactly the quantities of its lines.
use warehousehub.Base.{
  ℕ, ◌≡◌, refl, ap, ◌∙◌, subst, Bool, true, false, ℤ, pos, ◌+ℤ◌, ◌-ℤ◌, int_laws, +ℤ-zero, none,
  some, List, [], ◌∷◌, ◌==◌, ◌&&◌, arith, All, sum_of, sum_of-update_first, find_by, find_by_test,
  exists_by, exists_by-find_by, exists_by-update_first, update_first, update_many,
  Distinct-update_first, find_by-All, find_by-Distinct, Bool-cases, Option-cases, inl, inr,
  if◌then◌else◌,
}
use warehousehub.Db.{
  Store, Stock, StockKey, has_key, TransferLine, Engine, IsEngine, Post, update_stock, insert_stock,
}
use warehousehub.Ledger.{same_stock, same_key, hand_by, hand_at}
use warehousehub.Ledger.Steps.{
  same_stock_refl, same_stock_symm, same_key_refl, same_key_symm, some-eq,
}
use warehousehub.Ledger.{lot_key}
use warehousehub.Transfers.{find_stock, take_on_hand, add_on_hand, receive}
use warehousehub.Transfers.Rows.{
  IsShelved, touch-KeepsIdentity, Distinct-update_many, sum_of-update_many,
}

-- What a line moves at a key of the given warehouse.
abbrev pub moved_by : ℕ → ℕ → StockKey → TransferLine → ℤ
moved_by company warehouse k l =
    if (company == k.company) && (warehouse == k.warehouse) && (l.lot == k.lot)
    then l.qty
    else pos 0

abbrev pub moved_at : ℕ → ℕ → StockKey → List TransferLine → ℤ
moved_at company warehouse k ls = sum_of (moved_by company warehouse k) ls

-- The stock rows of the given keys are there.
abbrev pub HasRows : ℕ → ℕ → List TransferLine → List Stock → Type 0
HasRows company warehouse ls stocks =
    All (λ l. exists_by (has_key (lot_key company warehouse l.lot)) stocks ≡ true) ls

move_down : (x x' u u' z : ℤ) → x' +ℤ u ≡ x +ℤ u' → u ≡ u' +ℤ z → x' +ℤ z ≡ x
move_down x x' u u' z p d = grind int_laws

move_up : (x x' u u' z : ℤ) → x' +ℤ u ≡ x +ℤ u' → u' ≡ u +ℤ z → x' ≡ x +ℤ z
move_up x x' u u' z p d = grind int_laws

sub-add : (a b : ℤ) → a ≡ a -ℤ b +ℤ b
sub-add a b = omega int_laws

module _ (company warehouse : ℕ) (l : TransferLine) where
  hand_by-take :
      (k : StockKey) (r : Stock)
      → has_key (lot_key company warehouse l.lot) r ≡ true
      → hand_by k r ≡ hand_by k (take_on_hand l.qty r) +ℤ moved_by company warehouse k l
  hand_by-take k r at = ground (arith, +ℤ-zero (pos 0), sub-add r.on_hand l.qty)

  hand_by-add :
      (k : StockKey) (r : Stock)
      → has_key (lot_key company warehouse l.lot) r ≡ true
      → hand_by k (add_on_hand l.qty r) ≡ hand_by k r +ℤ moved_by company warehouse k l
  hand_by-add k r at = ground (arith, +ℤ-zero (pos 0))

  abbrev new_row : ℕ → Stock
  new_row id = record {
    id = id;
    company = company;
    warehouse = warehouse;
    lot = l.lot;
    on_hand = l.qty;
    reserved = pos 0;
  }

  hand_by-new : (k : StockKey) (id : ℕ) → hand_by k (new_row id) ≡ moved_by company warehouse k l
  hand_by-new k id = ground arith

  -- The source row gives the quantity.
  pub hand_at-taken :
      (stocks : List Stock) (k : StockKey)
      → IsShelved stocks
      → exists_by (has_key (lot_key company warehouse l.lot)) stocks ≡ true
      → hand_at k
            (update_many (has_key (lot_key company warehouse l.lot)) (take_on_hand l.qty) stocks)
          +ℤ moved_by company warehouse k l
        ≡ hand_at k stocks
  hand_at-taken stocks k v row =
      let p = has_key (lot_key company warehouse l.lot) in
      let (r, found) = exists_by-find_by p stocks row in
      move_down (hand_at k stocks) (hand_at k (update_many p (take_on_hand l.qty) stocks))
        (hand_by k r) (hand_by k (take_on_hand l.qty r)) (moved_by company warehouse k l)
        (sum_of-update_many (hand_by k) (lot_key company warehouse l.lot) (take_on_hand l.qty)
          stocks v.keys found)
        (hand_by-take k r (find_by_test p stocks found))

  pub taken-IsShelved :
      (stocks : List Stock)
      → IsShelved stocks
      → IsShelved
          (update_many (has_key (lot_key company warehouse l.lot)) (take_on_hand l.qty) stocks)
  taken-IsShelved stocks v =
      let p = has_key (lot_key company warehouse l.lot) in
      let f = take_on_hand l.qty in
      record {
        ids =
            Distinct-update_many p f same_stock stocks
              (λ a b. ground (
                arith,
                touch-KeepsIdentity p f (λ r. (refl, refl, refl, refl)) a,
                touch-KeepsIdentity p f (λ r. (refl, refl, refl, refl)) b,
              ))
              v.ids;
        keys =
            Distinct-update_many p f same_key stocks
              (λ a b. ground (
                arith,
                touch-KeepsIdentity p f (λ r. (refl, refl, refl, refl)) a,
                touch-KeepsIdentity p f (λ r. (refl, refl, refl, refl)) b,
              ))
              v.keys;
      }

-- What the arrival of a line at the target warehouse leaves behind.
pub record Receives (company warehouse : ℕ) (l : TransferLine) (s t : Store) : Type 0 where
  pub shelved : IsShelved t.stocks
  pub rows :
      (k : StockKey) → exists_by (has_key k) s.stocks ≡ true → exists_by (has_key k) t.stocks ≡ true
  pub raised :
      (k : StockKey) → hand_at k t.stocks ≡ hand_at k s.stocks +ℤ moved_by company warehouse k l

pub none_found : (p : Stock → Bool) (l : List Stock) → find_by p l ≡ none → All (λ r. p r ≡ false) l
none_found p [] h = tt
none_found p (x ∷ l) h = elim (Bool-cases (p x)) [
  | inl e ↦ absurd (found-none (ground arith))
  | inr e ↦ (e, none_found p l (ground arith))
]
  where
    found-none : some x ≡ none → ⊥
    found-none e = ground arith

add_comm : (x y : ℤ) → x +ℤ y ≡ y +ℤ x
add_comm x y = grind int_laws

module _ (e : Engine) (laws : IsEngine e) (company warehouse : ℕ) (l : TransferLine) where
  pub receive_new :
      (s : Store)
      → IsShelved s.stocks
      → find_stock (lot_key company warehouse l.lot) s ≡ none
      → Post (λ _ t. Receives company warehouse l s t) (receive e company warehouse l none s)
  unfolding receive insert_stock
  receive_new s v missing = record {
    shelved = record {
      ids = (laws.new_id-stocks s, v.ids);
      keys = (none_found (has_key (lot_key company warehouse l.lot)) s.stocks missing, v.keys);
    };
    rows = λ k h. ground (arith, h);
    raised = λ k.
        ap (λ x. x +ℤ hand_at k s.stocks) (hand_by-new company warehouse l k (e.new_id s))
        ∙ add_comm (moved_by company warehouse k l) (hand_at k s.stocks);
  }

  receive_more :
      (s : Store) (r : Stock) {m : List Stock}
      → IsShelved s.stocks
      → find_stock (lot_key company warehouse l.lot) s ≡ some r
      → update_first (λ x. x.id == r.id) (add_on_hand l.qty) s.stocks ≡ some m
      → Receives company warehouse l s (record s { stocks = m })
  receive_more s r {m} v found upd =
      let p = λ (x : Stock). x.id == r.id in
      let f = add_on_hand l.qty in
      let row : find_by p s.stocks ≡ some r =
        find_by-All (λ c. find_by (λ x. x.id == c.id) s.stocks ≡ some c) _ s.stocks found
          (find_by-Distinct same_stock same_stock_refl same_stock_symm s.stocks v.ids) in
      record {
        shelved = record {
          ids =
              Distinct-update_first same_stock same_stock_refl same_stock_symm p f s.stocks upd
                (λ a b. refl) v.ids;
          keys =
              Distinct-update_first same_key same_key_refl same_key_symm p f s.stocks upd
                (λ a b. refl) v.keys;
        };
        rows = λ k h. exists_by-update_first (has_key k) p f s.stocks upd (λ x. refl) ∙ h;
        raised = λ k.
            let (x, hit, moved) = sum_of-update_first (hand_by k) p f s.stocks upd in
            let is_r : x ≡ r = some-eq (find_by p s.stocks) row hit in
            move_up (hand_at k s.stocks) (hand_at k m) (hand_by k r) (hand_by k (f r))
              (moved_by company warehouse k l)
              (subst (λ y. hand_at k m +ℤ hand_by k y ≡ hand_at k s.stocks +ℤ hand_by k (f y)) is_r
                moved)
              (hand_by-add company warehouse l k r (find_by_test _ s.stocks found));
      }

  pub receive_row :
      (s : Store) (r : Stock)
      → IsShelved s.stocks
      → find_stock (lot_key company warehouse l.lot) s ≡ some r
      → Post (λ _ t. Receives company warehouse l s t) (receive e company warehouse l (some r) s)
  unfolding receive update_stock
  receive_row s r v found =
      elim (Option-cases (update_first (λ x. x.id == r.id) (add_on_hand l.qty) s.stocks)) [
        | inl missing ↦ rw (missing, update_stock) tt
        | inr (m, upd) ↦ rw (upd, update_stock) (receive_more s r v found upd)
      ]
