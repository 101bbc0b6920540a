-- ===== src/Picking/Reserve/Safety.antt =====
-- The reservation loop always returns; it keeps the ledger sound, reserves no more than asked, and
-- what it reserves is what the line then holds.
use warehousehub.Base.{
  ℕ, ◌≡◌, refl, ◌∙◌, true, false, ℤ, pos, ◌+ℤ◌, ◌-ℤ◌, ◌≤ℤ◌, leb_ℤ, min_ℤ, int_laws, some, List, [],
  ◌∷◌, ◌==◌, arith, update_first, Bool-cases, inl, inr,
}
use warehousehub.Db.{Store, Stock, Engine, IsEngine, ok, Returns, Returns-mono}
use warehousehub.Ledger.{
  IsSoundStore, SameOthers, SameOthers-refl, SameOthers-after, held_for, held_for_line,
}
use warehousehub.Picking.Reserve.{
  reserve_one, reserve_loop, auto_allocation, add_reserved, available,
}
use warehousehub.Picking.Reserve.Step.{
  AreRows, AreRows-tail, after_one, reserve_one_lem, reserve_one-IsSound,
}

-- What a run of the loop from `s` with `remaining` to go leaves behind.
pub record Reserves (company line : ℕ) (s : Store) (remaining rest : ℤ) (t : Store) : Type 0 where
  pub sound : IsSoundStore t
  pub rest_nonneg : pos 0 ≤ℤ remaining → pos 0 ≤ℤ rest
  pub rest_le : rest ≤ℤ remaining
  pub accounted :
      held_for_line company line t.allocations +ℤ rest
      ≡ held_for_line company line s.allocations +ℤ remaining
  pub others : SameOthers s t

take_bounds :
    (remaining room : ℤ)
    → leb_ℤ remaining (pos 0) ≡ false
    → leb_ℤ room (pos 0) ≡ false
    → let take = min_ℤ remaining room in (pos 0 ≤ℤ take) × (take ≤ℤ remaining) × (take ≤ℤ room)
take_bounds remaining room go some_left = ground arith

module _ (e : Engine) (laws : IsEngine e) (company line now : ℕ) where
  loop_stop :
      (c : Stock) (cs : List Stock) (remaining : ℤ) (s : Store)
      → leb_ℤ remaining (pos 0) ≡ true
      → reserve_loop e company line now (c ∷ cs) remaining s ≡ ok remaining s
  unfolding reserve_loop
  loop_stop c cs remaining s h = ground arith

  loop_skip :
      (c : Stock) (cs : List Stock) (remaining : ℤ) (s : Store)
      → leb_ℤ remaining (pos 0) ≡ false
      → leb_ℤ (available c) (pos 0) ≡ true
      → reserve_loop e company line now (c ∷ cs) remaining s
        ≡ reserve_loop e company line now cs remaining s
  unfolding reserve_loop
  loop_skip c cs remaining s h k = ground arith

  loop_take :
      (c : Stock) (cs : List Stock) (remaining : ℤ) (s t : Store)
      → leb_ℤ remaining (pos 0) ≡ false
      → leb_ℤ (available c) (pos 0) ≡ false
      → reserve_one e company line now c (min_ℤ remaining (available c)) s ≡ ok tt t
      → reserve_loop e company line now (c ∷ cs) remaining s
        ≡ reserve_loop e company line now cs (remaining -ℤ min_ℤ remaining (available c)) t
  unfolding reserve_loop
  loop_take c cs remaining s t h k one = ground arith

  held_for-auto :
      (id : ℕ) (c : Stock) (take : ℤ)
      → held_for company line (auto_allocation id company line now c take) ≡ take
  held_for-auto id c take = ground arith

  regroup : (take x remaining : ℤ) → take +ℤ x +ℤ (remaining -ℤ take) ≡ x +ℤ remaining
  regroup take x remaining = omega int_laws

  accounted_after :
      (c : Stock) (take remaining : ℤ) (s : Store) (l : List Stock)
      → held_for_line company line (after_one e company line now c take s l).allocations
          +ℤ (remaining -ℤ take)
        ≡ held_for_line company line s.allocations +ℤ remaining
  accounted_after c take remaining s l =
      rw (held_for-auto (e.new_id (record s { stocks = l })) c take)
        (regroup take (held_for_line company line s.allocations) remaining)

  -- A run that begins with one reservation.
  prepend :
      (c : Stock) (take remaining rest : ℤ) (s : Store) (l : List Stock) (t : Store)
      → pos 0 ≤ℤ take
      → take ≤ℤ remaining
      → Reserves company line (after_one e company line now c take s l) (remaining -ℤ take) rest t
      → Reserves company line s remaining rest t
  prepend c take remaining rest s l t nonneg le r = record {
    sound = r.sound;
    rest_nonneg = λ _. r.rest_nonneg (omega int_laws);
    rest_le = omega (int_laws, r.rest_le);
    accounted = r.accounted ∙ accounted_after c take remaining s l;
    others = SameOthers-after s l (after_one e company line now c take s l).allocations t r.others;
  }

  take_step :
      (c : Stock) (cs : List Stock) (remaining : ℤ) (s : Store)
      → IsSoundStore s
      → AreRows company (c ∷ cs) s.stocks
      → leb_ℤ remaining (pos 0) ≡ false
      → leb_ℤ (available c) (pos 0) ≡ false
      → let take = min_ℤ remaining (available c) in
        ((l : List Stock)
          → update_first (λ r. r.id == c.id) (add_reserved take) s.stocks ≡ some l
          → Returns
              (λ rest t.
                Reserves company line
                  (after_one e company line now c take s l)
                  (remaining -ℤ take)
                  rest
                  t)
              (reserve_loop e company line now cs
                (remaining -ℤ take)
                (after_one e company line now c take s l)))
        → Returns
            (λ rest t. Reserves company line s remaining rest t)
            (reserve_loop e company line now (c ∷ cs) remaining s)
  take_step c cs remaining s v rows go room later =
      let take = min_ℤ remaining (available c) in
      let (l, upd, one) = reserve_one_lem e company line now c take s rows.found.0 in
      let bounds = take_bounds remaining (available c) go room in
      let t = after_one e company line now c take s l in
      rw (loop_take c cs remaining s t go room one) (
        Returns-mono (λ rest u. Reserves company line t (remaining -ℤ take) rest u)
          (λ rest u. Reserves company line s remaining rest u)
          (reserve_loop e company line now cs (remaining -ℤ take) t)
          (λ rest u. prepend c take remaining rest s l u bounds.0 bounds.1) (later l upd))

  pub reserve_loop-Reserves :
      (cs : List Stock) (remaining : ℤ) (s : Store)
      → IsSoundStore s
      → AreRows company cs s.stocks
      → Returns
          (λ rest t. Reserves company line s remaining rest t)
          (reserve_loop e company line now cs remaining s)
  unfolding reserve_loop
  reserve_loop-Reserves [] remaining s v rows = record {
    sound = v;
    rest_nonneg = λ h. h;
    rest_le = omega arith;
    accounted = refl;
    others = SameOthers-refl s;
  }
  reserve_loop-Reserves (c ∷ cs) remaining s v rows = elim (Bool-cases (leb_ℤ remaining (pos 0))) [
    | inl stop ↦ rw (loop_stop c cs remaining s stop) (record {
      sound = v;
      rest_nonneg = λ h. h;
      rest_le = omega arith;
      accounted = refl;
      others = SameOthers-refl s;
    })
    | inr go ↦ elim (Bool-cases (leb_ℤ (available c) (pos 0))) [
      | inl skip ↦ rw (loop_skip c cs remaining s go skip) (
          reserve_loop-Reserves cs remaining s v (record {
            found = rows.found.1;
            distinct = rows.distinct.1;
            of_company = rows.of_company.1;
          }))
      | inr room ↦ take_step c cs remaining s v rows go room (λ l upd.
          let take = min_ℤ remaining (available c) in
          let bounds = take_bounds remaining (available c) go room in
          reserve_loop-Reserves cs (remaining -ℤ take) (after_one e company line now c take s l)
            (reserve_one-IsSound e company line now laws c take s v rows.found.0 upd
              rows.of_company.0 bounds.0 bounds.2)
            (AreRows-tail e company line now c cs take s.stocks upd rows))
    ]
  ]
