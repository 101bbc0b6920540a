-- ===== src/Picking/Reserve/PerLine.antt =====
-- The reservation for one line: it always returns, and splits the quantity asked for into what it
-- reserved and the shortage.
use warehousehub.Base.{
  pos_part, ℕ, ◌≡◌, sym, ◌∙◌, +ℤ_transpose, eq_of_parts, true, false, ℤ, pos, ◌+ℤ◌, ◌-ℤ◌, ◌≤ℤ◌,
  leb_ℤ, int_laws, zero-+ℤ, +ℤ-zero, arith, Bool-cases, inl, inr,
}
use warehousehub.Db.{Store, Engine, IsEngine, Returns, Returns-bind, pure}
use warehousehub.Ledger.{IsSoundStore, SameOthers, SameOthers-refl, held_for_line}
use warehousehub.Picking.Reserve.{
  Reservation, candidates, reserve_loop, reserve_additional_for_line,
}
use warehousehub.Picking.Reserve.Safety.{Reserves, reserve_loop-Reserves}
use warehousehub.Picking.Reserve.Candidates.{candidates-AreRows}

-- What the reservation of `add` for a line has done.
pub record ReservesLine (company line : ℕ) (s : Store) (add : ℤ) (r : Reservation) (t : Store)
    : Type 0 where
  pub sound : IsSoundStore t
  pub reserved_nonneg : pos 0 ≤ℤ r.reserved
  pub shortage_nonneg : pos 0 ≤ℤ r.shortage
  pub split : r.reserved +ℤ r.shortage ≡ pos (pos_part add)
  pub held :
      held_for_line company line t.allocations
      ≡ held_for_line company line s.allocations +ℤ r.reserved
  pub others : SameOthers s t

module _ (e : Engine) (laws : IsEngine e) (company line item now : ℕ) where
  no_more : (add : ℤ) → leb_ℤ add (pos 0) ≡ true → pos 0 +ℤ pos 0 ≡ pos (pos_part add)
  no_more add h = zero-+ℤ (pos 0) ∙ eq_of_parts (pos 0) (pos (pos_part add)) (ground arith)

  all_parts : (add rest : ℤ) → leb_ℤ add (pos 0) ≡ false → add -ℤ rest +ℤ rest ≡ pos (pos_part add)
  all_parts add rest h = back add rest ∙ eq_of_parts add (pos (pos_part add)) (ground arith)
    where
      back : (x y : ℤ) → x -ℤ y +ℤ y ≡ x
      back x y = omega int_laws

  from_loop :
      (s t : Store) (add rest : ℤ)
      → leb_ℤ add (pos 0) ≡ false
      → Reserves company line s add rest t
      → ReservesLine company line s add (record { reserved = add -ℤ rest; shortage = rest }) t
  from_loop s t add rest more r = record {
    sound = r.sound;
    reserved_nonneg = omega (int_laws, r.rest_le);
    shortage_nonneg = r.rest_nonneg (ground arith);
    split = all_parts add rest more;
    held =
        +ℤ_transpose (held_for_line company line t.allocations) rest
          (held_for_line company line s.allocations) add r.accounted;
    others = r.others;
  }

  -- On a sound ledger the reservation for a line always returns, with a sound ledger; it reserves no
  -- less than nothing, the reserved quantity and the shortage add up to the positive part of the
  -- quantity asked for, the
  -- open allocations of the line grow by exactly the reserved quantity, and no other table changes.
  pub reserve_additional_for_line-ReservesLine :
      (add : ℤ) (s : Store)
      → IsSoundStore s
      → Returns
          (λ r t. ReservesLine company line s add r t)
          (reserve_additional_for_line e company line item now add s)
  unfolding reserve_additional_for_line
  reserve_additional_for_line-ReservesLine add s v = elim (Bool-cases (leb_ℤ add (pos 0))) [
    | inl nothing ↦ rw nothing (record {
      sound = v;
      reserved_nonneg = omega arith;
      shortage_nonneg = omega arith;
      split = no_more add nothing;
      held = sym (+ℤ-zero (held_for_line company line s.allocations));
      others = SameOthers-refl s;
    })
    | inr more ↦ rw more (
        Returns-bind (λ rest t. Reserves company line s add rest t)
          (λ r t. ReservesLine company line s add r t)
          (reserve_loop e company line now (candidates e company item s) add)
          (λ rest. pure (record { reserved = add -ℤ rest; shortage = rest })) s
          (reserve_loop-Reserves e laws company line now (candidates e company item s) add s v
            (candidates-AreRows e laws company item s v))
          (λ rest t r. from_loop s t add rest more r))
  ]
