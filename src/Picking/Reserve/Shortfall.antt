-- ===== src/Picking/Reserve/Shortfall.antt =====
-- The shortage of a reservation in closed form: what the available stock of the candidates, taken
-- together, does not cover.
use warehousehub.Base.{
  subst, IsEighths, zero-+ℤ, ℕ, ◌≡◌, refl, sym, ◌∙◌, ap, true, false, ℤ, pos, pos_part, ◌+ℤ◌, ◌-ℤ◌,
  ◌≤ℤ◌, leb_ℤ, min_ℤ, int_laws, List, [], ◌∷◌, arith, sum_of, Bool-cases, inl, inr, eq_of_parts,
}
use warehousehub.Db.{
  Store, Stock, Engine, IsEngine, Result, ok, err, Post, Post-bind, Post-mono, Returns, pure,
}
use warehousehub.Ledger.{IsSoundStore}
use warehousehub.Picking.Reserve.{
  available, candidates, reserve_one, reserve_loop, reserve_additional_for_line,
}
use warehousehub.Picking.Reserve.FirstExpired.{candidates-All}
use warehousehub.Picking.Reserve.InEighths.{AreEighths, sum_of-IsEighths, rest-IsEighths}
use warehousehub.Picking.Reserve.OfItem.{stock_of_item, sum_of-candidates}
use warehousehub.Picking.Reserve.PerLine.{ReservesLine, reserve_additional_for_line-ReservesLine}

-- The available stock of a list of rows; a row that reserves all it holds has none.
abbrev pub total_available : List Stock → ℤ
total_available cs = sum_of (λ c. pos (pos_part (available c))) cs

-- What `total` does not cover of `wanted`.
abbrev pub uncovered : ℤ → ℤ → ℤ
uncovered wanted total = pos (pos_part (wanted -ℤ total))

pub total_available-nonneg : (cs : List Stock) → pos 0 ≤ℤ total_available cs
total_available-nonneg [] = omega arith
total_available-nonneg (c ∷ cs) =
    add_nonneg (pos_part (available c)) (total_available cs) (total_available-nonneg cs)
  where
    add_nonneg : (n : ℕ) (x : ℤ) → pos 0 ≤ℤ x → pos 0 ≤ℤ pos n +ℤ x
    add_nonneg n x h = omega (int_laws, h)

part_of_positive : (x : ℤ) → pos 0 ≤ℤ x → pos (pos_part x) ≡ x
part_of_positive x h = eq_of_parts (pos (pos_part x)) x (ground arith)

part_of_negative : (x : ℤ) → x ≤ℤ pos 0 → pos (pos_part x) ≡ pos 0
part_of_negative x h = eq_of_parts (pos (pos_part x)) (pos 0) (ground arith)

pub covered : (wanted total : ℤ) → wanted ≤ℤ total → uncovered wanted total ≡ pos 0
covered wanted total h = part_of_negative (wanted -ℤ total) (omega (int_laws, h))

pub short : (wanted total : ℤ) → total ≤ℤ wanted → uncovered wanted total ≡ wanted -ℤ total
short wanted total h = part_of_positive (wanted -ℤ total) (omega (int_laws, h))

pub nothing_wanted :
    (x total : ℤ) → pos 0 ≤ℤ x → leb_ℤ x (pos 0) ≡ true → pos 0 ≤ℤ total → x ≡ uncovered x total
nothing_wanted x total h k t =
    eq_of_parts x (pos 0) (ground arith) ∙ sym (covered x total (ground arith))

pub nothing_there :
    (x a total : ℤ)
    → leb_ℤ a (pos 0) ≡ true
    → uncovered x total ≡ uncovered x (pos (pos_part a) +ℤ total)
nothing_there x a total h =
    ap (uncovered x)
      (sym (ap (λ y. y +ℤ total) (part_of_negative a (ground arith)) ∙ zero-+ℤ total))

regroup : (x a t : ℤ) → (x -ℤ a) -ℤ t ≡ x -ℤ (a +ℤ t)
regroup x a t = omega int_laws

none_left : (x t : ℤ) → (x -ℤ x) -ℤ t ≡ pos 0 -ℤ t
none_left x t = omega int_laws

pub taken_first :
    (x a total : ℤ)
    → leb_ℤ x (pos 0) ≡ false
    → leb_ℤ a (pos 0) ≡ false
    → pos 0 ≤ℤ total
    → uncovered (x -ℤ min_ℤ x a) total ≡ uncovered x (pos (pos_part a) +ℤ total)
taken_first x a total h k t = elim (Bool-cases (leb_ℤ x a)) [
  | inl le ↦
      rw (le, part_of_positive a (ground arith))
        (covered (x -ℤ x) total (none_over x total t)
          ∙ sym (covered x (a +ℤ total) (within x a total t (ground arith))))
  | inr gt ↦ rw (gt, part_of_positive a (ground arith), regroup x a total) refl
]
  where
    none_over : (x t : ℤ) → pos 0 ≤ℤ t → x -ℤ x ≤ℤ t
    none_over x t h = omega (int_laws, h)

    within : (x a t : ℤ) → pos 0 ≤ℤ t → x ≤ℤ a → x ≤ℤ a +ℤ t
    within x a t h k = omega (int_laws, h, k)

rest_nonneg : (x a : ℤ) → pos 0 ≤ℤ x → pos 0 ≤ℤ x -ℤ min_ℤ x a
rest_nonneg x a h = elim (Bool-cases (leb_ℤ x a)) [
  | inl le ↦ rw le (omega int_laws)
  | inr gt ↦ rw gt (apart x a (ground arith))
]
  where
    apart : (x a : ℤ) → a ≤ℤ x → pos 0 ≤ℤ x -ℤ a
    apart x a h = omega (int_laws, h)

all_wanted : (x : ℤ) → x ≡ x -ℤ pos 0
all_wanted x = omega int_laws

any_result : {A : Type 0} (r : Result A) → Post (λ _ _. Unit {0}) r
any_result (ok a t) = tt
any_result (err x) = tt

module _ (e : Engine) (company line now : ℕ) where
  reserve_loop-uncovered :
      (cs : List Stock) (wanted : ℤ) (s : Store)
      → pos 0 ≤ℤ wanted
      → Post
          (λ rest _. rest ≡ uncovered wanted (total_available cs))
          (reserve_loop e company line now cs wanted s)
  unfolding reserve_loop
  reserve_loop-uncovered [] wanted s h = all_wanted wanted ∙ sym (short wanted (pos 0) h)
  reserve_loop-uncovered (c ∷ cs) wanted s h = elim (Bool-cases (leb_ℤ wanted (pos 0))) [
    | inl stop ↦
        rw stop (
          nothing_wanted wanted (total_available (c ∷ cs)) h stop (total_available-nonneg (c ∷ cs)))
    | inr go ↦ elim (Bool-cases (leb_ℤ (available c) (pos 0))) [
      | inl skip ↦
          rw (go, skip)
            (Post-mono (λ rest _. rest ≡ uncovered wanted (total_available cs))
              (λ rest _. rest ≡ uncovered wanted (total_available (c ∷ cs))) _
              (λ rest _ same. same ∙ nothing_there wanted (available c) (total_available cs) skip)
              (reserve_loop-uncovered cs wanted s h))
      | inr room ↦
          let take = min_ℤ wanted (available c) in
          rw (go, room)
            (Post-bind (λ _ _. Unit {0})
              (λ rest _. rest ≡ uncovered wanted (total_available (c ∷ cs)))
              (reserve_one e company line now c take)
              (λ _. reserve_loop e company line now cs (wanted -ℤ take)) s
              (any_result (reserve_one e company line now c take s))
              (λ _ t _ _.
                Post-mono (λ rest _. rest ≡ uncovered (wanted -ℤ take) (total_available cs))
                  (λ rest _. rest ≡ uncovered wanted (total_available (c ∷ cs))) _
                  (λ rest _ same.
                    same
                    ∙ taken_first wanted (available c) (total_available cs) go room
                        (total_available-nonneg cs))
                  (reserve_loop-uncovered cs (wanted -ℤ take) t
                    (rest_nonneg wanted (available c) h))))
    ]
  ]

  line_uncovered :
      (item : ℕ) (add : ℤ) (s : Store)
      → Post
          (λ r _. r.shortage ≡ uncovered add (total_available (candidates e company item s)))
          (reserve_additional_for_line e company line item now add s)
  unfolding reserve_additional_for_line
  line_uncovered item add s = elim (Bool-cases (leb_ℤ add (pos 0))) [
    | inl nothing ↦ rw nothing (
        sym (
          covered add (total_available (candidates e company item s)) (
            below add (total_available (candidates e company item s)) nothing
              (total_available-nonneg (candidates e company item s)))))
    | inr more ↦ rw more (
        Post-bind (λ rest _. rest ≡ uncovered add (total_available (candidates e company item s)))
          (λ r _. r.shortage ≡ uncovered add (total_available (candidates e company item s)))
          (reserve_loop e company line now (candidates e company item s) add)
          (λ rest. pure (record { reserved = add -ℤ rest; shortage = rest })) s
          (reserve_loop-uncovered (candidates e company item s) add s (ground arith))
          (λ rest t _ same. same))
  ]
    where
      below : (x y : ℤ) → leb_ℤ x (pos 0) ≡ true → pos 0 ≤ℤ y → x ≤ℤ y
      below x y h k = ground arith

both_results :
    {A : Type 0} (P Q : A → Store → Type 0) (r : Result A) → Returns P r → Post Q r → Returns Q r
both_results P Q (ok a t) h k = k
both_results P Q (err x) h k = h

-- On a sound ledger whose stock rows, like the quantity asked for, are whole numbers of eighths of
-- a unit, the reservation for a line returns. Its shortage is exactly what the available stock of
-- the company's rows with goods of the item on hand, taken together, does not cover, and is again a
-- whole number of eighths: nothing available is left unused while the line is short.
pub reserve_additional_for_line-uncovered :
    (e : Engine) (laws : IsEngine e) (company line item now : ℕ) (add : ℤ) (s : Store)
    → IsSoundStore s
    → AreEighths s.stocks
    → IsEighths add
    → Returns
        (λ r _.
          (r.shortage ≡ uncovered add (total_available (stock_of_item company item s)))
          × IsEighths r.shortage)
        (reserve_additional_for_line e company line item now add s)
reserve_additional_for_line-uncovered e laws company line item now add s v rows whole =
    let total = total_available (candidates e company item s) in
    let eighths = rest-IsEighths add total whole (
      sum_of-IsEighths (candidates e company item s)
        (candidates-All e laws company item s _ rows)) in
    both_results (λ r t. ReservesLine company line s add r t) _
      (reserve_additional_for_line e company line item now add s)
      (reserve_additional_for_line-ReservesLine e laws company line item now add s v)
      (Post-mono (λ r _. r.shortage ≡ uncovered add total) _ _
        (λ r _ same. (
          same ∙ ap (uncovered add) (sum_of-candidates e laws company item s _),
          subst IsEighths (sym same) eighths,
        ))
        (line_uncovered e company line now item add s))
