-- ===== src/Picking/Reserve/Shares.antt =====
-- What each candidate gives, row by row: what the rows before it do not cover, but no more than it
-- has available.
use warehousehub.Base.{
  All, IsEighths, ℕ, ◌≡◌, refl, sym, ◌∙◌, ap, true, false, ℤ, pos, pos_part, ◌+ℤ◌, ◌-ℤ◌, ◌≤ℤ◌,
  leb_ℤ, min_ℤ, int_laws, subst, +ℤ-zero, List, [], ◌∷◌, arith, Bool-cases, inl, inr, if◌then◌else◌,
  eq_of_parts,
}
use warehousehub.Db.{Store, Stock, Engine, IsEngine, IsOrdered, Post, Post-bind}
use warehousehub.Picking.Reserve.{available, candidates, reserve_loop, reserve_additional_for_line}
use warehousehub.Picking.Reserve.FirstExpired.{
  expiry_of, no_later, candidates-IsOrdered, candidates-All,
}
use warehousehub.Picking.Reserve.InEighths.{AreEighths}
use warehousehub.Picking.Reserve.Shortfall.{uncovered, covered, short}
use warehousehub.Picking.Reserve.Plan.{
  Take, plan, carry_out, takes_in, all_left, plan-IsEighths, reserve_loop-plan,
}

-- What a row gives to `wanted`, where the rows before it have `before` available.
abbrev pub share : ℤ → ℤ → Stock → ℤ
share wanted before c = min_ℤ (uncovered wanted before) (available c)

-- A take for each row whose share is not nothing.
abbrev pub shares : ℕ → ℤ → ℤ → List Stock → List Take
shares line wanted before [] = []
shares line wanted before (c ∷ cs) =
    let rest = shares line wanted (before +ℤ pos (pos_part (available c))) cs in
    if leb_ℤ (share wanted before c) (pos 0)
    then rest
    else (record { line = line; warehouse = c.warehouse; lot = c.lot; qty = share wanted before c })
      ∷ rest

no_share :
    (wanted before a : ℤ)
    → leb_ℤ (uncovered wanted before) (pos 0) ≡ true
    → leb_ℤ (min_ℤ (uncovered wanted before) a) (pos 0) ≡ true
no_share wanted before a h = ground arith

still_covered :
    (wanted before : ℤ) (n : ℕ)
    → leb_ℤ (uncovered wanted before) (pos 0) ≡ true
    → leb_ℤ (uncovered wanted (before +ℤ pos n)) (pos 0) ≡ true
still_covered wanted before n h =
    positive_parts (wanted -ℤ (before +ℤ pos n)) (below wanted before n (ground arith))
  where
    below : (w b : ℤ) (n : ℕ) → w -ℤ b ≤ℤ pos 0 → w -ℤ (b +ℤ pos n) ≤ℤ pos 0
    below w b n h = omega (int_laws, h)

    positive_parts : (x : ℤ) → x ≤ℤ pos 0 → leb_ℤ (pos (pos_part x)) (pos 0) ≡ true
    positive_parts x h = ground arith

shares-covered :
    (line : ℕ) (wanted before : ℤ) (cs : List Stock)
    → leb_ℤ (uncovered wanted before) (pos 0) ≡ true
    → shares line wanted before cs ≡ []
shares-covered line wanted before [] h = refl
shares-covered line wanted before (c ∷ cs) h = rw (no_share wanted before (available c) h) (
    shares-covered line wanted (before +ℤ pos (pos_part (available c))) cs
      (still_covered wanted before (pos_part (available c)) h))

nothing_more : (before a : ℤ) → leb_ℤ a (pos 0) ≡ true → before +ℤ pos (pos_part a) ≡ before
nothing_more before a h =
    ap (◌+ℤ◌ before) (eq_of_parts (pos (pos_part a)) (pos 0) (ground arith)) ∙ +ℤ-zero before

empty_share : (x a : ℤ) → leb_ℤ a (pos 0) ≡ true → leb_ℤ (min_ℤ x a) (pos 0) ≡ true
empty_share x a h = ground arith

all_of_it : (a : ℤ) → leb_ℤ a (pos 0) ≡ false → pos (pos_part a) ≡ a
all_of_it a h = eq_of_parts (pos (pos_part a)) a (ground arith)

some_share :
    (x a : ℤ)
    → leb_ℤ x (pos 0) ≡ false
    → leb_ℤ a (pos 0) ≡ false
    → leb_ℤ (min_ℤ x a) (pos 0) ≡ false
some_share x a h k = ground arith

left_after :
    (wanted before a : ℤ)
    → leb_ℤ (uncovered wanted before) (pos 0) ≡ false
    → leb_ℤ a (pos 0) ≡ false
    → uncovered wanted before -ℤ min_ℤ (uncovered wanted before) a ≡ uncovered wanted (before +ℤ a)
left_after wanted before a h k =
    let whole : uncovered wanted before ≡ wanted -ℤ before =
      all_of_it (wanted -ℤ before) (ground arith) in
    elim (Bool-cases (leb_ℤ (uncovered wanted before) a)) [
      | inl le ↦ rw le (
          none_left (uncovered wanted before)
          ∙ sym (
              covered wanted (before +ℤ a)
                (within wanted before a (subst (λ y. y ≤ℤ a) whole (ground arith)))))
      | inr gt ↦ rw gt (
          ap (λ y. y -ℤ a) whole
          ∙ regroup wanted before a
          ∙ sym (
              short wanted (before +ℤ a)
                (over wanted before a (subst (λ y. a ≤ℤ y) whole (ground arith)))))
    ]
  where
    none_left : (x : ℤ) → x -ℤ x ≡ pos 0
    none_left x = omega int_laws

    regroup : (w b a : ℤ) → (w -ℤ b) -ℤ a ≡ w -ℤ (b +ℤ a)
    regroup w b a = omega int_laws

    within : (w b a : ℤ) → w -ℤ b ≤ℤ a → w ≤ℤ b +ℤ a
    within w b a h = omega (int_laws, h)

    over : (w b a : ℤ) → a ≤ℤ w -ℤ b → b +ℤ a ≤ℤ w
    over w b a h = omega (int_laws, h)

passed_over :
    (line : ℕ) (wanted before : ℤ) (c : Stock) (cs : List Stock)
    → leb_ℤ (available c) (pos 0) ≡ true
    → shares line wanted before (c ∷ cs) ≡ shares line wanted before cs
passed_over line wanted before c cs h =
    rw (empty_share (uncovered wanted before) (available c) h)
      (ap (λ b. shares line wanted b cs) (nothing_more before (available c) h))

gives :
    (line : ℕ) (wanted before : ℤ) (c : Stock) (cs : List Stock)
    → leb_ℤ (uncovered wanted before) (pos 0) ≡ false
    → leb_ℤ (available c) (pos 0) ≡ false
    → shares line wanted before (c ∷ cs)
      ≡ (record { line = line; warehouse = c.warehouse; lot = c.lot; qty = share wanted before c })
        ∷ shares line wanted (before +ℤ available c) cs
gives line wanted before c cs h k = rw (some_share (uncovered wanted before) (available c) h k) (
    ap
      (λ b.
        (record { line = line; warehouse = c.warehouse; lot = c.lot; qty = share wanted before c })
        ∷ shares line wanted b cs)
      (ap (◌+ℤ◌ before) (all_of_it (available c) k)))

-- The plan for what the rows before do not cover.
pub plan-shares :
    (line : ℕ) (cs : List Stock) (wanted before : ℤ)
    → plan line cs (uncovered wanted before) ≡ shares line wanted before cs
plan-shares line [] wanted before = refl
plan-shares line (c ∷ cs) wanted before =
    elim (Bool-cases (leb_ℤ (uncovered wanted before) (pos 0))) [
      | inl enough ↦ rw enough (sym (shares-covered line wanted before (c ∷ cs) enough))
      | inr wants ↦ elim (Bool-cases (leb_ℤ (available c) (pos 0))) [
        | inl nothing ↦
            rw (wants, nothing) (plan-shares line cs wanted before)
            ∙ sym (passed_over line wanted before c cs nothing)
        | inr there ↦
            rw (wants, there)
              (ap
                (λ ts.
                  (record {
                    line = line;
                    warehouse = c.warehouse;
                    lot = c.lot;
                    qty = share wanted before c;
                  })
                  ∷ ts)
                (ap (plan line cs) (left_after wanted before (available c) wants there)
                  ∙ plan-shares line cs wanted (before +ℤ available c)))
            ∙ sym (gives line wanted before c cs wants there)
      ]
    ]

module _ (e : Engine) (laws : IsEngine e) (company line item now : ℕ) (add : ℤ) where
  reserve_additional_for_line-plan :
      (s : Store)
      → leb_ℤ add (pos 0) ≡ false
      → Post
          (λ _ t. takes_in t ≡ carry_out (plan line (candidates e company item s) add) (takes_in s))
          (reserve_additional_for_line e company line item now add s)
  unfolding reserve_additional_for_line
  reserve_additional_for_line-plan s wanted = rw wanted (
      Post-bind
        (λ _ t. takes_in t ≡ carry_out (plan line (candidates e company item s) add) (takes_in s)) _
        (reserve_loop e company line now (candidates e company item s) add) _ s
        (reserve_loop-plan e company line now (candidates e company item s) add s)
        (λ _ t _ done. done))

  -- If the stock rows and the positive quantity asked for are whole numbers of eighths of a unit: the
  -- candidates are in the order of their lots' expiry, where a lot without an expiry date comes after
  -- all others; and a reservation that returns has taken from each candidate what the available stock
  -- of the candidates before it, taken together, does not cover, but no more than the candidate has
  -- available, in this order and, where that is nothing, no allocation. Nothing else has entered the
  -- table of allocations, and each take is a whole number of eighths.
  pub reserve_additional_for_line_first_expired_first :
      (s : Store)
      → leb_ℤ add (pos 0) ≡ false
      → AreEighths s.stocks
      → IsEighths add
      → IsOrdered (λ c d. no_later (expiry_of s c) (expiry_of s d)) (candidates e company item s)
        × All (λ t. IsEighths t.qty) (shares line add (pos 0) (candidates e company item s))
        × Post
            (λ _ t.
              takes_in t
              ≡ carry_out (shares line add (pos 0) (candidates e company item s)) (takes_in s))
            (reserve_additional_for_line e company line item now add s)
  reserve_additional_for_line_first_expired_first s wanted rows whole =
      let cs = candidates e company item s in
      let same : plan line cs add ≡ shares line add (pos 0) cs =
        ap (plan line cs) (all_left add (at_least add wanted)) ∙ plan-shares line cs add (pos 0) in
      (
        candidates-IsOrdered e laws company item s,
        subst (All (λ t. IsEighths t.qty)) same
            (plan-IsEighths line cs add (candidates-All e laws company item s _ rows) whole),
        subst
            (λ ts.
              Post (λ _ t. takes_in t ≡ carry_out ts (takes_in s))
                (reserve_additional_for_line e company line item now add s))
            same (reserve_additional_for_line-plan s wanted),
      )
    where
      at_least : (x : ℤ) → leb_ℤ x (pos 0) ≡ false → pos 0 ≤ℤ x
      at_least x h = ground arith
