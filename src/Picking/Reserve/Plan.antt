-- ===== src/Picking/Reserve/Plan.antt =====
-- The reservation of a line as a plan: which quantity is taken from which stock row.
use warehousehub.Base.{
  All, IsEighths, IsEighths-min, IsEighths-minus, ℕ, ◌≡◌, refl, sym, ◌∙◌, ap, ℤ, pos, ◌-ℤ◌, ◌≤ℤ◌,
  leb_ℤ, min_ℤ, int_laws, List, [], ◌∷◌, map, ◌==◌, Bool-cases, Option-cases, inl, inr,
  update_first, if◌then◌else◌,
}
use warehousehub.Db.{
  Store, Stock, Allocation, Engine, Post, Post-bind, Post-mono, ◌>>=◌, update_stock,
  insert_allocation,
}
use warehousehub.Picking.Reserve.{available, add_reserved, reserve_one, reserve_loop}
use warehousehub.Picking.Reserve.InEighths.{AreEighths, available-IsEighths}
use warehousehub.Picking.Reserve.Shortfall.{uncovered, short}

-- What is taken for a line from a lot in a warehouse.
pub record Take : Type 0 where
  pub line : ℕ
  pub warehouse : ℕ
  pub lot : ℕ
  pub qty : ℤ

abbrev pub take_of : Allocation → Take
take_of a = record { line = a.line; warehouse = a.warehouse; lot = a.lot; qty = a.qty }

-- Each row in turn gives what it has, until the wanted quantity is reached.
abbrev pub plan : ℕ → List Stock → ℤ → List Take
plan line [] q = []
plan line (c ∷ cs) q =
    let skip = plan line cs q in
    let qty = min_ℤ q (available c) in
    let rest = plan line cs (q -ℤ qty) in
    if leb_ℤ q (pos 0)
    then []
    else if leb_ℤ (available c) (pos 0)
    then skip
    else (record { line = line; warehouse = c.warehouse; lot = c.lot; qty = qty }) ∷ rest

-- The table after the takes of a plan, newest first.
abbrev pub carry_out : List Take → List Take → List Take
carry_out [] done = done
carry_out (t ∷ ts) done = carry_out ts (t ∷ done)

abbrev pub takes_in : Store → List Take
takes_in s = map take_of s.allocations

module _ (e : Engine) (company line now : ℕ) where
  reserve_one-takes :
      (c : Stock) (qty : ℤ) (s : Store)
      → Post
          (λ _ t.
            takes_in t
            ≡ (record { line = line; warehouse = c.warehouse; lot = c.lot; qty = qty })
              ∷ takes_in s)
          (reserve_one e company line now c qty s)
  unfolding reserve_one update_stock insert_allocation
  reserve_one-takes c qty s =
      elim (Option-cases (update_first (λ r. r.id == c.id) (add_reserved qty) s.stocks)) [
        | inl missing ↦ rw (missing, ◌>>=◌, update_stock) tt
        | inr (m, upd) ↦ rw (upd, ◌>>=◌, update_stock) refl
      ]

  pub reserve_loop-plan :
      (cs : List Stock) (q : ℤ) (s : Store)
      → Post
          (λ _ t. takes_in t ≡ carry_out (plan line cs q) (takes_in s))
          (reserve_loop e company line now cs q s)
  unfolding reserve_loop
  reserve_loop-plan [] q s = refl
  reserve_loop-plan (c ∷ cs) q s = elim (Bool-cases (leb_ℤ q (pos 0))) [
    | inl enough ↦ rw enough refl
    | inr wanted ↦ elim (Bool-cases (leb_ℤ (available c) (pos 0))) [
      | inl nothing ↦ rw wanted (rw nothing (reserve_loop-plan cs q s))
      | inr there ↦
          let qty = min_ℤ q (available c) in
          rw wanted (
            rw there (
              Post-bind _ _ (reserve_one e company line now c qty)
                (λ _. reserve_loop e company line now cs (q -ℤ qty)) s (reserve_one-takes c qty s)
                (λ _ t _ one.
                  Post-mono (λ _ u. takes_in u ≡ carry_out (plan line cs (q -ℤ qty)) (takes_in t)) _
                    _ (λ _ u more. more ∙ ap (carry_out (plan line cs (q -ℤ qty))) one)
                    (reserve_loop-plan cs (q -ℤ qty) t))))
    ]
  ]

pub all_left : (q : ℤ) → pos 0 ≤ℤ q → q ≡ uncovered q (pos 0)
all_left q h = sym (short q (pos 0) h ∙ less_nothing q)
  where
    less_nothing : (q : ℤ) → q -ℤ pos 0 ≡ q
    less_nothing q = omega int_laws

-- The takes of a plan stay in the domain of its quantities.
pub plan-IsEighths :
    (line : ℕ) (cs : List Stock) (q : ℤ)
    → AreEighths cs
    → IsEighths q
    → All (λ t. IsEighths t.qty) (plan line cs q)
plan-IsEighths line [] q h k = tt
plan-IsEighths line (c ∷ cs) q h k =
    let here = available-IsEighths c h.0 in
    elim (Bool-cases (leb_ℤ q (pos 0))) [
      | inl enough ↦ rw enough tt
      | inr wanted ↦ elim (Bool-cases (leb_ℤ (available c) (pos 0))) [
        | inl nothing ↦ rw wanted (rw nothing (plan-IsEighths line cs q h.1 k))
        | inr there ↦ rw wanted (
            rw there (
              IsEighths-min k here,
              plan-IsEighths line cs (q -ℤ min_ℤ q (available c)) h.1
                  (IsEighths-minus k (IsEighths-min k here)),
            ))
      ]
    ]
