-- ===== src/Picking/Release/PerLine.antt =====
-- The release for one line: it gives back exactly the quantity asked for if the line holds that
-- much, and is refused otherwise.
use mathlib.Core.List.{Permᴰ}
use warehousehub.Base.{
  [], ◌∷◌, ◌-ℤ◌, IsEighths, IsEighths-zero, IsEighths-plus, IsEighths-minus, ℕ, ◌≡◌, sym, ◌∙◌, Bool,
  true, false, ℤ, pos, ◌+ℤ◌, ◌≤ℤ◌, ◌<ℤ◌, leb_ℤ, ltb_ℤ, int_laws, List, some, ◌==◌, ◌&&◌, arith, All,
  All-map, All-keep, All-keep_test, All-permᴰ, Distinct-keep, Distinct-permᴰ, find_by,
  find_by-Distinct, sum_of-permᴰ, sum_of-keep, Bool-cases, inl, inr, subst, ap, eq_of_parts,
  +ℤ-zero,
}
use warehousehub.Db.{
  Store, Allocation, is_open, Engine, IsEngine, err, bad_request, not_enough_reserved, Returns,
  Returns-mono, Returns-bind, Returns-ok, bind-ok, throw_if,
}
use warehousehub.Ledger.{IsSoundStore, SameOthers, SameOthers-refl, held_for_line, same_allocation}
use warehousehub.Ledger.Steps.{same_allocation_refl, same_allocation_symm}
use warehousehub.Picking.Release.{open_for_line, release_loop, release_qty_for_line}
use warehousehub.Picking.Release.Step.{AreOpen}
use warehousehub.Picking.Release.Safety.{
  Releases, release_loop-Releases, total_qty, total_qty-nonneg,
}

abbrev is_open_for : ℕ → ℕ → Allocation → Bool
is_open_for company line a = (a.company == company) && (a.line == line) && is_open a

own_open :
    (company line : ℕ) (a : Allocation)
    → is_open_for company line a ≡ true
    → (a.company ≡ company) × (a.line ≡ line) × (is_open a ≡ true)
own_open company line a h = ground arith

module _ (e : Engine) (laws : IsEngine e) (company line : ℕ) (s : Store) (v : IsSoundStore s) where
  abbrev pub snapshot : List Allocation
  snapshot = e.newest_first (open_for_line company line s)

  order : Permᴰ (open_for_line company line s) snapshot
  order = laws.newest_first-permᴰ (open_for_line company line s)

  pub snapshot-AreOpen : AreOpen company line snapshot s.allocations
  snapshot-AreOpen = record {
    found =
        All-permᴰ (λ a. find_by (λ b. b.id == a.id) s.allocations ≡ some a) order
          (All-keep _ (is_open_for company line) s.allocations (
            find_by-Distinct same_allocation same_allocation_refl same_allocation_symm s.allocations
              v.allocation_ids));
    distinct =
        Distinct-permᴰ same_allocation same_allocation_symm order
          (Distinct-keep same_allocation (is_open_for company line) s.allocations v.allocation_ids);
    own = All-permᴰ _ order (
        All-map (λ a. is_open_for company line a ≡ true)
          (λ a. (a.company ≡ company) × (a.line ≡ line) × (is_open a ≡ true))
          (own_open company line) (open_for_line company line s)
          (All-keep_test (is_open_for company line) s.allocations));
  }

  pub snapshot-nonneg : All (λ a. pos 0 ≤ℤ a.qty) snapshot
  snapshot-nonneg =
      All-permᴰ _ order
        (All-keep (λ a. pos 0 ≤ℤ a.qty) (is_open_for company line) s.allocations v.nonneg)

  pub total_qty-snapshot : total_qty snapshot ≡ held_for_line company line s.allocations
  total_qty-snapshot =
      sym (sum_of-permᴰ (λ a. a.qty) order)
      ∙ sum_of-keep (λ a. a.qty) (is_open_for company line) s.allocations

no_release : (qty held : ℤ) → leb_ℤ qty (pos 0) ≡ true → pos 0 ≤ℤ qty → held +ℤ qty ≡ held
no_release qty held h k = ap (◌+ℤ◌ held) (eq_of_parts qty (pos 0) (ground arith)) ∙ +ℤ-zero held

positive : (qty held : ℤ) → pos 0 ≤ℤ held → held <ℤ qty → leb_ℤ qty (pos 0) ≡ false
positive qty held h k = ground arith

left_over : (qty held rest : ℤ) → held <ℤ qty → qty ≤ℤ held +ℤ rest → ltb_ℤ (pos 0) rest ≡ true
left_over qty held rest h k = grind int_laws

-- What a release of `qty` for a line has done.
pub record ReleasesLine (company line : ℕ) (s : Store) (qty : ℤ) (t : Store) : Type 0 where
  pub sound : IsSoundStore t
  pub held :
      held_for_line company line t.allocations +ℤ qty ≡ held_for_line company line s.allocations
  pub others : SameOthers s t

held-IsEighths :
    (company line : ℕ) (l : List Allocation)
    → All (λ a. IsEighths a.qty) l
    → IsEighths (held_for_line company line l)
held-IsEighths company line [] h = IsEighths-zero
held-IsEighths company line (a ∷ l) h = elim (Bool-cases (is_open_for company line a)) [
  | inl here ↦ rw here (IsEighths-plus h.0 (held-IsEighths company line l h.1))
  | inr other ↦ rw other (IsEighths-plus IsEighths-zero (held-IsEighths company line l h.1))
]

less : (x y z : ℤ) → x +ℤ y ≡ z → z -ℤ y ≡ x
less x y z h = rw (← h) (omega int_laws)

module _ (e : Engine) (laws : IsEngine e) (company line now : ℕ) where
  finish :
      (qty : ℤ) (s : Store) (v : IsSoundStore s)
      → pos 0 ≤ℤ qty
      → qty ≤ℤ held_for_line company line s.allocations
      → (rest : ℤ) (t : Store)
      → Releases company line s (snapshot e laws company line s v) qty rest t
      → Returns
          (λ _ u. ReleasesLine company line s qty u)
          (throw_if (ltb_ℤ (pos 0) rest) (bad_request not_enough_reserved) t)
  finish qty s v nonneg le rest t r =
      let total = total_qty-snapshot e laws company line s v in
      let none_left : rest ≡ pos 0 =
        eq_of_parts rest (pos 0)
          (omega (arith, r.rest_nonneg nonneg, r.enough (subst (λ x. qty ≤ℤ x) (sym total) le))) in
      rw none_left (record {
        sound = r.sound;
        held =
            r.accounted
            ∙ ap (◌+ℤ◌ (held_for_line company line s.allocations)) none_left
            ∙ +ℤ-zero (held_for_line company line s.allocations);
        others = r.others;
      })

  -- In exact arithmetic this holds of all quantities.
  pub releases_exactly :
      (qty : ℤ) (s : Store)
      → IsSoundStore s
      → pos 0 ≤ℤ qty
      → qty ≤ℤ held_for_line company line s.allocations
      → Returns
          (λ _ t. ReleasesLine company line s qty t)
          (release_qty_for_line e company line now qty s)
  unfolding release_qty_for_line
  releases_exactly qty s v nonneg le = elim (Bool-cases (leb_ℤ qty (pos 0))) [
    | inl none_left ↦ rw none_left (record {
      sound = v;
      held = no_release qty (held_for_line company line s.allocations) none_left nonneg;
      others = SameOthers-refl s;
    })
    | inr some_left ↦ rw some_left (
        Returns-bind
          (λ rest t. Releases company line s (snapshot e laws company line s v) qty rest t)
          (λ _ t. ReleasesLine company line s qty t)
          (release_loop company now (snapshot e laws company line s v) qty)
          (λ rest. throw_if (ltb_ℤ (pos 0) rest) (bad_request not_enough_reserved)) s
          (release_loop-Releases company line now (snapshot e laws company line s v) qty s v
            (snapshot-AreOpen e laws company line s v) (snapshot-nonneg e laws company line s v))
          (λ rest t r. finish qty s v nonneg le rest t r))
  ]

  -- On a sound ledger whose allocations, like the quantity to release, are whole numbers of eighths of
  -- a unit, a release of no more than the open allocations of the line hold returns, with a sound
  -- ledger in which the line holds exactly that much less, again a whole number of eighths, and no
  -- other table has changed.
  pub release_qty_for_line-ReleasesLine :
      (qty : ℤ) (s : Store)
      → IsSoundStore s
      → pos 0 ≤ℤ qty
      → qty ≤ℤ held_for_line company line s.allocations
      → All (λ a. IsEighths a.qty) s.allocations
      → IsEighths qty
      → Returns
          (λ _ t.
            ReleasesLine company line s qty t
            × IsEighths (held_for_line company line t.allocations))
          (release_qty_for_line e company line now qty s)
  release_qty_for_line-ReleasesLine qty s v nonneg le rows whole =
      Returns-mono (λ _ t. ReleasesLine company line s qty t) _ _
        (λ _ t r. (
          r,
          subst IsEighths (less _ _ _ r.held)
              (IsEighths-minus (held-IsEighths company line s.allocations rows) whole),
        ))
        (releases_exactly qty s v nonneg le)

  -- On a sound ledger a release of more than the open allocations of the line hold is refused.
  pub release_qty_for_line_refused :
      (qty : ℤ) (s : Store)
      → IsSoundStore s
      → held_for_line company line s.allocations <ℤ qty
      → release_qty_for_line e company line now qty s ≡ err (bad_request not_enough_reserved)
  unfolding release_qty_for_line
  release_qty_for_line_refused qty s v more =
      let l = snapshot e laws company line s v in
      let total = total_qty-snapshot e laws company line s v in
      let over : total_qty l <ℤ qty = subst (λ x. x <ℤ qty) (sym total) more in
      let nonneg = total_qty-nonneg l (snapshot-nonneg e laws company line s v) in
      let (rest, t, ran, r) =
        Returns-ok (λ rest t. Releases company line s l qty rest t)
          (release_loop company now l qty s)
          (release_loop-Releases company line now l qty s v
            (snapshot-AreOpen e laws company line s v) (snapshot-nonneg e laws company line s v)) in
      rw (positive qty (total_qty l) nonneg over) (
        bind-ok (release_loop company now l qty)
          (λ left. throw_if (ltb_ℤ (pos 0) left) (bad_request not_enough_reserved)) s ran
        ∙ rw (left_over qty (total_qty l) rest over (r.short (omega arith))))
