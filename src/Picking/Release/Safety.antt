-- ===== src/Picking/Release/Safety.antt =====
-- The release loop always returns; it keeps the ledger sound, and releases what is asked for or all
-- that the line holds.
use warehousehub.Base.{
  ℕ, ◌≡◌, refl, true, false, ℤ, pos, ◌+ℤ◌, ◌-ℤ◌, ◌≤ℤ◌, leb_ℤ, min_ℤ, int_laws, some, List, [], ◌∷◌,
  ◌==◌, ◌⊎◌, arith, All, sum_of, sum_of-update_first, update_first, find_by, Bool-cases, inl, inr,
  subst,
}
use warehousehub.Db.{Store, Stock, has_key, Allocation, is_open, ok, Returns, Returns-mono}
use warehousehub.Ledger.{
  IsSoundStore, SameOthers, SameOthers-refl, SameOthers-after, held_for, held_for_line,
}
use warehousehub.Ledger.Steps.{some-eq}
use warehousehub.Picking.Release.{release_one, release_loop, released_part, stock_key, sub_reserved}
use warehousehub.Picking.Release.Step.{
  AreOpen, AreOpen-tail, after_release, release_one_runs, release_one_lem, release_one-IsSound,
  held_for-released,
}

-- The quantity of a list of allocations.
abbrev pub total_qty : List Allocation → ℤ
total_qty l = sum_of (λ a. a.qty) l

pub total_qty-nonneg : (l : List Allocation) → All (λ a. pos 0 ≤ℤ a.qty) l → pos 0 ≤ℤ total_qty l
total_qty-nonneg [] h = omega arith
total_qty-nonneg (a ∷ l) h = omega (int_laws, total_qty-nonneg l h.1)

-- What a run of the loop over `l` with `remaining` to go leaves behind.
pub record Releases (company line : ℕ) (s : Store) (l : List Allocation) (remaining rest : ℤ)
    (t : Store) : Type 0 where
  pub sound : IsSoundStore t
  pub rest_nonneg : pos 0 ≤ℤ remaining → pos 0 ≤ℤ rest
  pub enough : remaining ≤ℤ total_qty l → rest ≤ℤ pos 0
  pub short : total_qty l ≤ℤ remaining → remaining ≤ℤ total_qty l +ℤ rest
  pub accounted :
      held_for_line company line t.allocations +ℤ remaining
      ≡ held_for_line company line s.allocations +ℤ rest
  pub others : SameOthers s t

min_facts : (a b : ℤ) → let q = min_ℤ a b in (q ≤ℤ a) × (q ≤ℤ b) × ((a ≤ℤ q) ⊎ (b ≤ℤ q))
min_facts a b = ground arith

min-nonneg : (a b : ℤ) → pos 0 ≤ℤ a → leb_ℤ b (pos 0) ≡ false → pos 0 ≤ℤ min_ℤ a b
min-nonneg a b h k = ground arith

stopped : (a : ℤ) → leb_ℤ a (pos 0) ≡ true → a ≤ℤ pos 0
stopped a h = ground arith

books_after :
    (held held₁ held₂ u u' q remaining rest : ℤ)
    → held₁ +ℤ u ≡ held +ℤ u'
    → u ≡ u' +ℤ q
    → held₂ +ℤ (remaining -ℤ q) ≡ held₁ +ℤ rest
    → held₂ +ℤ remaining ≡ held +ℤ rest
books_after held held₁ held₂ u u' q remaining rest e d h = grind int_laws

module _ (company line now : ℕ) where
  loop_stop :
      (a : Allocation) (l : List Allocation) (remaining : ℤ) (s : Store)
      → leb_ℤ remaining (pos 0) ≡ true
      → release_loop company now (a ∷ l) remaining s ≡ ok remaining s
  unfolding release_loop
  loop_stop a l remaining s h = ground arith

  loop_step :
      (a : Allocation) (l : List Allocation) (remaining : ℤ) (s t : Store)
      → leb_ℤ remaining (pos 0) ≡ false
      → release_one company now a (min_ℤ a.qty remaining) s ≡ ok tt t
      → release_loop company now (a ∷ l) remaining s
        ≡ release_loop company now l (remaining -ℤ min_ℤ a.qty remaining) t
  unfolding release_loop
  loop_step a l remaining s t h one = ground arith

  -- A run that begins with one release.
  prepend :
      (a : Allocation) (tail : List Allocation) (q remaining rest : ℤ) (s t : Store)
      (l : List Stock) {m : List Allocation}
      → pos 0 ≤ℤ total_qty tail
      → (q ≤ℤ a.qty) × (q ≤ℤ remaining) × ((a.qty ≤ℤ q) ⊎ (remaining ≤ℤ q))
      → find_by (λ b. b.id == a.id) s.allocations ≡ some a
      → (a.company ≡ company) × (a.line ≡ line) × (is_open a ≡ true)
      → update_first (λ b. b.id == a.id) (released_part now q a) s.allocations ≡ some m
      → Releases company line
          (record s { stocks = l; allocations = m })
          tail
          (remaining -ℤ q)
          rest
          t
      → Releases company line s (a ∷ tail) remaining rest t
  prepend a tail q remaining rest s t l {m} tail_nonneg min found own closed r = record {
    sound = r.sound;
    rest_nonneg = λ h. r.rest_nonneg (omega (int_laws, min.1));
    enough = λ h. r.enough (omega (int_laws, min.2, tail_nonneg));
    short = λ h. omega (int_laws, min.0, r.short (omega (int_laws, min.0)));
    accounted = books;
    others = SameOthers-after s l m t r.others;
  }
    where
      g : Allocation → Allocation
      g = released_part now q a

      books :
          held_for_line company line t.allocations +ℤ remaining
          ≡ held_for_line company line s.allocations +ℤ rest
      books =
          let (b, e, moved) =
            sum_of-update_first (held_for company line) (λ b. b.id == a.id) g s.allocations
              closed in
          books_after (held_for_line company line s.allocations) (held_for_line company line m)
            (held_for_line company line t.allocations) (held_for company line a)
            (held_for company line (g a)) q remaining rest
            (subst
              (λ x.
                held_for_line company line m +ℤ held_for company line x
                ≡ held_for_line company line s.allocations +ℤ held_for company line (g x))
              (some-eq (find_by (λ b. b.id == a.id) s.allocations) found e) moved)
            (held_for-released company line now q a own.0 own.1 own.2) r.accounted

  step :
      (a : Allocation) (tail : List Allocation) (remaining : ℤ) (s : Store)
      → IsSoundStore s
      → AreOpen company line (a ∷ tail) s.allocations
      → All (λ b. pos 0 ≤ℤ b.qty) (a ∷ tail)
      → leb_ℤ remaining (pos 0) ≡ false
      → let q = min_ℤ a.qty remaining in
        ((l : List Stock) (m : List Allocation)
          → update_first (has_key (stock_key company a)) (sub_reserved q) s.stocks ≡ some l
          → update_first (λ b. b.id == a.id) (released_part now q a) s.allocations ≡ some m
          → Returns
              (λ rest t.
                Releases company line
                  (after_release company line now s l m)
                  tail
                  (remaining -ℤ q)
                  rest
                  t)
              (release_loop company now tail
                (remaining -ℤ q)
                (after_release company line now s l m)))
        → Returns
            (λ rest t. Releases company line s (a ∷ tail) remaining rest t)
            (release_loop company now (a ∷ tail) remaining s)
  step a tail remaining s v rows nonneg go later =
      let q = min_ℤ a.qty remaining in
      let (l, m, upd, closed) =
        release_one_lem company line now a q s v rows.found.0 rows.own.0.0 in
      let t = after_release company line now s l m in
      rw (loop_step a tail remaining s t go (release_one_runs company line now a q s upd closed)) (
        Returns-mono (λ rest u. Releases company line t tail (remaining -ℤ q) rest u)
          (λ rest u. Releases company line s (a ∷ tail) remaining rest u)
          (release_loop company now tail (remaining -ℤ q) t)
          (λ rest u.
            prepend a tail q remaining rest s u l (total_qty-nonneg tail nonneg.1)
              (min_facts a.qty remaining) rows.found.0 rows.own.0 closed)
          (later l m upd closed))

  pub release_loop-Releases :
      (l : List Allocation) (remaining : ℤ) (s : Store)
      → IsSoundStore s
      → AreOpen company line l s.allocations
      → All (λ a. pos 0 ≤ℤ a.qty) l
      → Returns
          (λ rest t. Releases company line s l remaining rest t)
          (release_loop company now l remaining s)
  unfolding release_loop
  release_loop-Releases [] remaining s v rows nonneg = record {
    sound = v;
    rest_nonneg = λ h. h;
    enough = λ h. h;
    short = λ h. omega int_laws;
    accounted = refl;
    others = SameOthers-refl s;
  }
  release_loop-Releases (a ∷ l) remaining s v rows nonneg =
      elim (Bool-cases (leb_ℤ remaining (pos 0))) [
        | inl stop ↦ rw (loop_stop a l remaining s stop) (record {
          sound = v;
          rest_nonneg = λ h. h;
          enough = λ h. stopped remaining stop;
          short = λ h. omega (int_laws, total_qty-nonneg (a ∷ l) nonneg);
          accounted = refl;
          others = SameOthers-refl s;
        })
        | inr go ↦ step a l remaining s v rows nonneg go (λ ls m upd closed.
            let q = min_ℤ a.qty remaining in
            let min = min_facts a.qty remaining in
            release_loop-Releases l (remaining -ℤ q) (after_release company line now s ls m)
              (release_one-IsSound company line now a q s v rows.found.0 rows.own.0.0 rows.own.0.2
                (min-nonneg a.qty remaining nonneg.0 go) min.0 upd closed)
              (AreOpen-tail company line now a l q s.allocations closed rows) nonneg.1)
      ]
