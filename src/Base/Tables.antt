-- ===== src/Base/Tables.antt =====
-- Tables as lists of rows: finding one row, updating one row or every row that passes a test, and
-- sums over a table.
use mathlib.Core.Path.{◌≡◌, refl, sym, ap, ap₂, ◌∙◌, subst}
use mathlib.Core.Logic.{inl, inr}
use mathlib.Core.Bool.{Bool, true, false, ◌||◌}
use mathlib.Core.Option.{Option, none, some}
use mathlib.Core.Option
use mathlib.Core.List.{List, [], ◌∷◌, Permᴰ}
use native.Mathlib.Omega.{arith}
use warehousehub.Base.Tests.{if◌then◌else◌, Bool-cases}
use warehousehub.Base.Int.{ℤ, pos, ◌+ℤ◌, +ℤ_under, +ℤ_swap, zero-+ℤ, int_laws}
use warehousehub.Base.Lists.{All, Distinct, All-map, keep}

or_true : (b : Bool) → (b || true) ≡ true
or_true true = refl
or_true false = refl

module _ {ℓ} {A : Type ℓ} where
  abbrev pub find_by : (A → Bool) → List A → Option A
  find_by p [] = none
  find_by p (x ∷ xs) = if p x then some x else find_by p xs

  -- `none` if no row passes the test.
  abbrev pub update_first : (A → Bool) → (A → A) → List A → Option (List A)
  update_first p f [] = none
  update_first p f (x ∷ xs) =
      let rest = Option.map (λ l. x ∷ l) (update_first p f xs) in
      if p x then some (f x ∷ xs) else rest

  abbrev pub update_many : (A → Bool) → (A → A) → List A → List A
  update_many p f [] = []
  update_many p f (x ∷ xs) = (if p x then f x else x) ∷ update_many p f xs

  abbrev pub sum_of : (A → ℤ) → List A → ℤ
  sum_of w [] = pos 0
  sum_of w (x ∷ xs) = w x +ℤ sum_of w xs

  map_cons-some :
      (x : A) (o : Option (List A)) {l' : List A}
      → Option.map (λ l. x ∷ l) o ≡ some l'
      → (t : List A) × (o ≡ some t) × (l' ≡ x ∷ t)
  map_cons-some x none h = cc
  map_cons-some x (some t) h = (t, refl, cc)

  sum_of-step :
      (w : A → ℤ) (x : A) (a b : ℤ) (xs t : List A) {l' : List A}
      → l' ≡ x ∷ t
      → sum_of w t +ℤ a ≡ sum_of w xs +ℤ b
      → sum_of w l' +ℤ a ≡ sum_of w (x ∷ xs) +ℤ b
  sum_of-step w x a b xs t el h = rw el (+ℤ_under (w x) (sum_of w t) a (sum_of w xs) b h)

  -- An update of one row changes a sum by the change of that row.
  pub sum_of-update_first :
      (w : A → ℤ) (p : A → Bool) (f : A → A) (l : List A) {l' : List A}
      → update_first p f l ≡ some l'
      → (r : A) × (find_by p l ≡ some r) × (sum_of w l' +ℤ w r ≡ sum_of w l +ℤ w (f r))
  sum_of-update_first w p f [] h = absurd (cc)
  sum_of-update_first w p f (x ∷ xs) {l'} h = elim (Bool-cases (p x)) [
    | inl e ↦ let hit : f x ∷ xs ≡ l' = ground arith in (x, rw e, rw (← hit) (omega int_laws))
    | inr e ↦
        let (t, et, el) =
          map_cons-some x (update_first p f xs) {l' = l'} (rw (e, update_first) at h) in
        let (r, fr, sr) = sum_of-update_first w p f xs et in
        (r, rw e fr, sum_of-step w x (w r) (w (f r)) xs t el sr)
  ]

  -- A predicate on rows survives the update of one row, if it holds of the new row.
  pub All-update_first {κ} :
      (P : A → Type κ) (p : A → Bool) (f : A → A) (l : List A) {l' : List A}
      → update_first p f l ≡ some l'
      → ((r : A) → find_by p l ≡ some r → P r → P (f r))
      → All P l
      → All P l'
  All-update_first P p f [] h step ok = absurd (cc)
  All-update_first P p f (x ∷ xs) {l'} h step all = elim (Bool-cases (p x)) [
    | inl e ↦ let hit : f x ∷ xs ≡ l' = ground arith in rw (← hit) (step x (rw e) all.0, all.1)
    | inr e ↦
        let (t, et, el) =
          map_cons-some x (update_first p f xs) {l' = l'} (rw (e, update_first) at h) in
        rw el (all.0, All-update_first P p f xs et (λ r fr pr. step r (rw e fr) pr) all.1)
  ]

  -- The row that another test finds is left alone.
  pub find_by-update_first :
      (q p : A → Bool) (f : A → A) (l : List A) {l' : List A}
      → update_first p f l ≡ some l'
      → ((r : A) → p r ≡ true → (q r ≡ false) × (q (f r) ≡ false))
      → find_by q l' ≡ find_by q l
  find_by-update_first q p f [] h apart = absurd (cc)
  find_by-update_first q p f (x ∷ xs) {l'} h apart = elim (Bool-cases (p x)) [
    | inl e ↦ let hit : f x ∷ xs ≡ l' = ground arith in rw (← hit) (ground (arith, apart x e))
    | inr e ↦
        let (t, et, el) =
          map_cons-some x (update_first p f xs) {l' = l'} (rw (e, update_first) at h) in
        rw el (ground (arith, find_by-update_first q p f xs et apart))
  ]

  -- A row that is found can be updated.
  pub update_first_total :
      (p : A → Bool) (f : A → A) (l : List A) {r : A}
      → find_by p l ≡ some r
      → (l' : List A) × (update_first p f l ≡ some l')
  update_first_total p f [] h = absurd (cc)
  update_first_total p f (x ∷ xs) h = elim (Bool-cases (p x)) [
    | inl e ↦ (f x ∷ xs, rw e)
    | inr e ↦ let (t, et) = update_first_total p f xs (rw (e, find_by) at h) in (x ∷ t, rw (e, et))
  ]

  pub find_by_test : (p : A → Bool) (l : List A) {r : A} → find_by p l ≡ some r → p r ≡ true
  find_by_test p [] h = cc
  find_by_test p (x ∷ xs) {r} h = ground (arith, find_by_test p xs {r = r})

  pub find_by-All {κ} :
      (P : A → Type κ) (p : A → Bool) (l : List A) {r : A} → find_by p l ≡ some r → All P l → P r
  find_by-All P p [] h all = absurd (cc)
  find_by-All P p (x ∷ xs) {r} h all = elim (Bool-cases (p x)) [
    | inl e ↦ let hit : x ≡ r = ground arith in rw (← hit) all.0
    | inr e ↦ find_by-All P p xs (rw (e, find_by) at h) all.1
  ]

module _ {ℓ} {A : Type ℓ} where
  abbrev pub exists_by : (A → Bool) → List A → Bool
  exists_by p [] = false
  exists_by p (x ∷ xs) = p x || exists_by p xs

  pub exists_by-find_by :
      (p : A → Bool) (l : List A) → exists_by p l ≡ true → (r : A) × (find_by p l ≡ some r)
  exists_by-find_by p [] h = absurd (cc)
  exists_by-find_by p (x ∷ xs) h = elim (Bool-cases (p x)) [
    | inl e ↦ (x, rw e)
    | inr e ↦ let (r, f) = exists_by-find_by p xs (rw (e, exists_by) at h) in (r, rw e f)
  ]

  pub find_by-exists_by :
      (p : A → Bool) (l : List A) {r : A} → find_by p l ≡ some r → exists_by p l ≡ true
  find_by-exists_by p [] h = cc
  find_by-exists_by p (x ∷ xs) {r} h = ground (arith, find_by-exists_by p xs {r = r})

  -- A row found by one test passes any test that it is known to pass.
  pub find_by-exists_other :
      (p q : A → Bool) (l : List A) {r : A}
      → find_by p l ≡ some r
      → q r ≡ true
      → exists_by q l ≡ true
  find_by-exists_other p q [] h k = cc
  find_by-exists_other p q (x ∷ xs) {r} h k = elim (Bool-cases (p x)) [
    | inl e ↦ let hit : x ≡ r = ground arith in rw (hit, k)
    | inr e ↦
        let rest = find_by-exists_other p q xs {r = r} (rw (e, find_by) at h) k in
        elim (Bool-cases (q x)) [ inl t ↦ rw t | inr t ↦ rw (t, rest) ]
  ]

  -- A row that passes a test after an update passed it before, if the updated row did.
  pub exists_by-update_first_before :
      (q p : A → Bool) (f : A → A) (l : List A) {l' : List A}
      → update_first p f l ≡ some l'
      → ((r : A) → p r ≡ true → q (f r) ≡ true → q r ≡ true)
      → exists_by q l' ≡ true
      → exists_by q l ≡ true
  exists_by-update_first_before q p f [] upd h c = absurd (cc)
  exists_by-update_first_before q p f (x ∷ xs) {l'} upd h c = elim (Bool-cases (p x)) [
    | inl e ↦
        let hit : f x ∷ xs ≡ l' = ground arith in
        in_head (q (f x)) (q x) (exists_by q xs) (h x e)
          (subst (λ l. exists_by q l ≡ true) (sym hit) c)
    | inr e ↦
        let (t, et, el) =
          map_cons-some x (update_first p f xs) {l' = l'} (rw (e, update_first) at upd) in
        in_tail (q x) (exists_by q t) (exists_by q xs) (exists_by-update_first_before q p f xs et h)
          (rw el at c)
  ]
    where
      in_head : (b b' r : Bool) → (b ≡ true → b' ≡ true) → (b || r) ≡ true → (b' || r) ≡ true
      in_head true b' r k z = rw (k refl) refl
      in_head false b' r k z = rw z (or_true b')

      in_tail : (b r r' : Bool) → (r ≡ true → r' ≡ true) → (b || r) ≡ true → (b || r') ≡ true
      in_tail true r r' k z = refl
      in_tail false r r' k z = k z

  pub exists_by-update_first :
      (q p : A → Bool) (f : A → A) (l : List A) {l' : List A}
      → update_first p f l ≡ some l'
      → ((r : A) → q (f r) ≡ q r)
      → exists_by q l' ≡ exists_by q l
  exists_by-update_first q p f [] h same = absurd (cc)
  exists_by-update_first q p f (x ∷ xs) {l'} h same = elim (Bool-cases (p x)) [
    | inl e ↦ let hit : f x ∷ xs ≡ l' = ground arith in rw (← hit, same x)
    | inr e ↦
        let (t, et, el) =
          map_cons-some x (update_first p f xs) {l' = l'} (rw (e, update_first) at h) in
        rw (el, exists_by-update_first q p f xs et same)
  ]

module _ {ℓ} {A : Type ℓ} where
  -- A sum does not depend on the order of the rows.
  pub sum_of-permᴰ : (w : A → ℤ) {xs ys : List A} → Permᴰ xs ys → sum_of w xs ≡ sum_of w ys
  sum_of-permᴰ w Permᴰ.nil = refl
  sum_of-permᴰ w (Permᴰ.cons e d) = ap₂ ◌+ℤ◌ (ap w e) (sum_of-permᴰ w d)
  sum_of-permᴰ w (Permᴰ.swap {a = a} {b = b} {l = l} e₁ e₂) =
      +ℤ_swap (w a) (w b) (sum_of w l) ∙ ap₂ (λ x y. w x +ℤ (w y +ℤ sum_of w l)) e₂ e₁
  sum_of-permᴰ w (Permᴰ.trans d₁ d₂) = sum_of-permᴰ w d₁ ∙ sum_of-permᴰ w d₂

  -- The sum over the rows that a test keeps.
  pub sum_of-keep :
      (w : A → ℤ) (p : A → Bool) (l : List A)
      → sum_of w (keep p l) ≡ sum_of (λ x. if p x then w x else pos 0) l
  sum_of-keep w p [] = refl
  sum_of-keep w p (x ∷ xs) = elim (Bool-cases (p x)) [
    | inl e ↦ rw e (ap (◌+ℤ◌ (w x)) (sum_of-keep w p xs))
    | inr e ↦ rw e (sum_of-keep w p xs ∙ sym (zero-+ℤ _))
  ]

module _ {ℓ} {A : Type ℓ} (same : A → A → Bool) (same_refl : (a : A) → same a a ≡ true)
    (same_symm : (a b : A) → same a b ≡ same b a) where
  -- Every row of a table with a key is found by that key.
  pub find_by-Distinct :
      (l : List A) → Distinct same l → All (λ c. find_by (λ r. same r c) l ≡ some c) l
  find_by-Distinct [] h = tt
  find_by-Distinct (x ∷ xs) h = (rw (same_refl x), later xs h.0 (find_by-Distinct xs h.1))
    where
      later :
          (ys : List A)
          → All (λ y. same y x ≡ false) ys
          → All (λ c. find_by (λ r. same r c) xs ≡ some c) ys
          → All (λ c. find_by (λ r. same r c) (x ∷ xs) ≡ some c) ys
      later [] a b = tt
      later (y ∷ ys) a b = (rw (same_symm x y, a.0) b.0, later ys a.1 b.1)

  -- An update that leaves the key alone keeps the keys apart.
  pub Distinct-update_first :
      (p : A → Bool) (f : A → A) (l : List A) {l' : List A}
      → update_first p f l ≡ some l'
      → ((a b : A) → same a (f b) ≡ same a b)
      → Distinct same l
      → Distinct same l'
  Distinct-update_first p f [] h key d = absurd (cc)
  Distinct-update_first p f (x ∷ xs) {l'} h key d = elim (Bool-cases (p x)) [
    | inl e ↦
        let hit : f x ∷ xs ≡ l' = ground arith in
        rw (← hit) (
          All-map (λ y. same y x ≡ false) (λ y. same y (f x) ≡ false) (λ y n. rw (key y x) n) xs
              d.0,
          d.1,
        )
    | inr e ↦
        let (t, et, el) =
          map_cons-some x (update_first p f xs) {l' = l'} (rw (e, update_first) at h) in
        rw el (
          All-update_first (λ y. same y x ≡ false) p f xs et
              (λ r _ n. rw (same_symm (f r) x, key x r, same_symm x r) n) d.0,
          Distinct-update_first p f xs et key d.1,
        )
  ]
