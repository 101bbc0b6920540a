-- ===== src/Transfers/Rows.antt =====
-- `updateMany` by the unique key of the stock rows changes at most one row.
use warehousehub.Base.{
  ◌≡◌, refl, ◌∙◌, Bool, true, false, ℤ, ◌+ℤ◌, int_laws, none, some, List, [], ◌∷◌, arith, All,
  All-map, Distinct, sum_of, find_by, exists_by, update_many, Bool-cases, inl, inr, if◌then◌else◌,
}
use warehousehub.Db.{Stock, StockKey, has_key}
use warehousehub.Ledger.{same_stock, same_key}
use warehousehub.Ledger.Steps.{KeepsIdentity}

-- Identifiers and keys of the stock rows are unique, as the schema demands.
pub record IsShelved (stocks : List Stock) : Type 0 where
  pub ids : Distinct same_stock stocks
  pub keys : Distinct same_key stocks

-- `updateMany` on a unique key.
module _ (p : Stock → Bool) (f : Stock → Stock) where
  abbrev pub touch : Stock → Stock
  touch r = if p r then f r else r

  pub touch-KeepsIdentity : KeepsIdentity f → KeepsIdentity touch
  touch-KeepsIdentity same r = elim (Bool-cases (p r)) [
    | inl e ↦ rw e (same r)
    | inr e ↦ rw e (refl, refl, refl, refl)
  ]

  none_hit-update_many : (l : List Stock) → All (λ r. p r ≡ false) l → update_many p f l ≡ l
  none_hit-update_many [] h = refl
  none_hit-update_many (r ∷ l) h = rw (h.0, none_hit-update_many l h.1) refl

  pub exists_by-update_many :
      (q : Stock → Bool) (l : List Stock)
      → ((r : Stock) → q (f r) ≡ q r)
      → exists_by q (update_many p f l) ≡ exists_by q l
  exists_by-update_many q [] same = refl
  exists_by-update_many q (r ∷ l) same = elim (Bool-cases (p r)) [
    | inl e ↦ rw (e, same r, exists_by-update_many q l same) refl
    | inr e ↦ rw (e, exists_by-update_many q l same) refl
  ]

  All-update_many :
      (same : Stock → Stock → Bool) (x : Stock) (l : List Stock)
      → ((a b : Stock) → same (touch a) (touch b) ≡ same a b)
      → All (λ y. same y x ≡ false) l
      → All (λ y. same y (touch x) ≡ false) (update_many p f l)
  All-update_many same x [] keeps h = tt
  All-update_many same x (y ∷ l) keeps h = (keeps y x ∙ h.0, All-update_many same x l keeps h.1)

  pub Distinct-update_many :
      (same : Stock → Stock → Bool) (l : List Stock)
      → ((a b : Stock) → same (touch a) (touch b) ≡ same a b)
      → Distinct same l
      → Distinct same (update_many p f l)
  Distinct-update_many same [] keeps h = tt
  Distinct-update_many same (x ∷ l) keeps h =
      (All-update_many same x l keeps h.0, Distinct-update_many same l keeps h.1)

same_key_of :
    (k : StockKey) (x y : Stock) → has_key k x ≡ true → same_key y x ≡ false → has_key k y ≡ false
same_key_of k x y h e = ground arith

swap_middle : (x y z u : ℤ) → x +ℤ y +ℤ z ≡ u → x +ℤ z +ℤ y ≡ u
swap_middle x y z u e = grind int_laws

more_front : (a s t w u : ℤ) → s +ℤ w ≡ t +ℤ u → (a +ℤ s) +ℤ w ≡ (a +ℤ t) +ℤ u
more_front a s t w u e = grind int_laws

exchange : (a b s : ℤ) → (b +ℤ s) +ℤ a ≡ (a +ℤ s) +ℤ b
exchange a b s = grind int_laws

-- On unique keys `updateMany` changes a sum by the change of the one row that it hits.
pub sum_of-update_many :
    (w : Stock → ℤ) (k : StockKey) (f : Stock → Stock) (l : List Stock) {r : Stock}
    → Distinct same_key l
    → find_by (has_key k) l ≡ some r
    → sum_of w (update_many (has_key k) f l) +ℤ w r ≡ sum_of w l +ℤ w (f r)
sum_of-update_many w k f [] d found = absurd (nothing-found found)
  where
    nothing-found : {r : Stock} → none ≡ some r → ⊥
    nothing-found e = ground arith
sum_of-update_many w k f (x ∷ l) {r} d found = elim (Bool-cases (has_key k x)) [
  | inl e ↦
      let is_x : r ≡ x = ground arith in
      rw
        (
          e,
          is_x,
          none_hit-update_many (has_key k) f l (
              All-map (λ y. same_key y x ≡ false) (λ y. has_key k y ≡ false)
                (λ y h. same_key_of k x y e h) l d.0),
        )
        (exchange (w x) (w (f x)) (sum_of w l))
  | inr e ↦ rw e (
      more_front (w x) (sum_of w (update_many (has_key k) f l)) (sum_of w l) (w r) (w (f r))
        (sum_of-update_many w k f l d.1 (ground arith)))
]
