-- ===== src/Notices/Items.antt =====
-- The test of a notice for items that are missing.
use warehousehub.Base.{
  ℕ, suc, ◌≡◌, subst, Bool, true, false, List, [], ◌∷◌, ◌==◌, ◌&&◌, ◌||◌, arith, not, keep, map,
  unique, contains, All, exists_by, length, ltb, Bool-cases, inl, inr, if◌then◌else◌,
}
use warehousehub.Db.{Item}

-- An active item of the company.
abbrev pub is_active_item : ℕ → ℕ → Item → Bool
is_active_item company id i = (i.id == id) && (i.company == company) && i.is_active

pub All-of_none :
    (p : ℕ → Bool) (l : List ℕ)
    → (ltb 0 (length (keep (λ x. not (p x)) l))) ≡ false
    → All (λ x. p x ≡ true) l
All-of_none p [] h = tt
All-of_none p (x ∷ l) h = elim (Bool-cases (p x)) [
  | inl e ↦ (
    e,
    All-of_none p l (
        subst
          (λ b.
            ltb 0 (length (if not b then x ∷ keep (λ x. not (p x)) l else keep (λ x. not (p x)) l))
            ≡ false)
          e h),
  )
  | inr e ↦ absurd (
      not_none (length (keep (λ x. not (p x)) l)) (
        subst
          (λ b.
            ltb 0 (length (if not b then x ∷ keep (λ x. not (p x)) l else keep (λ x. not (p x)) l))
            ≡ false)
          e h))
]
  where
    not_none : (n : ℕ) → ltb 0 (suc n) ≡ false → ⊥
    not_none n h = ground arith

contains-All : (P : ℕ → Type 0) (x : ℕ) (l : List ℕ) → contains x l ≡ true → All P l → P x
contains-All P x [] h a = absurd (no_member h)
  where
    no_member : false ≡ true → ⊥
    no_member e = ground arith
contains-All P x (y ∷ l) h a = elim (Bool-cases (x == y)) [
  | inl e ↦ subst P (same_number y x e) a.0
  | inr e ↦ contains-All P x l (subst (λ b. (b || contains x l) ≡ true) e h) a.1
]
  where
    same_number : (y x : ℕ) → (x == y) ≡ true → y ≡ x
    same_number y x e = ground arith

pub All-unique : (P : ℕ → Type 0) (l : List ℕ) → All P (unique l) → All P l
All-unique P [] h = tt
All-unique P (x ∷ l) h = elim (Bool-cases (contains x (unique l))) [
  | inl e ↦
      let rest : All P (unique l) = subst (λ b. All P (if b then unique l else x ∷ unique l)) e h in
      (contains-All P x (unique l) e rest, All-unique P l rest)
  | inr e ↦
      let both : All P (x ∷ unique l) =
        subst (λ b. All P (if b then unique l else x ∷ unique l)) e h in
      (both.0, All-unique P l both.1)
]

abbrev hits : ℕ → List ℕ → List Item → List Item
hits company ids items =
    keep (λ (i : Item). contains i.id ids && (i.company == company) && i.is_active) items

pub found-exists :
    (company : ℕ) (ids : List ℕ) (x : ℕ) (items : List Item)
    → contains x (
        map
          (λ (i : Item). i.id)
          (keep (λ (i : Item). contains i.id ids && (i.company == company) && i.is_active) items))
      ≡ true
    → exists_by (is_active_item company x) items ≡ true
found-exists company ids x [] h = ground arith
found-exists company ids x (i ∷ items) h =
    elim (Bool-cases (contains i.id ids && (i.company == company) && i.is_active)) [
      | inl e ↦ here e (reduced true e) (found-exists company ids x items)
      | inr e ↦ later (found-exists company ids x items (reduced false e))
    ]
  where
    reduced :
        (b : Bool)
        → (contains i.id ids && (i.company == company) && i.is_active) ≡ b
        → contains x (
            map
              (λ (j : Item). j.id)
              (if b then i ∷ hits company ids items else hits company ids items))
          ≡ true
    reduced b e =
        subst
          (λ c.
            contains x (
              map (λ (j : Item). j.id)
                (if c then i ∷ hits company ids items else hits company ids items))
            ≡ true)
          e h

    here :
        (contains i.id ids && (i.company == company) && i.is_active) ≡ true
        → ((x == i.id) || contains x (map (λ (j : Item). j.id) (hits company ids items))) ≡ true
        → (contains x (map (λ (j : Item). j.id) (hits company ids items)) ≡ true
            → exists_by (is_active_item company x) items ≡ true)
        → (is_active_item company x i || exists_by (is_active_item company x) items) ≡ true
    here e k more = ground (arith, more)

    later :
        exists_by (is_active_item company x) items ≡ true
        → (is_active_item company x i || exists_by (is_active_item company x) items) ≡ true
    later k = ground arith
