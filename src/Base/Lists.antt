-- ===== src/Base/Lists.antt =====
-- Lists measured by native numbers, and predicates on lists by recursion.
use Prim.Native.Nat.{ℕ, suc}
use mathlib.Core.Path.{◌≡◌, subst}
use mathlib.Core.Logic.{inl, inr}
use mathlib.Core.Bool.{Bool, true, false, ◌||◌}
use mathlib.Core.List.{List, [], ◌∷◌, ◌++◌, Permᴰ}
use mathlib.Core.List.Permᴰ.{nil, cons, swap, trans}
use warehousehub.Base.Tests.{◌==◌, if◌then◌else◌, Bool-cases}

abbrev pub All {ℓ κ} : {A : Type ℓ} → (A → Type κ) → List A → Type κ
All P [] = Unit
All P (x ∷ xs) = P x × All P xs

-- No two entries are the same by the given test.
abbrev pub Distinct {ℓ} : {A : Type ℓ} → (A → A → Bool) → List A → Type 0
Distinct same [] = Unit
Distinct same (x ∷ xs) = All (λ y. same y x ≡ false) xs × Distinct same xs

-- `includes`
abbrev pub contains : ℕ → List ℕ → Bool
contains a [] = false
contains a (x ∷ xs) = (a == x) || contains a xs

-- `Array.from(new Set(xs))`
abbrev pub unique : List ℕ → List ℕ
unique [] = []
unique (x ∷ xs) = let rest = unique xs in if contains x rest then rest else x ∷ rest

module _ {ℓ} {A : Type ℓ} where
  abbrev pub length : List A → ℕ
  length [] = 0
  length (x ∷ xs) = suc (length xs)

  -- `xs.filter(p)`
  abbrev pub keep : (A → Bool) → List A → List A
  keep p [] = []
  keep p (x ∷ xs) = if p x then x ∷ keep p xs else keep p xs

module _ {ℓ κ} {A : Type ℓ} where
  pub All-append : (P : A → Type κ) (xs ys : List A) → All P xs → All P ys → All P (xs ++ ys)
  All-append P [] ys hx hy = hy
  All-append P (x ∷ xs) ys hx hy = (hx.0, All-append P xs ys hx.1 hy)

module _ {ℓ κ μ} {A : Type ℓ} where
  pub All-map :
      (P : A → Type κ) (Q : A → Type μ)
      → ((x : A) → P x → Q x)
      → (xs : List A) → All P xs
      → All Q xs
  All-map P Q f [] h = tt
  All-map P Q f (x ∷ xs) h = (f x h.0, All-map P Q f xs h.1)

module _ {ℓ κ} {A : Type ℓ} where
  pub All-keep : (P : A → Type κ) (p : A → Bool) (xs : List A) → All P xs → All P (keep p xs)
  All-keep P p [] h = tt
  All-keep P p (x ∷ xs) h = elim (Bool-cases (p x)) [
    | inl e ↦ rw e (h.0, All-keep P p xs h.1)
    | inr e ↦ rw e (All-keep P p xs h.1)
  ]

  pub All-permᴰ : (P : A → Type κ) {xs ys : List A} → Permᴰ xs ys → All P xs → All P ys
  All-permᴰ P nil h = tt
  All-permᴰ P (cons e d) h = (subst P e h.0, All-permᴰ P d h.1)
  All-permᴰ P (swap e₁ e₂) h = (subst P e₂ h.1.0, (subst P e₁ h.0, h.1.1))
  All-permᴰ P (trans d₁ d₂) h = All-permᴰ P d₂ (All-permᴰ P d₁ h)

module _ {ℓ} {A : Type ℓ} where
  -- What is kept passes the test.
  pub All-keep_test : (p : A → Bool) (xs : List A) → All (λ x. p x ≡ true) (keep p xs)
  All-keep_test p [] = tt
  All-keep_test p (x ∷ xs) = elim (Bool-cases (p x)) [
    | inl e ↦ rw e (e, All-keep_test p xs)
    | inr e ↦ rw e (All-keep_test p xs)
  ]

  pub Distinct-keep :
      (same : A → A → Bool) (p : A → Bool) (xs : List A)
      → Distinct same xs
      → Distinct same (keep p xs)
  Distinct-keep same p [] h = tt
  Distinct-keep same p (x ∷ xs) h = elim (Bool-cases (p x)) [
    | inl e ↦ rw e (All-keep (λ y. same y x ≡ false) p xs h.0, Distinct-keep same p xs h.1)
    | inr e ↦ rw e (Distinct-keep same p xs h.1)
  ]

  pub Distinct-append :
      (same : A → A → Bool) (xs ys : List A)
      → Distinct same xs
      → Distinct same ys
      → All (λ x. All (λ y. same y x ≡ false) ys) xs
      → Distinct same (xs ++ ys)
  Distinct-append same [] ys hx hy cross = hy
  Distinct-append same (x ∷ xs) ys hx hy cross = (
    All-append (λ y. same y x ≡ false) xs ys hx.0 cross.0,
    Distinct-append same xs ys hx.1 hy cross.1,
  )

  pub Distinct-permᴰ :
      (same : A → A → Bool)
      → ((a b : A) → same a b ≡ same b a)
      → {xs ys : List A} → Permᴰ xs ys
      → Distinct same xs
      → Distinct same ys
  Distinct-permᴰ same symm nil h = tt
  Distinct-permᴰ same symm (cons {b = b} {l₂ = l₂} e d) h = (
    subst (λ c. All (λ y. same y c ≡ false) l₂) e (All-permᴰ (λ y. same y _ ≡ false) d h.0),
    Distinct-permᴰ same symm d h.1,
  )
  Distinct-permᴰ same symm (swap {a = a} {b = b} {a' = a'} {b' = b'} {l = l} e₁ e₂) h = (
    (rw (← e₁, ← e₂, symm a b) h.0.0, subst (λ c. All (λ y. same y c ≡ false) l) e₂ h.1.0),
    (subst (λ c. All (λ y. same y c ≡ false) l) e₁ h.0.1, h.1.1),
  )
  Distinct-permᴰ same symm (trans d₁ d₂) h =
      Distinct-permᴰ same symm d₂ (Distinct-permᴰ same symm d₁ h)
