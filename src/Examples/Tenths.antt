-- ===== src/Examples/Tenths.antt =====
-- A rounding to tenths of a number of thousandths.
use warehousehub.Base.{
  ℕ, zero, suc, ◌≡◌, refl, ◌+◌, ◌*◌, ◌/◌, ℤ, pos, negsuc, pos_part, neg_part, ◌-ℤ◌, ◌+ℤ◌, ◌≤ℤ◌,
  -ℤ_parts, +ℤ_parts, arith,
}
use warehousehub.Stocks.{IsToTenths}

abbrev nearest : ℕ → ℕ
nearest n = ((n + 50) / 100) * 100

abbrev minus : ℕ → ℤ
minus zero = pos 0
minus (suc n) = negsuc n

abbrev pub to_tenths : ℤ → ℤ
to_tenths (pos n) = pos (nearest n)
to_tenths (negsuc n) = minus (nearest (suc n))

pos_part-minus : (n : ℕ) → (pos_part (minus n) ≡ 0) × (neg_part (minus n) ≡ n)
pos_part-minus zero = (refl, refl)
pos_part-minus (suc n) = (refl, refl)

near : (x : ℤ) → (to_tenths x ≤ℤ x +ℤ pos 50) × (x ≤ℤ to_tenths x +ℤ pos 50)
near (pos n) =
    let parts = +ℤ_parts (pos n) (pos 50) in
    let parts' = +ℤ_parts (pos (nearest n)) (pos 50) in (omega arith, omega arith)
near (negsuc n) =
    let (p, q) = pos_part-minus (nearest (suc n)) in
    let parts = +ℤ_parts (negsuc n) (pos 50) in
    let parts' = +ℤ_parts (minus (nearest (suc n))) (pos 50) in (omega arith, omega arith)

whole : (z : ℤ) (m n : ℕ) → pos_part z + m * 100 ≡ neg_part z + n * 100 → to_tenths z ≡ z
whole (pos k) m n h = let e : nearest k ≡ k = omega arith in rw e refl
whole (negsuc k) m n h = let e : nearest (suc k) ≡ suc k = omega arith in rw e refl

tenths_of :
    (x : ℤ)
    → (m : ℕ) × (n : ℕ) × (pos_part (to_tenths x) ≡ m * 100) × (neg_part (to_tenths x) ≡ n * 100)
tenths_of (pos k) = ((k + 50) / 100, 0, refl, refl)
tenths_of (negsuc k) =
    let (p, n) = pos_part-minus (nearest (suc k)) in (0, (suc k + 50) / 100, p, n)

pub to_tenths-IsToTenths : IsToTenths to_tenths
to_tenths-IsToTenths = record {
  near_below = λ x. (near x).0;
  near_above = λ x. (near x).1;
  exact = λ x y.
      let (m, n, a, b) = tenths_of x in
      let (m', n', a', b') = tenths_of y in
      whole (to_tenths x -ℤ to_tenths y) (n + m') (m + n')
        let parts = -ℤ_parts (to_tenths x) (to_tenths y) in omega arith;
}
