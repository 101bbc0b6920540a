-- ===== src/Base/Eighths.antt =====
-- Quantities that are whole numbers of eighths of a unit (125 thousandths). A double holds them
-- exactly, and so it does their sums, differences and minima: JavaScript does not round them.
use Prim.Native.Nat.{ℕ, ◌+◌, ◌*◌}
use mathlib.Core.Path.{◌≡◌, refl}
use mathlib.Core.Logic.{inl, inr}
use warehousehub.Base.Tests.{Bool-cases}
use warehousehub.Base.Int.{ℤ, pos, negsuc, pos_part, neg_part, ◌+ℤ◌, ◌-ℤ◌, leb_ℤ, min_ℤ, int_laws}

pub record IsEighths (x : ℤ) : Type 0 where
  pub gain : ℕ
  pub loss : ℕ
  pub parts : pos_part x + loss * 125 ≡ neg_part x + gain * 125

pub IsEighths-zero : IsEighths (pos 0)
IsEighths-zero = record { gain = 0; loss = 0; parts = refl }

pub IsEighths-minus : {x y : ℤ} → IsEighths x → IsEighths y → IsEighths (x -ℤ y)
IsEighths-minus {x} {y} a b = record {
  gain = a.gain + b.loss;
  loss = a.loss + b.gain;
  parts = omega (int_laws, a.parts, b.parts);
}

pub IsEighths-plus : {x y : ℤ} → IsEighths x → IsEighths y → IsEighths (x +ℤ y)
IsEighths-plus {x} {y} a b = record {
  gain = a.gain + b.gain;
  loss = a.loss + b.loss;
  parts = omega (int_laws, a.parts, b.parts);
}

pub IsEighths-min : {x y : ℤ} → IsEighths x → IsEighths y → IsEighths (min_ℤ x y)
IsEighths-min {x} {y} a b = elim (Bool-cases (leb_ℤ x y)) [ inl le ↦ rw le a | inr gt ↦ rw gt b ]

-- What is left of a quantity if a debt counts as nothing.
pub IsEighths-positive : {x : ℤ} → IsEighths x → IsEighths (pos (pos_part x))
IsEighths-positive {x = pos n} a = a
IsEighths-positive {x = negsuc n} a = IsEighths-zero
