-- ===== src/Picking/Reserve/InEighths.antt =====
-- Stock rows whose quantities a double holds exactly, and the sums that are formed from them.
use warehousehub.Base.{
  ℤ, pos, pos_part, ◌-ℤ◌, List, [], ◌∷◌, All, sum_of, IsEighths, IsEighths-zero, IsEighths-plus,
  IsEighths-minus, IsEighths-positive,
}
use warehousehub.Db.{Stock}
use warehousehub.Picking.Reserve.{available}

abbrev pub AreEighths : List Stock → Type 0
AreEighths l = All (λ r. IsEighths r.on_hand × IsEighths r.reserved) l

pub available-IsEighths :
    (c : Stock) → IsEighths c.on_hand × IsEighths c.reserved → IsEighths (available c)
available-IsEighths c h = IsEighths-minus h.0 h.1

pub sum_of-IsEighths :
    (cs : List Stock) → AreEighths cs → IsEighths (sum_of (λ c. pos (pos_part (available c))) cs)
sum_of-IsEighths [] h = IsEighths-zero
sum_of-IsEighths (c ∷ cs) h =
    IsEighths-plus (IsEighths-positive (available-IsEighths c h.0)) (sum_of-IsEighths cs h.1)

-- What a total does not cover of a quantity.
pub rest-IsEighths :
    (wanted total : ℤ)
    → IsEighths wanted
    → IsEighths total
    → IsEighths (pos (pos_part (wanted -ℤ total)))
rest-IsEighths wanted total h k = IsEighths-positive (IsEighths-minus h k)
