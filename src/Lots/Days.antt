-- ===== src/Lots/Days.antt =====
-- The days by which the lots of an inbound upload are looked up.
use warehousehub.Base.{ℕ, ◌≡◌, ◌+◌, ◌-◌, ◌*◌, ◌/◌, ◌%◌, ◌≤◌, ◌<◌, some, ◌==◌, ◌&&◌, leb, ltb, arith}
use warehousehub.Lots.{normalize_to_utc_day, add_utc_days, expires_within}

within :
    (x y m n : ℕ)
    → m * 86400000 ≤ x
    → x < m * 86400000 + 86400000
    → n * 86400000 ≤ y
    → y < n * 86400000 + 86400000
    → (leb (n * 86400000) x && ltb x (n * 86400000 + 86400000)) ≡ (m * 86400000 == n * 86400000)
within x y m n h h' k k' = ground arith

day_number : (t : ℕ) → t - t % 86400000 ≡ (t / 86400000) * 86400000
day_number t = omega arith

-- A lot's expiry date falls into the window of an uploaded date exactly if both are on the same UTC day.
pub expires_within_day :
    (expiry uploaded : ℕ)
    → expires_within
        (normalize_to_utc_day uploaded)
        (add_utc_days (normalize_to_utc_day uploaded) 1)
        (some expiry)
      ≡ (normalize_to_utc_day expiry == normalize_to_utc_day uploaded)
unfolding normalize_to_utc_day add_utc_days
expires_within_day expiry uploaded =
    let d = expiry / 86400000 in
    let u = uploaded / 86400000 in
    rw (day_number expiry, day_number uploaded)
      (within expiry uploaded d u (omega arith) (omega arith) (omega arith) (omega arith))

-- The day of an instant starts at most a day before it, on a multiple of a day.
pub normalize_to_utc_day_bounds :
    (t : ℕ)
    → (normalize_to_utc_day t ≤ t)
      × (t < add_utc_days (normalize_to_utc_day t) 1)
      × (normalize_to_utc_day t % 86400000 ≡ 0)
unfolding normalize_to_utc_day add_utc_days
normalize_to_utc_day_bounds t = (omega arith, omega arith, omega arith)
