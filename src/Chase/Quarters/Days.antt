-- ===== src/Chase/Quarters/Days.antt =====
-- The days of a tax year.
use mtd_backend.Common.{ℕ, suc, ◌+◌, ◌≤◌, ◌<◌, Bool, ◌≡◌, arith, Bool-cases, inl, inr}
use mtd_backend.Chase.Calendar.{
  is_leap, month_start, leap_days, year_start, day_number, month_length,
}

-- Days from 1 April on.
pub spring :
    (leap : Bool) (m d : ℕ)
    → m < 12
    → 1 ≤ d
    → d ≤ month_length leap m
    → 3 ≤ m
    → (90 < month_start m + d) × (month_start m + d ≤ 365)
unfolding month_start month_length
spring leap m d a b c e = ground arith

pub winter :
    (leap : Bool) (m d : ℕ)
    → 1 ≤ d
    → d ≤ month_length leap m
    → m < 3
    → month_start m + leap_days leap m + d ≤ 91
unfolding month_start month_length leap_days
winter leap m d b c e = ground arith

-- The length of a year.
pub year_start-next : (y : ℕ) → year_start (y + 1) ≡ year_start y + 365 + leap_days (is_leap y) 2
unfolding leap_days year_start
year_start-next y =
    let next : y + 1 ≡ suc y = omega arith in
    elim (Bool-cases (is_leap y)) [
      | inl leap ↦ rw (next, leap) (omega arith)
      | inr common ↦ rw (next, common) (omega arith)
    ]

-- The days of the quarters, from 1 January on.
pub year_days :
    (y : ℕ)
    → (day_number y 6 5 ≡ year_start y + 186 + leap_days (is_leap y) 2)
      × (day_number y 7 7 ≡ year_start y + 219 + leap_days (is_leap y) 2)
      × (day_number y 9 5 ≡ year_start y + 278 + leap_days (is_leap y) 2)
      × (day_number y 10 7 ≡ year_start y + 311 + leap_days (is_leap y) 2)
unfolding day_number month_start leap_days
year_days y = (omega arith, omega arith, omega arith, omega arith)

pub next_year_days :
    (y : ℕ)
    → (day_number (y + 1) 0 5 ≡ year_start y + 370 + leap_days (is_leap y) 2)
      × (day_number (y + 1) 1 7 ≡ year_start y + 403 + leap_days (is_leap y) 2)
      × (year_start y + 455 + leap_days (is_leap y) 2 < day_number (y + 1) 3 5)
      × (year_start y + 485 + leap_days (is_leap y) 2 < day_number (y + 1) 4 7)
      × (day_number (y + 1) 3 5 < day_number (y + 1) 4 7)
unfolding day_number month_start leap_days
next_year_days y = ground (arith, year_start-next y)

pub period_days :
    (y : ℕ)
    → (day_number y 3 6 ≡ year_start y + 96 + leap_days (is_leap y) 2)
      × (day_number y 6 6 ≡ year_start y + 187 + leap_days (is_leap y) 2)
      × (day_number y 9 6 ≡ year_start y + 279 + leap_days (is_leap y) 2)
      × (day_number (y + 1) 0 6 ≡ year_start y + 371 + leap_days (is_leap y) 2)
unfolding day_number month_start leap_days
period_days y =
    let next = year_start-next y in (omega arith, omega arith, omega arith, ground arith)
