-- ===== src/Chase/Calendar.antt =====
-- What the code asks of JavaScript's `Date`, in days: the server's clock runs on UTC, so that the
-- days between two midnights are whole.
use mtd_backend.Common.{
  ℕ, zero, suc, ◌+◌, ◌-◌, ◌%◌, ◌≤◌, ◌<◌, Bool, true, false, ◌&&◌, ◌||◌, not, ◌==◌, ltb, leb,
  if◌then◌else◌, ◌≡◌, arith,
}

-- Whole numbers, the negative ones from -1 on.
pub data ℤ : Type 0 where
  pos negsuc : ℕ → ℤ

-- `a - b` on natural numbers.
unfoldable pub diff : ℕ → ℕ → ℤ
diff a b = if leb b a then pos (a - b) else negsuc (b - a - 1)

unfoldable pub lt_z : ℤ → ℤ → Bool
lt_z (pos a) (pos b) = ltb a b
lt_z (pos a) (negsuc b) = false
lt_z (negsuc a) (pos b) = true
lt_z (negsuc a) (negsuc b) = ltb b a

pub lt_z-diff : (n a b : ℕ) → lt_z (diff n a) (diff n b) ≡ ltb b a
unfolding lt_z diff
lt_z-diff n a b = ground arith

pub lt_z-pos : (n a k : ℕ) → lt_z (pos k) (diff n a) ≡ ltb (a + k) n
unfolding lt_z diff
lt_z-pos n a k = ground arith

pub lt_z-below : (n a : ℕ) → lt_z (diff n a) (pos 1) ≡ leb n a
unfolding lt_z diff
lt_z-below n a = ground arith

-- A day; months count from 0, days from 1.
pub record Date : Type 0 where
  pub year : ℕ
  pub month : ℕ
  pub day : ℕ

unfoldable pub is_leap : ℕ → Bool
is_leap y = (y % 4 == 0) && (not (y % 100 == 0) || (y % 400 == 0))

-- The days of a common year before a month.
unfoldable pub month_start : ℕ → ℕ
month_start m =
    if m == 0
    then 0
    else if m == 1
    then 31
    else if m == 2
    then 59
    else if m == 3
    then 90
    else if m == 4
    then 120
    else if m == 5
    then 151
    else if m == 6
    then 181
    else if m == 7
    then 212
    else if m == 8
    then 243
    else if m == 9
    then 273
    else if m == 10
    then 304
    else 334

unfoldable pub leap_days : Bool → ℕ → ℕ
leap_days leap m = if leap && ltb 1 m then 1 else 0

-- The days before 1 January of a year, counted from the year 0.
unfoldable pub year_start : ℕ → ℕ
year_start zero = 0
year_start (suc y) = year_start y + (if is_leap y then 366 else 365)

-- `new Date(year, month, day)`
unfoldable pub day_number : ℕ → ℕ → ℕ → ℕ
day_number y m d = year_start y + month_start m + leap_days (is_leap y) m + d

unfoldable pub month_length : Bool → ℕ → ℕ
month_length leap m =
    if m == 1
    then (if leap then 29 else 28)
    else if (m == 3) || (m == 5) || (m == 8) || (m == 10)
    then 30
    else 31

-- A day of the calendar, after the year 0.
pub record IsDate (d : Date) : Type 0 where
  pub year : 1 ≤ d.year
  pub month : d.month < 12
  pub first : 1 ≤ d.day
  pub last : d.day ≤ month_length (is_leap d.year) d.month
