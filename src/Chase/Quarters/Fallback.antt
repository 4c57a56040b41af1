-- ===== src/Chase/Quarters/Fallback.antt =====
-- Which quarter is chased on which day of the year.
use mtd_backend.Common.{
  ℕ, ◌+◌, ◌-◌, ◌≤◌, ◌<◌, Bool, false, ◌&&◌, ◌||◌, ◌==◌, ltb, leb, if◌then◌else◌, ◌≡◌, ◌∙◌, refl,
  sym, ap, arith, Bool-cases, inl, inr,
}
use mtd_backend.Chase.Calendar.{
  Date, IsDate, is_leap, month_start, leap_days, year_start, day_number, month_length,
}
use mtd_backend.Chase.Quarters.{
  q1, q2, QuarterInfo, quarter_info, tax_year_quarters, chase_tax_year, current_chase_quarter,
}
use mtd_backend.Chase.Quarters.Choice.{
  chosen, chosen-q1_overdue, chosen-q2_overdue, chosen-q1_early,
}
use mtd_backend.Chase.Quarters.Days.{spring, winter, year_start-next, year_days, next_year_days}

-- From 4 February to 31 March.
abbrev pub is_late_winter : Date → Bool
is_late_winter d = d.month == 2 || (d.month == 1 && leb 4 d.day)

chosen_on : ℕ → ℕ → QuarterInfo → QuarterInfo
chosen_on t y fallback =
    chosen t y (day_number y 3 6) (day_number y 6 5) (day_number y 7 7) (day_number y 6 6)
      (day_number y 9 5) (day_number y 10 7) (day_number y 9 6) (day_number (y + 1) 0 5)
      (day_number (y + 1) 1 7) (day_number (y + 1) 0 6) (day_number (y + 1) 3 5)
      (day_number (y + 1) 4 7) fallback

module _ (t y : ℕ) (fallback : QuarterInfo) where
  -- From 1 April on, up to the end of the year and beyond, until 3 February.
  chosen_on-q1 :
      t ≤ year_start y + 399 + leap_days (is_leap y) 2
      → ((chosen_on t y fallback).quarter ≡ q1) × ((chosen_on t y fallback).tax_year ≡ y)
  unfolding chosen_on quarter_info
  chosen_on-q1 early =
      let (e1, d1, e2, d2) = year_days y in
      let (e3, d3, e4, d4, last) = next_year_days y in
      elim (Bool-cases (leb t (day_number y 7 7))) [
        | inl open_still ↦
            let same : chosen_on t y fallback
                ≡ quarter_info t q1 y (day_number y 3 6) (day_number y 6 5) (day_number y 7 7) =
              chosen-q1_early t y _ _ _ _ _ _ _ _ _ _ _ _ fallback (ground arith) (omega arith)
                (omega arith) (omega arith) (omega arith) (omega arith) (omega arith)
                (omega arith) in
            rw same (refl, refl)
        | inr passed ↦
            let same : chosen_on t y fallback
                ≡ quarter_info t q1 y (day_number y 3 6) (day_number y 6 5) (day_number y 7 7) =
              chosen-q1_overdue t y _ _ _ _ _ _ _ _ _ _ _ _ fallback (ground arith) (omega arith)
                (omega arith) (omega arith) (omega arith) in
            rw same (refl, refl)
      ]

  -- From 4 February to 31 March.
  chosen_on-q2 :
      year_start y + 399 + leap_days (is_leap y) 2 < t
      → t ≤ year_start y + 456 + leap_days (is_leap y) 2
      → ((chosen_on t y fallback).quarter ≡ q2) × ((chosen_on t y fallback).tax_year ≡ y)
  unfolding chosen_on quarter_info
  chosen_on-q2 old late =
      let (e1, d1, e2, d2) = year_days y in
      let (e3, d3, e4, d4, last) = next_year_days y in
      let same : chosen_on t y fallback
          ≡ quarter_info t q2 y (day_number y 6 6) (day_number y 9 5) (day_number y 10 7) =
        chosen-q2_overdue t y _ _ _ _ _ _ _ _ _ _ _ _ fallback (omega arith) (omega arith)
          (omega arith) (omega arith) (omega arith) in
      rw same (refl, refl)

current-chosen_on :
    (d : Date)
    → current_chase_quarter d
      ≡ chosen_on (day_number d.year d.month d.day) (chase_tax_year d) (
          quarter_info
            (day_number d.year d.month d.day)
            q1
            (chase_tax_year d + 1)
            (day_number (chase_tax_year d + 1) 3 6)
            (day_number (chase_tax_year d + 1) 6 5)
            (day_number (chase_tax_year d + 1) 7 7))
unfolding current_chase_quarter tax_year_quarters chosen_on chosen
current-chosen_on d = refl

-- Today, in the days of the tax year.
today_later :
    (d : Date)
    → IsDate d
    → 3 ≤ d.month
    → day_number d.year d.month d.day ≤ year_start d.year + 399 + leap_days (is_leap d.year) 2
unfolding day_number leap_days
today_later d date later =
    let days = spring (is_leap d.year) d.month d.day date.month date.first date.last later in
    ground arith

today_early :
    (d : Date)
    → IsDate d
    → d.month < 3
    → (is_late_winter d ≡ ltb 34 (month_start d.month + leap_days (is_leap d.year) d.month + d.day))
      × (day_number d.year d.month d.day
          ≡ year_start (d.year - 1)
            + 365
            + leap_days (is_leap (d.year - 1)) 2
            + (month_start d.month + leap_days (is_leap d.year) d.month + d.day))
unfolding day_number month_start leap_days month_length
today_early d date early =
    let first = date.first in
    let last = date.last in
    let year = date.year in
    let back : d.year - 1 + 1 ≡ d.year = omega arith in
    let start : year_start d.year
        ≡ year_start (d.year - 1) + 365 + leap_days (is_leap (d.year - 1)) 2 =
      ap year_start (sym back) ∙ year_start-next (d.year - 1) in
    (ground arith, omega arith)

-- The calendar fallback never names the third or the fourth quarter: on every day from 4 February
-- to 31 March it is the second quarter of the tax year, which was due on 7 November, and on every
-- other day of the year it is the first, the tax year being taken to begin on 1 April.
pub current_chase_quarter-quarter :
    (d : Date)
    → IsDate d
    → ((current_chase_quarter d).quarter ≡ (if is_late_winter d then q2 else q1))
      × ((current_chase_quarter d).tax_year ≡ chase_tax_year d)
current_chase_quarter-quarter d date = elim (Bool-cases (leb 3 d.month)) [
  | inl later ↦
      let year : chase_tax_year d ≡ d.year = rw later refl in
      let spring_on : is_late_winter d ≡ false = ground arith in
      rw (current-chosen_on d, year, spring_on)
        (chosen_on-q1 _ d.year _ (today_later d date (ground arith)))
  | inr early ↦
      let year : chase_tax_year d ≡ d.year - 1 = rw early refl in
      let (late, today) = today_early d date (ground arith) in
      let days = winter (is_leap d.year) d.month d.day date.first date.last (ground arith) in
      elim (Bool-cases (is_late_winter d)) [
        | inl is_late ↦
            let day : 34 < month_start d.month + leap_days (is_leap d.year) d.month + d.day =
              ground arith in
            rw (current-chosen_on d, year, is_late)
              (chosen_on-q2 _ (d.year - 1) _ (omega arith) (omega arith))
        | inr is_early ↦
            let day : month_start d.month + leap_days (is_leap d.year) d.month + d.day ≤ 34 =
              ground arith in
            rw (current-chosen_on d, year, is_early) (chosen_on-q1 _ (d.year - 1) _ (omega arith))
      ]
]
