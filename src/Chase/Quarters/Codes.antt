-- ===== src/Chase/Quarters/Codes.antt =====
-- The quarter of a date, by its month and day, is the quarter of the table that it falls into.
use mtd_backend.Common.{
  ℕ, ◌+◌, ◌-◌, ◌≤◌, Bool, true, false, ◌&&◌, ◌||◌, ◌==◌, ltb, leb, if◌then◌else◌, ◌≡◌, ◌∙◌, refl,
  sym, ap, arith, Option, none, some, find, Bool-cases, inl, inr,
}
use mtd_backend.Chase.Calendar.{
  Date, IsDate, is_leap, month_start, leap_days, year_start, day_number, month_length,
}
use mtd_backend.Chase.Quarters.{
  Quarter, q1, q2, q3, q4, QuarterInfo, quarter_info, tax_year_quarters, current_uk_tax_year_start,
  uk_quarter_code,
}
use mtd_backend.Chase.Quarters.Days.{year_start-next, period_days, year_days, next_year_days}

abbrev pub is_in : ℕ → QuarterInfo → Bool
is_in t q = leb q.period_start t && leb t q.period_end

abbrev pub quarter_of : Option QuarterInfo → Option Quarter
quarter_of none = none
quarter_of (some q) = some q.quarter

is_in_lem :
    (t u y s e d : ℕ) (q : Quarter) → is_in t (quarter_info u q y s e d) ≡ (leb s t && leb t e)
unfolding quarter_info
is_in_lem t u y s e d q = refl

-- The quarter of the day `x` of the tax year, counted from 1 January in a common year.
quarter_at : ℕ → Quarter
quarter_at x = if leb x 186 then q1 else if leb x 278 then q2 else if leb x 370 then q3 else q4

in_period :
    (t y x s e d : ℕ) (q : Quarter) (a b : ℕ)
    → t ≡ year_start y + leap_days (is_leap y) 2 + x
    → s ≡ year_start y + a + leap_days (is_leap y) 2
    → e ≡ year_start y + b + leap_days (is_leap y) 2
    → is_in t (quarter_info t q y s e d) ≡ (leb a x && leb x b)
in_period t y x s e d q a b today start end = is_in_lem t t y s e d q ∙ ground arith

quarter_of-table :
    (t y x : ℕ)
    → t ≡ year_start y + leap_days (is_leap y) 2 + x
    → 96 ≤ x
    → t ≤ day_number (y + 1) 3 5
    → quarter_of (find (is_in t) (tax_year_quarters t y)) ≡ some (quarter_at x)
unfolding find tax_year_quarters quarter_at quarter_info
quarter_of-table t y x today begun ended =
    let (s1, s2, s3, s4) = period_days y in
    let (e1, d1, e2, d2) = year_days y in
    let (e3, d3, e4, d4, last) = next_year_days y in
    let p1 = in_period t y x _ _ (day_number y 7 7) q1 96 186 today s1 e1 in
    let p2 = in_period t y x _ _ (day_number y 10 7) q2 187 278 today s2 e2 in
    let p3 = in_period t y x _ _ (day_number (y + 1) 1 7) q3 279 370 today s3 e3 in
    let p4 : is_in t (
          quarter_info t q4 y (day_number (y + 1) 0 6) (day_number (y + 1) 3 5)
            (day_number (y + 1) 4 7))
        ≡ leb 371 x =
      is_in_lem t t y _ _ (day_number (y + 1) 4 7) q4 ∙ ground arith in
    rw (p1, p2, p3, p4) (ground arith)

-- The months of the code against the days: from 6 April on, and before.
code_later :
    (d : Date)
    → IsDate d
    → (ltb 3 d.month || (d.month == 3 && leb 6 d.day)) ≡ true
    → (uk_quarter_code d ≡ some (quarter_at (month_start d.month + d.day)))
      × (96 ≤ month_start d.month + d.day)
      × (month_start d.month + d.day ≤ 365)
unfolding uk_quarter_code quarter_at month_start month_length
code_later d date later =
    let month = date.month in let first = date.first in let last = date.last in ground arith

code_before :
    (d : Date)
    → IsDate d
    → (ltb 3 d.month || (d.month == 3 && leb 6 d.day)) ≡ false
    → (uk_quarter_code d
        ≡ some
            (quarter_at (365 + month_start d.month + leap_days (is_leap d.year) d.month + d.day)))
      × (month_start d.month + leap_days (is_leap d.year) d.month + d.day
          ≤ 95 + leap_days (is_leap d.year) 2)
unfolding uk_quarter_code quarter_at month_start leap_days month_length
code_before d date later =
    let month = date.month in let first = date.first in let last = date.last in ground arith

table_later :
    (d : Date)
    → IsDate d
    → (ltb 3 d.month || (d.month == 3 && leb 6 d.day)) ≡ true
    → uk_quarter_code d
      ≡ quarter_of (
          find
            (is_in (day_number d.year d.month d.day))
            (tax_year_quarters (day_number d.year d.month d.day) d.year))
unfolding day_number leap_days
table_later d date later =
    let (code, begun, ended) = code_later d date later in
    let (e3, d3, e4, d4, last) = next_year_days d.year in
    code
    ∙ sym (
        quarter_of-table _ d.year (month_start d.month + d.day) (ground arith) begun (ground arith))

table_before :
    (d : Date)
    → IsDate d
    → (ltb 3 d.month || (d.month == 3 && leb 6 d.day)) ≡ false
    → uk_quarter_code d
      ≡ quarter_of (
          find
            (is_in (day_number d.year d.month d.day))
            (tax_year_quarters (day_number d.year d.month d.day) (d.year - 1)))
unfolding day_number leap_days month_start
table_before d date before =
    let (code, ended) = code_before d date before in
    let year = date.year in
    let back : d.year - 1 + 1 ≡ d.year = omega arith in
    let start : year_start d.year
        ≡ year_start (d.year - 1) + 365 + leap_days (is_leap (d.year - 1)) 2 =
      ap year_start (sym back) ∙ year_start-next (d.year - 1) in
    let stop : day_number (d.year - 1 + 1) 3 5
        ≡ year_start d.year + 95 + leap_days (is_leap d.year) 2 =
      rw back (omega arith) in
    code
    ∙ sym (
        quarter_of-table _ (d.year - 1)
          (365 + month_start d.month + leap_days (is_leap d.year) d.month + d.day) (omega arith)
          (omega arith) (omega arith))

-- The code of a date is the quarter of its tax year into which it falls: every date of the
-- calendar falls into one, so the code is never `Q?`.
pub uk_quarter_code-table :
    (d : Date)
    → IsDate d
    → (uk_quarter_code d
        ≡ quarter_of (
            find
              (is_in (day_number d.year d.month d.day))
              (tax_year_quarters (day_number d.year d.month d.day) (current_uk_tax_year_start d))))
      × ((q : Quarter) × (uk_quarter_code d ≡ some q))
unfolding current_uk_tax_year_start
uk_quarter_code-table d date = elim (Bool-cases (ltb 3 d.month || (d.month == 3 && leb 6 d.day))) [
  | inl later ↦
      let (code, begun, ended) = code_later d date later in
      (rw later (table_later d date later), (quarter_at (month_start d.month + d.day), code))
  | inr before ↦
      let (code, ended) = code_before d date before in
      (
        rw before (table_before d date before),
        (quarter_at (365 + month_start d.month + leap_days (is_leap d.year) d.month + d.day), code),
      )
]
