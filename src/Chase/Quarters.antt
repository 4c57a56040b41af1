-- ===== src/Chase/Quarters.antt =====
-- src/modules/chase/chase-template-vars.util.ts: the quarters of a UK tax year, and the one that is
-- chased where HMRC's obligations are not at hand.
pub mod Choice
pub mod Days
pub mod Fallback
pub mod Codes
use mtd_backend.Common.{
  head, sort, ℕ, ◌+◌, ◌-◌, Bool, true, false, ◌&&◌, ◌||◌, not, ◌==◌, ltb, leb, if◌then◌else◌, List,
  [], ◌∷◌, Option, none, some, find_all, map,
}
use mtd_backend.Chase.Calendar.{ℤ, pos, diff, lt_z, Date, day_number}

pub data Quarter : Type 0 where
  q1 q2 q3 q4 : Quarter

-- `label` is the text of the quarter and the first year: `Q1 2026–27`.
pub record QuarterInfo : Type 0 where
  pub quarter : Quarter
  pub tax_year : ℕ
  pub period_start : ℕ
  pub period_end : ℕ
  pub deadline : ℕ
  pub days_overdue : ℤ
  pub days_since_period_end : ℤ

-- A quarter on a day that is given by its number.
pub quarter_info : ℕ → Quarter → ℕ → ℕ → ℕ → ℕ → QuarterInfo
quarter_info today q y period_start period_end deadline = record {
  quarter = q;
  tax_year = y;
  period_start = period_start;
  period_end = period_end;
  deadline = deadline;
  days_overdue = diff today deadline;
  days_since_period_end = diff today period_end;
}

pub tax_year_quarters : ℕ → ℕ → List QuarterInfo
unfolding quarter_info
tax_year_quarters today y =
    quarter_info today q1 y (day_number y 3 6) (day_number y 6 5) (day_number y 7 7)
    ∷ quarter_info today q2 y (day_number y 6 6) (day_number y 9 5) (day_number y 10 7)
    ∷ quarter_info today q3 y (day_number y 9 6) (day_number (y + 1) 0 5) (day_number (y + 1) 1 7)
    ∷ quarter_info today q4 y (day_number (y + 1) 0 6) (day_number (y + 1) 3 5)
        (day_number (y + 1) 4 7)
    ∷ []

pub is_overdue : QuarterInfo → Bool
is_overdue q = lt_z (pos 0) q.days_overdue && not (lt_z (pos 180) q.days_overdue)

pub has_ended : QuarterInfo → Bool
has_ended q = not (lt_z q.days_since_period_end (pos 1)) && not (lt_z (pos 0) q.days_overdue)

pub is_upcoming : QuarterInfo → Bool
is_upcoming q = lt_z q.days_since_period_end (pos 1)

-- `(a, b) => b.daysOverdue - a.daysOverdue`, and so on.
pub more_overdue : QuarterInfo → QuarterInfo → Bool
more_overdue a b = lt_z b.days_overdue a.days_overdue

pub longer_ended : QuarterInfo → QuarterInfo → Bool
longer_ended a b = lt_z b.days_since_period_end a.days_since_period_end

pub ends_before : QuarterInfo → QuarterInfo → Bool
ends_before a b = ltb a.period_end b.period_end

-- The first that the lists in turn have, and else the first quarter of the next tax year.
pub first_of :
    Option QuarterInfo → Option QuarterInfo → Option QuarterInfo → QuarterInfo → QuarterInfo
first_of (some q) o p fallback = q
first_of none (some q) p fallback = q
first_of none none (some q) fallback = q
first_of none none none fallback = fallback

abbrev pub chase_tax_year : Date → ℕ
chase_tax_year now = if leb 3 now.month then now.year else now.year - 1

pub current_chase_quarter : Date → QuarterInfo
unfolding first_of sort quarter_info
current_chase_quarter now =
    let today = day_number now.year now.month now.day in
    let quarters = tax_year_quarters today (chase_tax_year now) in
    let next = chase_tax_year now + 1 in
    first_of (head (sort more_overdue (find_all is_overdue quarters)))
      (head (sort longer_ended (find_all has_ended quarters)))
      (head (sort ends_before (find_all is_upcoming quarters)))
      (quarter_info today q1 next (day_number next 3 6) (day_number next 6 5) (day_number next 7 7))

pub current_uk_tax_year_start : Date → ℕ
current_uk_tax_year_start now =
    if ltb 3 now.month || (now.month == 3 && leb 6 now.day) then now.year else now.year - 1

-- `'Q?'` is `none`.
pub uk_quarter_code : Date → Option Quarter
uk_quarter_code d =
    if d.month == 3 && leb 6 d.day
    then some q1
    else if leb 4 d.month && leb d.month 5
    then some q1
    else if d.month == 6 && leb d.day 5
    then some q1
    else if d.month == 6 && leb 6 d.day
    then some q2
    else if leb 7 d.month && leb d.month 8
    then some q2
    else if d.month == 9 && leb d.day 5
    then some q2
    else if d.month == 9 && leb 6 d.day
    then some q3
    else if leb 10 d.month && leb d.month 11
    then some q3
    else if d.month == 0 && leb d.day 5
    then some q3
    else if d.month == 0 && leb 6 d.day
    then some q4
    else if leb 1 d.month && leb d.month 2
    then some q4
    else if d.month == 3 && leb d.day 5
    then some q4
    else none
