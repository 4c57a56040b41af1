-- ===== src/Chase/Tests.antt =====
-- Two days of 2026, and a run over three rows.
use mtd_backend.Common.{
  ◌≡◌, arith, find_all, refl, ◌+◌, ◌*◌, ℕ, String, true, false, Option, none, some, [], ◌∷◌, find,
}
use mtd_backend.Chase.Calendar.{ℤ, pos, negsuc, Date, IsDate, is_leap, month_length, day_number}
use mtd_backend.Chase.Quarters.{
  Quarter, q1, current_chase_quarter, uk_quarter_code, tax_year_quarters, current_uk_tax_year_start,
}
use mtd_backend.Chase.Quarters.Fallback.{current_chase_quarter-quarter}
use mtd_backend.Chase.Templates.{ChaseTemplate, CreateChaseTemplateDto}
use mtd_backend.Chase.Scheduler.{ChaseRow, ChaseRun, process_tenant, ms_per_day}
use mtd_backend.Chase.Logs.{
  ChaseLog, CreateChaseLogDto, ChaseLogServices, new_log, create_log, summary_for_period,
}
use mtd_backend.Chase.Logs.Newest.{summary_for_period-create_log}
use mtd_backend.Chase.Quarters.Codes.{is_in, quarter_of, uk_quarter_code-table}

-- The day after the fourth quarter of 2025–26 has ended.
abbrev after_q4 : Date
after_q4 = record { year = 2026; month = 3; day = 6 }

after_q4-IsDate : IsDate after_q4
unfolding month_length is_leap
after_q4-IsDate = record {
  year = omega arith;
  month = omega arith;
  first = omega arith;
  last = omega arith;
}

current_chase_quarter-quarter_example :
    ((current_chase_quarter after_q4).quarter ≡ q1)
    × ((current_chase_quarter after_q4).tax_year ≡ 2026)
current_chase_quarter-quarter_example = current_chase_quarter-quarter after_q4 after_q4-IsDate

uk_quarter_code-table_example :
    (uk_quarter_code after_q4
      ≡ quarter_of (
          find
            (is_in (day_number 2026 3 6))
            (tax_year_quarters (day_number 2026 3 6) (current_uk_tax_year_start after_q4))))
    × ((q : Quarter) × (uk_quarter_code after_q4 ≡ some q))
uk_quarter_code-table_example = uk_quarter_code-table after_q4 after_q4-IsDate

abbrev reminder : ChaseTemplate
reminder = record {
  id = "t1";
  tenant_id = "f1";
  name = "Bookkeeping reminder";
  type = "bookkeeping";
  subject = "Records";
  body = "Please send your records.";
  is_default = true;
  deleted_at = none;
}

abbrev own_template : ChaseTemplate
own_template = record reminder { id = "t2"; is_default = false }

abbrev ended_row : ChaseRow
ended_row = record {
  client_id = "c1";
  business_id = none;
  period_start_date = none;
  days_overdue = negsuc 19;
  days_since_period_end = pos 3;
  last_chase = none;
  workflow_type = "bookkeeping";
}

-- Chased a day before the run.
abbrev chased_row : ChaseRow
chased_row = record ended_row { client_id = "c2"; last_chase = some (9 * ms_per_day) }

abbrev early_row : ChaseRow
early_row = record ended_row { client_id = "c3"; days_since_period_end = negsuc 3 }

abbrev ten_days : ℕ
ten_days = 10 * ms_per_day

abbrev run_of_three : ChaseRun
run_of_three =
    process_tenant (λ row template. true) ten_days (own_template ∷ reminder ∷ [])
      (ended_row ∷ chased_row ∷ early_row ∷ [])

run_of_three_sends_one : run_of_three.chased ≡ (ended_row, reminder) ∷ []
unfolding process_tenant mtd_backend.Chase.Calendar.lt_z find mtd_backend.Common.find_all
run_of_three_sends_one = refl

abbrev named : CreateChaseTemplateDto → String
named dto = dto.name

abbrev as_is : ChaseLogServices
as_is = record { trim = λ s. s; day_part = λ s. s }

abbrev chase_dto : CreateChaseLogDto
chase_dto = record {
  client_id = "c1";
  business_id = some "b1";
  business_name = none;
  period_start_date = some "2026-04-06";
  period_end_date = none;
  due_date = none;
  quarter_label = none;
  template_id = none;
  channel = "email";
  subject = "Records";
  body = "Please send your records.";
}

abbrev earlier_log : ChaseLog
earlier_log = new_log as_is "l1" "f1" 100 none chase_dto

summary_for_period-create_log_example :
    summary_for_period as_is "f1" "c1"
      (some "b1")
      (some "2026-04-06")
      none
      (create_log as_is "l2" "f1" 200 none chase_dto (earlier_log ∷ [])).1
    ≡ record {
      last_chase_at = some 200;
      chase_count =
          (summary_for_period as_is "f1" "c1"
            (some "b1")
            (some "2026-04-06")
            none
            (earlier_log ∷ [])).chase_count
          + 1;
      last_status = some "sent";
    }
unfolding mtd_backend.Chase.Logs.agrees mtd_backend.Chase.Logs.normalize_date_key
    mtd_backend.Chase.Logs.trimmed
summary_for_period-create_log_example =
    summary_for_period-create_log as_is "l2" "f1" 200 none chase_dto (some "b1") (some "2026-04-06")
      (earlier_log ∷ []) (refl, tt) refl refl
