-- ===== src/Chase/Scheduler.antt =====
-- src/modules/chase/chase-scheduler.service.ts: which row of the list is chased at a time, and
-- by which template of the firm. Times are milliseconds.
pub mod Rules
pub mod Seeds
use mtd_backend.Common.{
  head, ℕ, ◌+◌, ◌*◌, String, Bool, true, false, Option, none, some, List, [], ◌∷◌, ◌++◌, not, ◌&&◌,
  ◌||◌, ltb, leb, ◌===◌, find, find_all, get_or, or_else, if◌then◌else◌,
}
use mtd_backend.Chase.Calendar.{ℤ, pos, lt_z}
use mtd_backend.Chase.Templates.{ChaseTemplate}

-- What the scheduler reads of a row of the list; `last_chase` is the time that `new Date` reads in
-- it, the start of a day.
pub record ChaseRow : Type 0 where
  pub client_id : String
  pub business_id : Option String
  pub period_start_date : Option String
  pub days_overdue : ℤ
  pub days_since_period_end : ℤ
  pub last_chase : Option ℕ
  pub workflow_type : String

abbrev pub chase_cooldown_days : ℕ
chase_cooldown_days = 6

abbrev pub ms_per_day : ℕ
ms_per_day = 86400000

abbrev pub is_named : String → ChaseTemplate → Bool
is_named name t = t.name === name

abbrev pub is_of_type : String → ChaseTemplate → Bool
is_of_type type t = t.type === type

-- The template of that name, else the first of the type, else the first.
unfoldable pub pick_from : String → String → List ChaseTemplate → Option ChaseTemplate
pick_from target type defaults =
    or_else (find (is_named target) defaults)
      (or_else (find (is_of_type type) defaults) (head defaults))

unfoldable pub pick_template : List ChaseTemplate → String → Bool → Option ChaseTemplate
unfolding pick_from
pick_template templates workflow_type is_overdue =
    let defaults = find_all (λ t. t.is_default) templates in
    if workflow_type === "bookkeeping"
    then pick_from (if is_overdue then "Bookkeeping overdue" else "Bookkeeping reminder")
        "bookkeeping" defaults
    else if workflow_type === "data-request"
    then pick_from (if is_overdue then "Data request (urgent)" else "Data request (gentle)")
        "data-request" defaults
    else head defaults

abbrev pub is_row_overdue : ChaseRow → Bool
is_row_overdue row = not (lt_z row.days_overdue (pos 1))

abbrev pub is_due : ChaseRow → Bool
is_due row = is_row_overdue row || not (lt_z row.days_since_period_end (pos 1))

-- Less than six full days after the last chase of the period.
abbrev pub is_cooling : ℕ → ChaseRow → Bool
is_cooling now row = elim row.last_chase [
  | none ↦ false
  | some last ↦ ltb now (last + chase_cooldown_days * ms_per_day)
]

-- The template to send now, if the row is chased at all.
unfoldable pub chase_of : ℕ → List ChaseTemplate → ChaseRow → Option ChaseTemplate
unfolding pick_template
chase_of now templates row =
    if not (is_due row)
    then none
    else if is_cooling now row
    then none
    else pick_template templates row.workflow_type (is_row_overdue row)

-- The chases that are logged, and the numbers of the rows sent and skipped. `logs` says which logs
-- are written: one that fails counts as skipped.
pub record ChaseRun : Type 0 where
  pub chased : List (ChaseRow × ChaseTemplate)
  pub sent : ℕ
  pub skipped : ℕ

unfoldable pub add_chase :
    (ChaseRow → ChaseTemplate → Bool) → ChaseRow → Option ChaseTemplate → ChaseRun → ChaseRun
add_chase logs row none run = record run { skipped = run.skipped + 1 }
add_chase logs row (some template) run =
    if logs row template
    then record run { chased = (row, template) ∷ run.chased; sent = run.sent + 1 }
    else record run { skipped = run.skipped + 1 }

unfoldable pub process_tenant :
    (ChaseRow → ChaseTemplate → Bool) → ℕ → List ChaseTemplate → List ChaseRow → ChaseRun
unfolding add_chase chase_of
process_tenant logs now templates [] = record { chased = []; sent = 0; skipped = 0 }
process_tenant logs now templates (row ∷ rows) =
    add_chase logs row (chase_of now templates row) (process_tenant logs now templates rows)
