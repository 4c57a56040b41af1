-- ===== src/Chase/Scheduler/Rules.antt =====
-- What every chase of a daily run keeps to.
use mtd_backend.Common.{ℕ, true, false, some, List, ◌≡◌}
use mtd_backend.Chase.Templates.{ChaseTemplate}
use mtd_backend.Chase.Scheduler.{ChaseRow, pick_template, is_row_overdue, is_due, is_cooling}

abbrev IsDefault : ChaseTemplate → Type 0
IsDefault t = t.is_default ≡ true

-- A chase that keeps to the rules.
abbrev pub IsRight : ℕ → List ChaseTemplate → ChaseRow × ChaseTemplate → Type 0
IsRight now templates (row, t) =
    (is_due row ≡ true)
    × (is_cooling now row ≡ false)
    × (pick_template templates row.workflow_type (is_row_overdue row) ≡ some t)
    × (t.is_default ≡ true)
