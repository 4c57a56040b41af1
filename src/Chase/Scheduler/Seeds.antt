-- ===== src/Chase/Scheduler/Seeds.antt =====
-- The first daily run of a firm, whose templates are the default ones.
use mtd_backend.Common.{ℕ, String, Bool, true, not, ◌&&◌, ◌===◌, if◌then◌else◌}
use mtd_backend.Chase.Templates.{
  ChaseTemplate, CreateChaseTemplateDto, bookkeeping_reminder, bookkeeping_overdue,
  data_request_gentle, data_request_urgent, new_template,
}
use mtd_backend.Chase.Scheduler.{ChaseRow, is_row_overdue, is_due, is_cooling}

-- The default that fits a workflow and its lateness.
abbrev pub default_for : String → Bool → CreateChaseTemplateDto
default_for workflow_type is_overdue =
    if workflow_type === "bookkeeping"
    then (if is_overdue then bookkeeping_overdue else bookkeeping_reminder)
    else if workflow_type === "data-request"
    then (if is_overdue then data_request_urgent else data_request_gentle)
    else bookkeeping_reminder

abbrev pub needs_chase : ℕ → ChaseRow → Bool
needs_chase now row = is_due row && not (is_cooling now row)

module _ (new_id : CreateChaseTemplateDto → String) (tenant_id : String) where
  abbrev pub first_chase : ChaseRow → ChaseRow × ChaseTemplate
  first_chase row =
      let dto = default_for row.workflow_type (is_row_overdue row) in
      (row, new_template (new_id dto) tenant_id true dto)
