-- ===== src/Pipeline/Status.antt =====
-- src/modules/dashboard/pipeline-status.ts
pub mod Laws
use mtd_backend.Common.{ℕ, String, Bool, true, false, Option, none, some, leb, ◌===◌, if◌then◌else◌}

pub data PipelineStatus : Type 0 where
  pending_invite not_started chased records_received ready_for_review submitted : PipelineStatus

-- The word that is stored for a status.
unfoldable pub text_of_status : PipelineStatus → String
text_of_status pending_invite = "pending-invite"
text_of_status not_started = "not-started"
text_of_status chased = "chased"
text_of_status records_received = "records-received"
text_of_status ready_for_review = "ready-for-review"
text_of_status submitted = "submitted"

-- `isPipelineStatus(value) ? value : …`; none for a text that is no status.
unfoldable pub status_of_text : String → Option PipelineStatus
status_of_text value =
    if value === "pending-invite"
    then some pending_invite
    else if value === "not-started"
    then some not_started
    else if value === "chased"
    then some chased
    else if value === "records-received"
    then some records_received
    else if value === "ready-for-review"
    then some ready_for_review
    else if value === "submitted"
    then some submitted
    else none

unfoldable pub is_manual_pipeline_status : PipelineStatus → Bool
is_manual_pipeline_status records_received = true
is_manual_pipeline_status ready_for_review = true
is_manual_pipeline_status _ = false

-- The index in `PIPELINE_STATUSES`.
unfoldable pub pipeline_status_rank : PipelineStatus → ℕ
pipeline_status_rank pending_invite = 0
pipeline_status_rank not_started = 1
pipeline_status_rank chased = 2
pipeline_status_rank records_received = 3
pipeline_status_rank ready_for_review = 4
pipeline_status_rank submitted = 5

unfoldable pub next_manual_pipeline_status : PipelineStatus → Option PipelineStatus
next_manual_pipeline_status chased = some records_received
next_manual_pipeline_status records_received = some ready_for_review
next_manual_pipeline_status _ = none

unfoldable pub derive_pipeline_status : Bool → Bool → Bool → PipelineStatus
derive_pipeline_status is_authorised is_submitted chased_this_quarter =
    if is_authorised
    then (if is_submitted then submitted else if chased_this_quarter then chased else not_started)
    else pending_invite

merge_status : Option PipelineStatus → PipelineStatus → PipelineStatus
merge_status none derived = derived
merge_status (some persisted) derived =
    if leb (pipeline_status_rank derived) (pipeline_status_rank persisted)
    then persisted
    else derived

-- The status to show: the stored one or the derived one, whichever is further on.
unfoldable pub resolve_pipeline_status : Option String → PipelineStatus → PipelineStatus
unfolding merge_status
resolve_pipeline_status none derived = derived
resolve_pipeline_status (some persisted) derived = merge_status (status_of_text persisted) derived
