-- ===== src/Pipeline/Status/Laws.antt =====
-- The words and the order of the statuses.
use mtd_backend.Common.{String, some, max, ◌+◌, ◌≡◌, refl, arith}
use mtd_backend.Pipeline.Status.{
  PipelineStatus, pending_invite, not_started, chased, records_received, ready_for_review,
  submitted, text_of_status, status_of_text, pipeline_status_rank, next_manual_pipeline_status,
  resolve_pipeline_status,
}

-- A status that is stored is read back as itself.
pub status_of_text-text_of_status :
    (status : PipelineStatus) → status_of_text (text_of_status status) ≡ some status
unfolding status_of_text text_of_status
status_of_text-text_of_status pending_invite = refl
status_of_text-text_of_status not_started = refl
status_of_text-text_of_status chased = refl
status_of_text-text_of_status records_received = refl
status_of_text-text_of_status ready_for_review = refl
status_of_text-text_of_status submitted = refl

pub rank_injective :
    (a b : PipelineStatus) → pipeline_status_rank a ≡ pipeline_status_rank b → a ≡ b
unfolding pipeline_status_rank
rank_injective a b h = ground arith

-- A stored text that is a status and the derived status are merged to the one of the higher rank.
pub resolve_pipeline_status-max :
    (text : String) (stored derived : PipelineStatus)
    → status_of_text text ≡ some stored
    → pipeline_status_rank (resolve_pipeline_status (some text) derived)
      ≡ max (pipeline_status_rank stored) (pipeline_status_rank derived)
unfolding resolve_pipeline_status
resolve_pipeline_status-max text stored derived h = rw h (ground arith)

-- A manual step goes up by one rank, from chased or records received.
pub next_manual-rank :
    (current next : PipelineStatus)
    → next_manual_pipeline_status current ≡ some next
    → pipeline_status_rank next ≡ pipeline_status_rank current + 1
unfolding next_manual_pipeline_status pipeline_status_rank
next_manual-rank current next h = ground arith
