-- ===== src/Pipeline/Tests.antt =====
-- Runs of the pipeline on a firm with two clients.
use mtd_backend.Common.{String, none, List, [], ◌∷◌, refl, arith, eq_iff, false, All, Pointwise}
use mtd_backend.Clients.{Client}
use mtd_backend.Pipeline.Status.{records_received, status_of_text}
use mtd_backend.Pipeline.Service.{Store, mark_submitted_many, current_status}
use mtd_backend.Pipeline.Service.Steps.{
  Op, initial_status, not_started_op, chased_op, submitted_op, manual_status, run_all,
}
use mtd_backend.Pipeline.Service.Forward.{HasKeys, Advances, run_all-Advances}
use mtd_backend.Pipeline.Service.Audit.{IsAudited, run_all-IsAudited, follow}
use mtd_backend.Pipeline.Service.Submit.{IsDone, mark_submitted_many-IsDone}

abbrev new_client : String → Client
new_client id = record {
  id = id;
  tenant_id = "firm";
  name = "Ada";
  preferred_name = none;
  nino = "AB123456C";
  nino_hash = "hash";
  postcode = "TS24 1PA";
  email = "ada@example.com";
  phone = none;
  utr = none;
  agent_type = "main";
  invitation_id = none;
  invitation_status = "pending";
  invitation_sent_at = none;
  invitation_expires_at = none;
  authorised_at = none;
  pipeline_status = "pending-invite";
  workflow_type = none;
  assigned_to_user_id = none;
  portal_only = false;
  deleted_at = none;
}

abbrev two_clients : Store
two_clients = record { clients = new_client "a" ∷ new_client "b" ∷ []; history = [] }

abbrev a_year : List Op
a_year =
    initial_status "firm" "a"
    ∷ not_started_op "firm" "a"
    ∷ chased_op "firm" "a"
    ∷ manual_status "firm" "a" records_received "user"
    ∷ submitted_op "firm" "b"
    ∷ []

two_clients-HasKeys : HasKeys two_clients
two_clients-HasKeys = ((ground (arith, eq_iff "b" "a"), tt), (tt, tt))

two_clients-IsAudited : IsAudited two_clients
unfolding follow current_status status_of_text
two_clients-IsAudited = (refl, (refl, tt))

run_all-Advances_example :
    Pointwise Advances two_clients.clients (run_all a_year two_clients).clients
run_all-Advances_example = run_all-Advances a_year two_clients two_clients-HasKeys

run_all-IsAudited_example : IsAudited (run_all a_year two_clients)
run_all-IsAudited_example =
    run_all-IsAudited a_year two_clients two_clients-HasKeys two_clients-IsAudited

mark_submitted_many-IsDone_example :
    All
      (λ id. IsDone "firm" id (mark_submitted_many "firm" ("a" ∷ "b" ∷ []) two_clients).clients)
      ("a" ∷ "b" ∷ [])
mark_submitted_many-IsDone_example =
    mark_submitted_many-IsDone "firm" ("a" ∷ "b" ∷ []) two_clients two_clients-HasKeys
