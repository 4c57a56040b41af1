-- ===== src/Pipeline/Service.antt =====
-- src/modules/clients/client-pipeline.service.ts. The history rows stand in the order in which they
-- were saved; nothing deletes one.
pub mod Steps
pub mod Forward
pub mod Audit
pub mod Submit
use Prim.Native.String
use mtd_backend.Common.{
  ℕ, String, Bool, true, false, Option, none, some, List, [], ◌∷◌, ◌++◌, not, ◌&&◌, ltb, leb,
  get_or, is_some, ◌===◌, if◌then◌else◌, find, update, count_where, HttpError, Result, ok, err,
  Exec, pure, throw, gets, require, modify, throw_if, lift, ◌>>=◌, ◌>>◌,
}
use mtd_backend.Clients.{Client}
use mtd_backend.Pipeline.Status.{
  PipelineStatus, pending_invite, not_started, chased, records_received, ready_for_review,
  submitted, text_of_status, status_of_text, pipeline_status_rank, next_manual_pipeline_status,
  is_manual_pipeline_status,
}

pub data Source : Type 0 where
  system agent : Source

-- A row of `client_status_history`.
pub record StatusChange : Type 0 where
  pub tenant_id : String
  pub client_id : String
  pub from_status : Option PipelineStatus
  pub to_status : PipelineStatus
  pub source : Source
  pub changed_by_user_id : Option String

pub record Store : Type 0 where
  pub clients : List Client
  pub history : List StatusChange

-- `{ id: clientId, tenantId, deletedAt: IsNull() }`
abbrev pub is_client : String → String → Client → Bool
is_client tenant_id client_id c =
    c.id === client_id && (c.tenant_id === tenant_id && not (is_some c.deleted_at))

-- A stored text that is no status counts as pending.
unfoldable pub current_status : Client → PipelineStatus
current_status c = get_or (status_of_text c.pipeline_status) pending_invite

pub same_status : PipelineStatus → PipelineStatus → Bool
unfolding pipeline_status_rank
same_status a b =
    leb (pipeline_status_rank a) (pipeline_status_rank b)
    && leb (pipeline_status_rank b) (pipeline_status_rank a)

-- What a requested transition comes to.
pub data Decision : Type 0 where
  keep move : Decision
  refuse : HttpError → Decision

next_allowed : PipelineStatus → HttpError
next_allowed expected =
    HttpError.bad_request
      (String.◌++◌ "Next allowed status is " (String.◌++◌ (text_of_status expected) "."))

cannot_change : PipelineStatus → HttpError
cannot_change from_status = HttpError.bad_request (
    String.◌++◌ "Cannot change status from "
      (String.◌++◌ (text_of_status from_status) " manually."))

agent_decision : PipelineStatus → Option PipelineStatus → PipelineStatus → Decision
agent_decision from_status none to_status = refuse (cannot_change from_status)
agent_decision from_status (some expected) to_status =
    if same_status expected to_status then move else refuse (next_allowed expected)

decide_changed : Source → PipelineStatus → PipelineStatus → Decision
decide_changed agent from_status to_status =
    if not (is_manual_pipeline_status to_status)
    then refuse (HttpError.bad_request "Agents can only set Records received or Ready for review.")
    else agent_decision from_status (next_manual_pipeline_status from_status) to_status
decide_changed system from_status to_status =
    if leb (pipeline_status_rank to_status) (pipeline_status_rank from_status) then keep else move

pub decide : Source → PipelineStatus → PipelineStatus → Decision
unfolding decide_changed agent_decision same_status is_manual_pipeline_status
    next_manual_pipeline_status pipeline_status_rank
decide source from_status to_status =
    if same_status from_status to_status then keep else decide_changed source from_status to_status

abbrev pub by_agent : Source → Option String → Option String
by_agent agent user_id = user_id
by_agent system user_id = none

unfoldable pub moved : PipelineStatus → Client → Client
moved to_status client = record client { pipeline_status = text_of_status to_status }

pub change_row : String → PipelineStatus → Source → Option String → Client → StatusChange
change_row tenant_id to_status source user_id client = record {
  tenant_id = tenant_id;
  client_id = client.id;
  from_status = some (current_status client);
  to_status = to_status;
  source = source;
  changed_by_user_id = by_agent source user_id;
}

-- `clientRepo.save(client)` writes the changed column to the row of that id; then `historyRepo.save(history)`
save_move : String → PipelineStatus → Source → Option String → Client → Exec Store Client
unfolding moved change_row
save_move tenant_id to_status source user_id client = do
  modify (λ s. record s { clients = update (λ c. c.id === client.id) (moved to_status) s.clients })
  modify (λ s. record s {
    history = s.history ++ change_row tenant_id to_status source user_id client ∷ [];
  })
  pure (moved to_status client)

apply_decision :
    Decision → String → PipelineStatus → Source → Option String → Client → Exec Store Client
unfolding save_move
apply_decision keep tenant_id to_status source user_id client = pure client
apply_decision (refuse e) tenant_id to_status source user_id client = throw e
apply_decision move tenant_id to_status source user_id client =
    save_move tenant_id to_status source user_id client

pub transition : String → String → PipelineStatus → Source → Option String → Exec Store Client
unfolding apply_decision
transition tenant_id client_id to_status source user_id = do
  found ← gets (λ s. find (is_client tenant_id client_id) s.clients)
  client ← require found (HttpError.not_found "Client not found")
  apply_decision (decide source (current_status client) to_status) tenant_id to_status source
      user_id client

abbrev pub is_change_of : String → String → StatusChange → Bool
is_change_of tenant_id client_id row = row.client_id === client_id && row.tenant_id === tenant_id

unfoldable pub record_initial_status : String → String → Exec Store Unit
record_initial_status tenant_id client_id s =
    if ltb 0 (count_where (is_change_of tenant_id client_id) s.history) then (ok tt, s) else (
      ok tt,
      record s {
        history =
            s.history
            ++ record {
              tenant_id = tenant_id;
              client_id = client_id;
              from_status = none;
              to_status = pending_invite;
              source = system;
              changed_by_user_id = none;
            }
              ∷ [];
      },
    )

pub mark_not_started : String → String → Exec Store Unit
mark_not_started tenant_id client_id = do
  transition tenant_id client_id not_started system none
  pure tt

advance_chased : PipelineStatus → String → String → Exec Store Unit
advance_chased not_started tenant_id client_id = do
  transition tenant_id client_id chased system none
  pure tt
advance_chased _ tenant_id client_id = pure tt

pub mark_chased : String → String → Exec Store Unit
unfolding advance_chased
mark_chased tenant_id client_id = do
  found ← gets (λ s. find (is_client tenant_id client_id) s.clients)
  elim found [
    | none ↦ pure tt
    | some client ↦ advance_chased (current_status client) tenant_id client_id
  ]

pub mark_submitted : String → String → Exec Store Unit
mark_submitted tenant_id client_id = do
  transition tenant_id client_id submitted system none
  pure tt

-- An error for one client is logged, and the loop goes on from the state that it left.
pub mark_submitted_many : String → List String → Store → Store
mark_submitted_many tenant_id [] s = s
mark_submitted_many tenant_id (client_id ∷ client_ids) s =
    mark_submitted_many tenant_id client_ids (mark_submitted tenant_id client_id s).1

-- The current status and the next manual one, of the response of `getStatusHistory`.
status_of_client : String → String → Exec Store (PipelineStatus × Option PipelineStatus)
status_of_client tenant_id client_id = do
  found ← gets (λ s. find (is_client tenant_id client_id) s.clients)
  client ← require found (HttpError.not_found "Client not found")
  pure (current_status client, next_manual_pipeline_status (current_status client))

pub set_manual_status :
    String → String → PipelineStatus → String → Exec Store (PipelineStatus × Option PipelineStatus)
unfolding status_of_client
set_manual_status tenant_id client_id status user_id = do
  transition tenant_id client_id status agent (some user_id)
  status_of_client tenant_id client_id
