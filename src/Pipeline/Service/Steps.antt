-- ===== src/Pipeline/Service/Steps.antt =====
-- What one operation of the service does to the store.
use mtd_backend.Common.{
  String, Option, none, some, List, [], ◌∷◌, ◌++◌, ◌≡◌, ◌↔◌, ◌<◌, ◌≤◌, inl, inr, refl, arith, ◌===◌,
  Option-cases, find, update, Result, ok, err, continue, pure, ltb, count_where, Bool-cases,
}
use mtd_backend.Clients.{Client}
use mtd_backend.Pipeline.Status.{
  PipelineStatus, pending_invite, not_started, chased, submitted, pipeline_status_rank,
  next_manual_pipeline_status,
}
use mtd_backend.Pipeline.Service.{
  Source, system, agent, Store, is_client, is_change_of, current_status, Decision, keep, move,
  refuse, decide, moved, change_row, apply_decision, transition, record_initial_status,
  mark_not_started, mark_chased, advance_chased, mark_submitted, set_manual_status,
  status_of_client,
}

-- An agent's request moves the status exactly if it asks for the one next manual status; the
-- system's exactly if it asks for a status of a higher rank.
pub decide-move_iff :
    (from_status to_status : PipelineStatus)
    → ((decide agent from_status to_status ≡ move)
        ↔ (next_manual_pipeline_status from_status ≡ some to_status))
      × ((decide system from_status to_status ≡ move)
          ↔ (pipeline_status_rank from_status < pipeline_status_rank to_status))
unfolding decide
decide-move_iff from_status to_status = ground arith

pub decide-move-rank :
    (source : Source) (from_status to_status : PipelineStatus)
    → decide source from_status to_status ≡ move
    → pipeline_status_rank from_status ≤ pipeline_status_rank to_status
unfolding decide
decide-move-rank source from_status to_status h = ground arith

abbrev pub after_move : String → PipelineStatus → Source → Option String → Client → Store → Store
after_move tenant_id to_status source user_id client s = record s {
  clients = update (λ c. c.id === client.id) (moved to_status) s.clients;
  history = s.history ++ change_row tenant_id to_status source user_id client ∷ [];
}

-- A move of a stored client.
pub record IsMove (s u : Store) : Type 0 where
  pub tenant_id : String
  pub to_status : PipelineStatus
  pub source : Source
  pub user_id : Option String
  pub client_id : String
  pub client : Client
  pub found : find (is_client tenant_id client_id) s.clients ≡ some client
  pub allowed : decide source (current_status client) to_status ≡ move
  pub result : after_move tenant_id to_status source user_id client s ≡ u

-- The first row of a client's history.
pub record IsStart (s u : Store) : Type 0 where
  pub tenant_id : String
  pub client_id : String
  pub fresh : count_where (is_change_of tenant_id client_id) s.history ≡ 0
  pub result :
      record s {
        history =
            s.history
            ++ record {
              tenant_id = tenant_id;
              client_id = client_id;
              from_status = none;
              to_status = pending_invite;
              source = system;
              changed_by_user_id = none;
            }
              ∷ [];
      }
      ≡ u

pub data Step (s u : Store) : Type 0 where
  stay : s ≡ u → Step s u
  moves : IsMove s u → Step s u
  starts : IsStart s u → Step s u

module _ (tenant_id client_id : String) where
  pub transition-Step :
      (to_status : PipelineStatus) (source : Source) (user_id : Option String) (s : Store)
      → Step s (transition tenant_id client_id to_status source user_id s).1
  unfolding transition
  transition-Step to_status source user_id s =
      elim (Option-cases (find (is_client tenant_id client_id) s.clients)) [
        | inl missing ↦ rw missing (stay refl)
        | inr (client, found) ↦
            rw found (go client found (decide source (current_status client) to_status) refl)
      ]
    where
      go :
          (client : Client)
          → find (is_client tenant_id client_id) s.clients ≡ some client
          → (d : Decision) → decide source (current_status client) to_status ≡ d
          → Step s (apply_decision d tenant_id to_status source user_id client s).1
      go client found keep e = stay refl
      go client found (refuse error) e = stay refl
      go client found move e = moves (record {
        tenant_id = tenant_id;
        to_status = to_status;
        source = source;
        user_id = user_id;
        client_id = client_id;
        client = client;
        found = found;
        allowed = e;
        result = refl;
      })

-- The operations that the rest of the program calls.
pub data Op : Type 0 where
  initial_status not_started_op chased_op submitted_op : String → String → Op
  manual_status : String → String → PipelineStatus → String → Op

unfoldable pub run : Op → Store → Store
run (initial_status t c) s = (record_initial_status t c s).1
run (not_started_op t c) s = (mark_not_started t c s).1
run (chased_op t c) s = (mark_chased t c s).1
run (submitted_op t c) s = (mark_submitted t c s).1
run (manual_status t c status user_id) s = (set_manual_status t c status user_id s).1

-- What follows a transition only reads.
module _ (t c : String) where
  pub then_pure : (r : Result Client × Store) → (continue r (λ _. pure {A = Unit {0}} tt)).1 ≡ r.1
  then_pure (ok client, s) = refl
  then_pure (err e, s) = refl

  then_read : (r : Result Client × Store) → (continue r (λ _. status_of_client t c)).1 ≡ r.1
  unfolding status_of_client
  then_read (ok client, s) = ground arith
  then_read (err e, s) = refl

advance_chased-Step :
    (from_status : PipelineStatus) (t c : String) (s : Store)
    → Step s (advance_chased from_status t c s).1
unfolding advance_chased
advance_chased-Step not_started t c s =
    rw (then_pure t c) (transition-Step t c chased system none s)
advance_chased-Step _ t c s = stay refl

mark_chased-Step : (t c : String) (s : Store) → Step s (mark_chased t c s).1
unfolding mark_chased
mark_chased-Step t c s = elim (Option-cases (find (is_client t c) s.clients)) [
  | inl missing ↦ rw missing (stay refl)
  | inr (client, found) ↦ rw found (advance_chased-Step (current_status client) t c s)
]

record_initial_status-Step : (t c : String) (s : Store) → Step s (record_initial_status t c s).1
unfolding record_initial_status
record_initial_status-Step t c s =
    elim (Bool-cases (ltb 0 (count_where (is_change_of t c) s.history))) [
      | inl some_rows ↦ rw some_rows (stay refl)
      | inr no_rows ↦
          rw no_rows
            (starts (record { tenant_id = t; client_id = c; fresh = ground arith; result = refl }))
    ]

-- Each operation leaves the store, moves one client forward with its history row, or writes the
-- first history row of a client.
pub run-Step : (op : Op) (s : Store) → Step s (run op s)
unfolding run mark_not_started mark_submitted set_manual_status
run-Step (initial_status t c) s = record_initial_status-Step t c s
run-Step (not_started_op t c) s = rw (then_pure t c) (transition-Step t c not_started system none s)
run-Step (chased_op t c) s = mark_chased-Step t c s
run-Step (submitted_op t c) s = rw (then_pure t c) (transition-Step t c submitted system none s)
run-Step (manual_status t c status user_id) s =
    rw (then_read t c) (transition-Step t c status agent (some user_id) s)

unfoldable pub run_all : List Op → Store → Store
run_all [] s = s
run_all (op ∷ ops) s = run_all ops (run op s)

-- What each step keeps, every sequence of operations keeps.
pub run_all-induction :
    (P : Store → Type 0)
    → ((s u : Store) → P s → Step s u → P u)
    → (ops : List Op) (s : Store) → P s
    → P (run_all ops s)
unfolding run_all
run_all-induction P step_keeps [] s h = h
run_all-induction P step_keeps (op ∷ ops) s h =
    run_all-induction P step_keeps ops (run op s) (step_keeps s (run op s) h (run-Step op s))
