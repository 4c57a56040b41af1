-- ===== src/Pipeline/Service/Forward.antt =====
-- The status of a client only goes forward.
use mtd_backend.Common.{
  String, some, List, ◌≡◌, ◌≤◌, refl, ◌∙◌, arith, ◌===◌, eq_iff, All, find, update, Distinct,
  find-Distinct, Distinct-update, Pointwise, Pointwise-refl, Pointwise-trans, Pointwise-update,
}
use mtd_backend.Clients.{Client}
use mtd_backend.Pipeline.Status.{PipelineStatus, pipeline_status_rank}
use mtd_backend.Pipeline.Status.Laws.{status_of_text-text_of_status}
use mtd_backend.Pipeline.Service.{Store, is_client, current_status, moved}
use mtd_backend.Pipeline.Service.Steps.{
  IsMove, Step, stay, moves, starts, Op, run_all, run_all-induction, decide-move-rank,
}

-- The rows of `clients` have different ids.
abbrev pub HasKeys : Store → Type 0
HasKeys s = Distinct (λ c. c.id) s.clients

-- The same client, at no lower a status.
abbrev pub Advances : Client → Client → Type 0
Advances c d =
    (d.id ≡ c.id)
    × (d.tenant_id ≡ c.tenant_id)
    × (d.deleted_at ≡ c.deleted_at)
    × (pipeline_status_rank (current_status c) ≤ pipeline_status_rank (current_status d))

pub current_status-moved :
    (to_status : PipelineStatus) (c : Client) → current_status (moved to_status c) ≡ to_status
unfolding current_status moved
current_status-moved to_status c = rw (status_of_text-text_of_status to_status) refl

-- In a table with a key, the rows with the id of a found client are that client.
pub same_id :
    (tenant_id client_id : String) (clients : List Client) (client : Client)
    → Distinct (λ c. c.id) clients
    → find (is_client tenant_id client_id) clients ≡ some client
    → All (λ c. c.id ≡ client.id → c ≡ client) clients
same_id tenant_id client_id clients client keys found =
    find-Distinct (λ c. c.id) (is_client tenant_id client_id) clients client keys found

move-Advances :
    (client : Client) (to_status : PipelineStatus) (clients : List Client)
    → pipeline_status_rank (current_status client) ≤ pipeline_status_rank to_status
    → All (λ c. c.id ≡ client.id → c ≡ client) clients
    → Pointwise Advances clients (update (λ c. c.id === client.id) (moved to_status) clients)
unfolding moved
move-Advances client to_status clients up same =
    Pointwise-update (λ c. c.id ≡ client.id → c ≡ client) Advances (λ c. c.id === client.id)
      (moved to_status) clients
      (λ c is t.
        let here : c ≡ client = is ((eq_iff c.id client.id).0 t) in
        (refl, refl, refl, rw (current_status-moved to_status c) (rw here up)))
      (λ c _ _. (refl, refl, refl, omega arith)) same

IsMove-Advances :
    {s u : Store} → HasKeys s → IsMove s u → HasKeys u × Pointwise Advances s.clients u.clients
unfolding moved
IsMove-Advances {s} {u} keys m = rw (← m.result) (
  Distinct-update (λ c. c.id) (λ c. c.id === m.client.id) (moved m.to_status) s.clients (λ c. refl)
      keys,
  move-Advances m.client m.to_status s.clients
      (decide-move-rank m.source (current_status m.client) m.to_status m.allowed)
      (same_id m.tenant_id m.client_id s.clients m.client keys m.found),
)

Advances-refl : (c : Client) → Advances c c
Advances-refl c = (refl, refl, refl, omega arith)

Advances-trans : (c d e : Client) → Advances c d → Advances d e → Advances c e
Advances-trans c d e p q = (q.0 ∙ p.0, q.1 ∙ p.1, q.2 ∙ p.2, omega arith)

pub Step-Advances :
    (s u : Store) → HasKeys s → Step s u → HasKeys u × Pointwise Advances s.clients u.clients
Step-Advances s u keys (stay e) = rw (← e) (keys, Pointwise-refl Advances s.clients Advances-refl)
Step-Advances s u keys (moves m) = IsMove-Advances keys m
Step-Advances s u keys (starts i) =
    rw (← i.result) (keys, Pointwise-refl Advances s.clients Advances-refl)

-- Whatever operations of the service run, on whatever arguments, no client is lost or added and
-- the rank of no client's status goes down, from a store whose clients have different ids.
pub run_all-Advances :
    (ops : List Op) (s : Store) → HasKeys s → Pointwise Advances s.clients (run_all ops s).clients
run_all-Advances ops s keys =
    (run_all-induction (λ u. HasKeys u × Pointwise Advances s.clients u.clients)
      (λ u v (k, a) step.
        let (k', b) = Step-Advances u v k step in
        (k', Pointwise-trans Advances s.clients u.clients v.clients Advances-trans a b))
      ops s (keys, Pointwise-refl Advances s.clients Advances-refl)).1
