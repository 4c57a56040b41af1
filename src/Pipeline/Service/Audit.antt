-- ===== src/Pipeline/Service/Audit.antt =====
-- The history of a client replays to its status.
use mtd_backend.Common.{
  String, Bool, true, false, Option, none, some, List, [], ◌∷◌, ◌++◌, ◌≡◌, ◌∙◌, refl, inl, inr,
  arith, ◌===◌, eq_iff, eq_refl, Bool-cases, All, All-map, All-zip, All-update, All-find, find,
  find-true, count_where, if◌then◌else◌,
}
use mtd_backend.Clients.{Client}
use mtd_backend.Pipeline.Status.{PipelineStatus, pending_invite}
use mtd_backend.Pipeline.Service.{
  Source, StatusChange, Store, is_client, is_change_of, current_status, same_status, moved,
  change_row, system,
}
use mtd_backend.Pipeline.Service.Steps.{
  IsMove, IsStart, Step, stay, moves, starts, Op, run_all, run_all-induction,
}
use mtd_backend.Pipeline.Service.Forward.{HasKeys, Step-Advances, same_id, current_status-moved}

-- A row that continues from `status`; the first row of a client has no previous status.
abbrev continues : Option PipelineStatus → PipelineStatus → PipelineStatus → Bool
continues (some from_status) status to_status = same_status from_status status
continues none status to_status = same_status pending_invite status

-- The status that the rows of one client lead to, or none where a row does not continue from the
-- one before it.
unfoldable pub follow : String → String → PipelineStatus → List StatusChange → Option PipelineStatus
follow tenant_id client_id status [] = some status
follow tenant_id client_id status (row ∷ rows) =
    let skip = follow tenant_id client_id status rows in
    let step = follow tenant_id client_id row.to_status rows in
    if is_change_of tenant_id client_id row
    then (if continues row.from_status status row.to_status then step else none)
    else skip

same_status_refl : (a : PipelineStatus) → same_status a a ≡ true
unfolding same_status
same_status_refl a = ground arith

-- A row of another client changes nothing.
follow-other :
    (tenant_id client_id : String) (status : PipelineStatus) (rows : List StatusChange)
    (row : StatusChange)
    → is_change_of tenant_id client_id row ≡ false
    → follow tenant_id client_id status (rows ++ row ∷ []) ≡ follow tenant_id client_id status rows
unfolding follow
follow-other t c status [] row h = rw h refl
follow-other t c status (r ∷ rows) row h =
    rw (follow-other t c status rows row h, follow-other t c r.to_status rows row h) refl

-- A row of the client itself, which continues from where its rows lead to.
follow-own :
    (tenant_id client_id : String) (status final : PipelineStatus) (rows : List StatusChange)
    (row : StatusChange)
    → is_change_of tenant_id client_id row ≡ true
    → continues row.from_status final row.to_status ≡ true
    → follow tenant_id client_id status rows ≡ some final
    → follow tenant_id client_id status (rows ++ row ∷ []) ≡ some row.to_status
unfolding follow
follow-own t c status final [] row own next e =
    let same : status ≡ final = cc in rw (own, same, next) refl
follow-own t c status final (r ∷ rows) row own next e = ground (
  arith,
  follow-own t c status final rows row own next,
  follow-own t c r.to_status final rows row own next,
)

-- The history of each client leads from pending to its current status.
abbrev pub IsAudited : Store → Type 0
IsAudited s =
    All (λ c. follow c.tenant_id c.id pending_invite s.history ≡ some (current_status c)) s.clients

abbrev Traced : List StatusChange → Client → Type 0
Traced history c = follow c.tenant_id c.id pending_invite history ≡ some (current_status c)

-- Clients with another id keep their history.
Traced-other :
    (history : List StatusChange) (row : StatusChange) (c : Client)
    → is_change_of c.tenant_id c.id row ≡ false
    → Traced history c
    → Traced (history ++ row ∷ []) c
Traced-other history row c h t = follow-other c.tenant_id c.id pending_invite history row h ∙ t

module _ (t : String) (to_status : PipelineStatus) (source : Source) (user_id : Option String)
    (client : Client) (history : List StatusChange) (tenant : client.tenant_id ≡ t) where
  Traced-moved :
      Traced history client
      → Traced
          (history ++ change_row t to_status source user_id client ∷ [])
          (moved to_status client)
  unfolding moved change_row
  Traced-moved traced = rw (current_status-moved to_status client) (
      follow-own client.tenant_id client.id pending_invite (current_status client) history
        (change_row t to_status source user_id client)
        (ground (arith, eq_refl client.id, eq_iff t client.tenant_id))
        (same_status_refl (current_status client)) traced)

  Traced-unmoved :
      (c : Client)
      → (c.id === client.id) ≡ false
      → Traced history c
      → Traced (history ++ change_row t to_status source user_id client ∷ []) c
  unfolding change_row
  Traced-unmoved c apart traced =
      Traced-other history (change_row t to_status source user_id client) c
        (ground (arith, eq_iff client.id c.id, eq_iff c.id client.id)) traced

-- The rows of the table with whether they are the found client.
abbrev Known : Client → List StatusChange → Client → Type 0
Known client history c = Traced history c × (c.id ≡ client.id → c ≡ client)

tenant_of_found :
    (t c : String) (clients : List Client) (client : Client)
    → find (is_client t c) clients ≡ some client
    → client.tenant_id ≡ t
tenant_of_found t c clients client h =
    let true_of_found = find-true (is_client t c) clients client h in
    (eq_iff client.tenant_id t).0 (ground arith)

IsMove-IsAudited : {s u : Store} → HasKeys s → IsAudited s → IsMove s u → IsAudited u
IsMove-IsAudited {s} {u} keys audited m =
    let t = m.tenant_id in
    let own = tenant_of_found t m.client_id s.clients m.client m.found in
    let traced =
      All-find (Traced s.history) (is_client t m.client_id) s.clients m.client audited m.found in
    let known =
      All-zip (Traced s.history) (λ c. c.id ≡ m.client.id → c ≡ m.client) s.clients audited
        (same_id t m.client_id s.clients m.client keys m.found) in
    let row = change_row t m.to_status m.source m.user_id m.client in
    rw (← m.result) (
      All-update (Known m.client s.history) (Traced (s.history ++ row ∷ []))
        (λ c. c.id === m.client.id) (moved m.to_status) s.clients
        (λ c (_, is) e.
          rw (is ((eq_iff c.id m.client.id).0 e))
            (Traced-moved t m.to_status m.source m.user_id m.client s.history own traced))
        (λ c (tr, _) e.
          Traced-unmoved t m.to_status m.source m.user_id m.client s.history own c e tr)
        known)

follow-unchanged :
    (t c : String) (status : PipelineStatus) (rows : List StatusChange)
    → count_where (is_change_of t c) rows ≡ 0
    → follow t c status rows ≡ some status
unfolding follow count_where
follow-unchanged t c status [] h = refl
follow-unchanged t c status (row ∷ rows) h = ground (arith, follow-unchanged t c status rows)

abbrev first_row : String → String → StatusChange
first_row t c = record {
  tenant_id = t;
  client_id = c;
  from_status = none;
  to_status = pending_invite;
  source = system;
  changed_by_user_id = none;
}

-- The first row of a client that has none.
Traced-first :
    (t c : String) (history : List StatusChange) (client : Client)
    → count_where (is_change_of t c) history ≡ 0
    → is_change_of client.tenant_id client.id (first_row t c) ≡ true
    → Traced history client
    → Traced (history ++ first_row t c ∷ []) client
Traced-first t c history client fresh is traced =
    let tenant : t ≡ client.tenant_id =
      ground (arith, eq_iff t client.tenant_id, eq_iff c client.id) in
    let id : c ≡ client.id = ground (arith, eq_iff t client.tenant_id, eq_iff c client.id) in
    let empty = follow-unchanged t c pending_invite history fresh in
    let empty' : follow client.tenant_id client.id pending_invite history ≡ some pending_invite =
      rw (← tenant, ← id) empty in
    let now : pending_invite ≡ current_status client = cc in
    rw (← now) (
      follow-own client.tenant_id client.id pending_invite pending_invite history (first_row t c) is
        (same_status_refl pending_invite) empty')

IsStart-IsAudited : {s u : Store} → IsAudited s → IsStart s u → IsAudited u
IsStart-IsAudited {s} audited i =
    let row = first_row i.tenant_id i.client_id in
    rw (← i.result) (
      All-map (Traced s.history) (Traced (s.history ++ row ∷ [])) s.clients
        (λ c traced. elim (Bool-cases (is_change_of c.tenant_id c.id row)) [
          | inl is ↦ Traced-first i.tenant_id i.client_id s.history c i.fresh is traced
          | inr other ↦ Traced-other s.history row c other traced
        ])
        audited)

Step-IsAudited : (s u : Store) → HasKeys s → IsAudited s → Step s u → IsAudited u
Step-IsAudited s u keys audited (stay e) = rw (← e) audited
Step-IsAudited s u keys audited (moves m) = IsMove-IsAudited keys audited m
Step-IsAudited s u keys audited (starts i) = IsStart-IsAudited audited i

-- From a store whose clients have different ids and whose history leads, for each client, from
-- pending to its status, row by row, every sequence of operations leaves such a store: the audit
-- history always replays to the current status.
pub run_all-IsAudited :
    (ops : List Op) (s : Store) → HasKeys s → IsAudited s → IsAudited (run_all ops s)
run_all-IsAudited ops s keys audited =
    (run_all-induction (λ u. HasKeys u × IsAudited u)
      (λ u v (k, a) step. ((Step-Advances u v k step).0, Step-IsAudited u v k a step)) ops s
      (keys, audited)).1
