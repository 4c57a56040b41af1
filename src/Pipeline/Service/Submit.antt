-- ===== src/Pipeline/Service/Submit.antt =====
-- The batch that marks clients as submitted.
use mtd_backend.Common.{
  String, true, false, none, List, [], ◌∷◌, ◌≡◌, ◌≤◌, sym, ◌∙◌, inl, inr, ◌⊎◌, arith, ◌===◌, eq_iff,
  Option-cases, All, All-map, All-update, All-false_of_find, find, find-true, Pointwise,
}
use mtd_backend.Clients.{Client}
use mtd_backend.Pipeline.Status.{PipelineStatus, submitted, pipeline_status_rank}
use mtd_backend.Pipeline.Service.{
  system, Store, is_client, current_status, moved, keep, move, decide, transition, mark_submitted,
  mark_submitted_many,
}
use mtd_backend.Pipeline.Service.Steps.{submitted_op, run, run-Step, then_pure}
use mtd_backend.Pipeline.Service.Forward.{
  HasKeys, Advances, Step-Advances, same_id, current_status-moved,
}

-- The live client of the firm with this id, if there is one, is submitted.
abbrev pub IsDone : String → String → List Client → Type 0
IsDone t id clients = All (λ c. is_client t id c ≡ true → current_status c ≡ submitted) clients

decide-submitted :
    (status : PipelineStatus)
    → ((decide system status submitted ≡ keep) × (status ≡ submitted))
      ⊎ (decide system status submitted ≡ move)
unfolding decide
decide-submitted status = ground arith

stays_submitted :
    (t id : String) (x y : Client)
    → (is_client t id x ≡ true → current_status x ≡ submitted)
    → Advances x y
    → is_client t id y ≡ true
    → current_status y ≡ submitted
unfolding pipeline_status_rank
stays_submitted t id x y d (i, tn, dl, up) is =
    let same : is_client t id x ≡ true = rw (← i, ← tn, ← dl) is in
    let done : current_status x ≡ submitted = d same in
    let high : 5 ≤ pipeline_status_rank (current_status y) = rw done at up in ground arith

IsDone-Advances :
    (t id : String) (xs ys : List Client)
    → IsDone t id xs
    → Pointwise Advances xs ys
    → IsDone t id ys
IsDone-Advances t id [] [] d p = tt
IsDone-Advances t id (x ∷ xs) (y ∷ ys) (d, ds) ((i, tn, dl, up), ps) =
    (stays_submitted t id x y d (i, tn, dl, up), IsDone-Advances t id xs ys ds ps)
IsDone-Advances t id [] (y ∷ ys) d p = elim p [ ]
IsDone-Advances t id (x ∷ xs) [] d p = elim p [ ]

id_of_client : (t id : String) (c : Client) → is_client t id c ≡ true → c.id ≡ id
id_of_client t id c h = (eq_iff c.id id).0 (ground arith)

module _ (t id : String) (client : Client) (is : is_client t id client ≡ true) where
  done_of_same :
      (c : Client)
      → (c.id ≡ client.id → c ≡ client)
      → current_status client ≡ submitted
      → is_client t id c ≡ true
      → current_status c ≡ submitted
  done_of_same c same done h =
      rw (same (id_of_client t id c h ∙ sym (id_of_client t id client is))) done

  not_apart : (c : Client) → (c.id === client.id) ≡ false → is_client t id c ≡ true → ⊥
  not_apart c apart h =
      let equal : c.id ≡ client.id = id_of_client t id c h ∙ sym (id_of_client t id client is) in
      ground (arith, eq_iff c.id client.id)

transition-IsDone :
    (t id : String) (s : Store)
    → HasKeys s
    → IsDone t id (transition t id submitted system none s).1.clients
unfolding transition
transition-IsDone t id s keys = elim (Option-cases (find (is_client t id) s.clients)) [
  | inl missing ↦ rw missing (
      All-map (λ c. is_client t id c ≡ false)
        (λ c. is_client t id c ≡ true → current_status c ≡ submitted) s.clients (λ c f p. cc)
        (All-false_of_find (is_client t id) s.clients missing))
  | inr (client, found) ↦
      let same = same_id t id s.clients client keys found in
      let is = find-true (is_client t id) s.clients client found in
      elim (decide-submitted (current_status client)) [
        | inl (kept, done) ↦
            rw (found, kept)
              (All-map (λ c. c.id ≡ client.id → c ≡ client)
                (λ c. is_client t id c ≡ true → current_status c ≡ submitted) s.clients
                (λ c eq h. done_of_same t id client is c eq done h) same)
        | inr moves ↦
            rw (found, moves)
              (All-update (λ c. c.id ≡ client.id → c ≡ client)
                (λ c. is_client t id c ≡ true → current_status c ≡ submitted)
                (λ c. c.id === client.id) (moved submitted) s.clients
                (λ c eq e h. current_status-moved submitted c)
                (λ c eq e h. absurd (not_apart t id client is c e h)) same)
      ]
]

mark_submitted-IsDone :
    (t id : String) (s : Store) → HasKeys s → IsDone t id (mark_submitted t id s).1.clients
unfolding mark_submitted
mark_submitted-IsDone t id s keys = rw (then_pure t id) (transition-IsDone t id s keys)

mark_submitted-Advances :
    (t id : String) (s : Store)
    → HasKeys s
    → HasKeys (mark_submitted t id s).1
      × Pointwise Advances s.clients (mark_submitted t id s).1.clients
unfolding run
mark_submitted-Advances t id s keys =
    Step-Advances s (run (submitted_op t id) s) keys (run-Step (submitted_op t id) s)

many-IsDone :
    (t id : String) (ids : List String) (s : Store)
    → HasKeys s
    → IsDone t id s.clients
    → IsDone t id (mark_submitted_many t ids s).clients
unfolding mark_submitted_many
many-IsDone t id [] s keys d = d
many-IsDone t id (i ∷ ids) s keys d =
    let (keys', up) = mark_submitted-Advances t i s keys in
    many-IsDone t id ids (mark_submitted t i s).1 keys'
      (IsDone-Advances t id s.clients (mark_submitted t i s).1.clients d up)

-- The batch leaves every live client of the firm whose id is listed submitted, whatever happened
-- to the others, from a store whose clients have different ids.
pub mark_submitted_many-IsDone :
    (t : String) (ids : List String) (s : Store)
    → HasKeys s
    → All (λ id. IsDone t id (mark_submitted_many t ids s).clients) ids
unfolding mark_submitted_many
mark_submitted_many-IsDone t [] s keys = tt
mark_submitted_many-IsDone t (i ∷ ids) s keys =
    let (keys', _) = mark_submitted-Advances t i s keys in
    (
      many-IsDone t i ids (mark_submitted t i s).1 keys' (mark_submitted-IsDone t i s keys),
      mark_submitted_many-IsDone t ids (mark_submitted t i s).1 keys',
    )
