-- ===== src/Clients/Invitations/Confirmed.antt =====
-- Every client that counts as authorised was confirmed by HMRC.
use mtd_backend.Common.{
  ℕ, String, Bool, true, none, some, List, [], ◌∷◌, ◌≡◌, inl, inr, ◌∙◌, refl, sym, not, ◌&&◌, ◌||◌,
  ◌==◌, ◌===◌, eq_iff, is_some, truthy, update, All, Bool-cases, arith, HttpError, pure, throw,
  modify, Keeps, Keeps-bind, Keeps-if,
}
use mtd_backend.Clients.{Client}
use mtd_backend.Clients.Scope.{ClientsDb}
use mtd_backend.Clients.Records.{has_id, change_client}
use mtd_backend.Clients.Agents.{AgentApi, Services, StatusReply, is_active, is_accepted}
use mtd_backend.Clients.Invitations.{
  sync_relationship_from_hmrc, sync_one_invitation_from_hmrc, use_reply, save_status, after_status,
  notify_once, normalize_hmrc_invitation_status,
}
use mtd_backend.Pipeline.Service.{Store, moved}
use mtd_backend.Pipeline.Service.Steps.{Step, stay, moves, starts, run, run-Step, not_started_op}

-- A row is confirmed if it is not authorised, or HMRC has answered 204 for the client of that id.
pub data IsConfirmed (api : AgentApi) (c : Client) : Type 0 where
  open_ : c.authorised_at ≡ none → IsConfirmed api c
  confirmed :
      (arn token : String) (d : Client)
      → d.id ≡ c.id
      → is_active (api.relationship_call arn token d) ≡ true
      → IsConfirmed api c

abbrev pub AllConfirmed : AgentApi → ClientsDb → Type 0
AllConfirmed api s = All (IsConfirmed api) s.portal.clients

-- A change that leaves the id and the date of the authorisation.
pub same-IsConfirmed :
    (api : AgentApi) (c d : Client)
    → d.id ≡ c.id
    → d.authorised_at ≡ c.authorised_at
    → IsConfirmed api c
    → IsConfirmed api d
same-IsConfirmed api c d same at (open_ e) = open_ (at ∙ e)
same-IsConfirmed api c d same at (confirmed arn token x e call) =
    confirmed arn token x (e ∙ sym same) call

pub update-AllConfirmed :
    (api : AgentApi) (p : Client → Bool) (f : Client → Client) (xs : List Client)
    → ((c : Client) → p c ≡ true → IsConfirmed api c → IsConfirmed api (f c))
    → All (IsConfirmed api) xs
    → All (IsConfirmed api) (update p f xs)
unfolding update
update-AllConfirmed api p f [] h all = tt
update-AllConfirmed api p f (c ∷ xs) h (here, all) = elim (Bool-cases (p c)) [
  | inl e ↦ rw e (h c e here, update-AllConfirmed api p f xs h all)
  | inr e ↦ rw e (here, update-AllConfirmed api p f xs h all)
]

pub Step-Confirmed :
    (api : AgentApi) (s u : Store)
    → All (IsConfirmed api) s.clients
    → Step s u
    → All (IsConfirmed api) u.clients
unfolding moved
Step-Confirmed api s u h (stay e) = rw (← e) h
Step-Confirmed api s u h (moves m) = rw (← m.result) (
    update-AllConfirmed api (λ c. c.id === m.client.id) (moved m.to_status) s.clients
      (λ c _ k. same-IsConfirmed api c (moved m.to_status c) refl refl k) h)
Step-Confirmed api s u h (starts m) = rw (← m.result) h

module _ (sv : Services) (now : ℕ) where
  pub sync_relationship-Confirmed :
      (client : Client) (arn token : String)
      → Keeps (AllConfirmed sv.api) (sync_relationship_from_hmrc sv now client arn token)
  unfolding sync_relationship_from_hmrc run
  sync_relationship-Confirmed client arn token s h =
      elim (Bool-cases (
        is_active (sv.api.relationship_call arn token client)
        && not (is_some client.authorised_at))) [
          | inr e ↦ rw e h
          | inl e ↦ rw e (
              Step-Confirmed sv.api _ _
                (update-AllConfirmed sv.api (has_id client.id)
                  (λ c. record c { authorised_at = some now }) s.portal.clients
                  (λ c own k.
                    confirmed arn token client (sym ((eq_iff c.id client.id).0 own)) (ground arith))
                  h)
                (run-Step (not_started_op client.tenant_id client.id) _))
        ]

  notify_once-clients :
      (client : Client) (s : ClientsDb) → (notify_once sv now client s).portal ≡ s.portal
  unfolding notify_once
  notify_once-clients client s = ground arith

  after_status-Confirmed :
      (client : Client) (text arn token : String)
      → Keeps (AllConfirmed sv.api) (after_status sv now client text arn token)
  unfolding after_status
  after_status-Confirmed client text arn token s h = elim (Bool-cases (is_accepted text)) [
    | inr e ↦ rw e h
    | inl e ↦ rw e (
        Keeps-bind (AllConfirmed sv.api)
          (sync_relationship_from_hmrc sv now (record client { invitation_status = text }) arn
            token)
          (λ _. modify (notify_once sv now client))
          (sync_relationship-Confirmed (record client { invitation_status = text }) arn token)
          (λ _ u k. rw (notify_once-clients client u) k) s h)
  ]

  with_status-Confirmed :
      (id text : String) (s : ClientsDb)
      → AllConfirmed sv.api s
      → AllConfirmed sv.api (change_client id (λ c. record c { invitation_status = text }) s)
  with_status-Confirmed id text s h =
      update-AllConfirmed sv.api (has_id id) (λ c. record c { invitation_status = text })
        s.portal.clients
        (λ c _ k. same-IsConfirmed sv.api c (record c { invitation_status = text }) refl refl k) h

  save_status-Confirmed :
      (client : Client) (text arn token : String)
      → Keeps (AllConfirmed sv.api) (save_status sv now client text arn token)
  unfolding save_status
  save_status-Confirmed client text arn token s h = elim (Bool-cases (truthy text)) [
    | inr e ↦ rw e h
    | inl e ↦ rw e (
        after_status-Confirmed client text arn token
          (change_client client.id (λ c. record c { invitation_status = text }) s)
          (with_status-Confirmed client.id text s h))
  ]

  use_reply-Confirmed :
      (client : Client) (arn token : String) (r : StatusReply)
      → Keeps (AllConfirmed sv.api) (use_reply sv now client arn token r)
  unfolding use_reply
  use_reply-Confirmed client arn token StatusReply.unreachable = λ s h. h
  use_reply-Confirmed client arn token (StatusReply.refused code) =
      Keeps-if (AllConfirmed sv.api) (code == 403 || code == 404) (pure tt)
        (throw (HttpError.internal "HMRC returned an error")) (λ s h. h) (λ s h. h)
  use_reply-Confirmed client arn token StatusReply.not_json = λ s h. h
  use_reply-Confirmed client arn token (StatusReply.status_text text) =
      save_status-Confirmed client (normalize_hmrc_invitation_status sv now text) arn token

  pub sync_one-Confirmed :
      (client : Client) (arn token : String)
      → Keeps (AllConfirmed sv.api) (sync_one_invitation_from_hmrc sv now client arn token)
  unfolding sync_one_invitation_from_hmrc
  sync_one-Confirmed client arn token =
      use_reply-Confirmed client arn token (sv.api.status_call arn token client.invitation_id)
