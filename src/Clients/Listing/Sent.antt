-- ===== src/Clients/Listing/Sent.antt =====
-- What the requests that send an invitation keep: no client becomes authorised.
use mtd_backend.Common.{
  Keeps, continue-Keeps, Keeps-require, Keeps-throw_if, ℕ, String, Bool, Option, none, some, List,
  [], ◌∷◌, ◌++◌, ◌≡◌, refl, inl, inr, not, ◌&&◌, ◌===◌, is_some, present, find, any, All,
  Bool-cases, arith, require, throw_if,
}
use mtd_backend.Clients.{Client}
use mtd_backend.Clients.Scope.{ClientsDb, find_one, in_hmrc, in_pipeline}
use mtd_backend.Clients.Records.{has_id}
use mtd_backend.Clients.Customers.{has_nino, is_with_nino, insert_client}
use mtd_backend.Clients.Agents.{
  Services, not_connected, no_arn, CreateClientDto, is_over, nino_taken, already, waiting,
}
use mtd_backend.Clients.Invitations.{
  invitation_id_of, agent_access, create, resend_invitation, send_hmrc_invitation_for_client,
  save_invitation, invited, new_client,
}
use mtd_backend.Clients.Invitations.Confirmed.{
  Step-Confirmed, IsConfirmed, open_, AllConfirmed, update-AllConfirmed, same-IsConfirmed,
}
use mtd_backend.Clients.Listing.Authorised.{find_one-Confirmed}
use mtd_backend.Pipeline.Service.{record_initial_status}
use mtd_backend.Pipeline.Service.Steps.{run, run-Step, initial_status}
use mtd_backend.Hmrc.Connections.{is_connected, get_status, get_valid_access_token}
use mtd_backend.Portal.{PortalDb}
use mtd_backend.Portal.Accounts.{create_and_invite}

abbrev is_waiting : Client → Bool
is_waiting client = present client.invitation_id && not (is_over client.invitation_status)

module _ (sv : Services) (now : ℕ) where
  abbrev P : ClientsDb → Type 0
  P = AllConfirmed sv.api

  agent_access-Confirmed : (tenant_id : String) → Keeps P (agent_access sv now tenant_id)
  unfolding agent_access
  agent_access-Confirmed tenant_id s h =
      continue-Keeps P (in_hmrc (get_status sv.hmrc now tenant_id) s) _ h (λ connection s1 h1.
        continue-Keeps P (require connection not_connected s1) _
          (Keeps-require P connection not_connected s1 h1)
          (λ c s2 h2.
            continue-Keeps P (throw_if (not (is_connected c.status)) not_connected s2) _
              (Keeps-throw_if P (not (is_connected c.status)) not_connected s2 h2)
              (λ _ s3 h3.
                continue-Keeps P (throw_if (not (present c.arn)) no_arn s3) _
                  (Keeps-throw_if P (not (present c.arn)) no_arn s3 h3)
                  (λ _ s4 h4.
                    continue-Keeps P (in_hmrc (get_valid_access_token sv.hmrc now tenant_id) s4) _
                      h4 (λ token s5 h5. h5)))))

  save_invitation-Confirmed :
      (client : Client) (id : Option String) → Keeps P (save_invitation sv now client id)
  unfolding save_invitation
  save_invitation-Confirmed client none s h = h
  save_invitation-Confirmed client (some id) s h =
      update-AllConfirmed sv.api (has_id client.id) (invited sv now id) s.portal.clients
        (λ c _ k. same-IsConfirmed sv.api c (invited sv now id c) refl refl k) h

  pub send-Confirmed :
      (client : Client) (arn token : String)
      → Keeps P (send_hmrc_invitation_for_client sv now client arn token)
  unfolding send_hmrc_invitation_for_client
  send-Confirmed client arn token =
      save_invitation-Confirmed client
        (invitation_id_of sv now (sv.api.invitation_call arn token client))

  append-Confirmed :
      (c : Client) (xs : List Client)
      → c.authorised_at ≡ none
      → All (IsConfirmed sv.api) xs
      → All (IsConfirmed sv.api) (xs ++ (c ∷ []))
  append-Confirmed c [] e h = (open_ e, tt)
  append-Confirmed c (x ∷ xs) e (own, h) = (own, append-Confirmed c xs e h)

  insert_client-Confirmed : (c : Client) → c.authorised_at ≡ none → Keeps P (insert_client c)
  unfolding insert_client
  insert_client-Confirmed c e s h =
      elim (Bool-cases (any (has_nino c.tenant_id c.nino_hash) s.portal.clients)) [
        | inl taken ↦ rw taken h
        | inr free ↦ rw free (append-Confirmed c s.portal.clients e h)
      ]

  invite-clients :
      (id token tenant_id client_id email : String) (p : PortalDb)
      → (create_and_invite sv.portal now id token tenant_id client_id email p).1.clients ≡ p.clients
  unfolding create_and_invite
  invite-clients id token tenant_id client_id email p = ground arith

  initial-Confirmed :
      (tenant_id id : String) (s : ClientsDb)
      → P s
      → P (in_pipeline (record_initial_status tenant_id id) s).1
  unfolding run
  initial-Confirmed tenant_id id s h = Step-Confirmed sv.api _ _ h (
      run-Step (initial_status tenant_id id)
        (record { clients = s.portal.clients; history = s.history }))

  -- What `create` does with the tables once the firm's access is known.
  pub create-Confirmed :
      (id user_id link tenant_id : String) (dto : CreateClientDto)
      → Keeps P (create sv now id user_id link tenant_id dto)
  unfolding create
  create-Confirmed id user_id link tenant_id dto s h =
      continue-Keeps P (agent_access sv now tenant_id s) _ (agent_access-Confirmed tenant_id s h)
        (λ a s1 h1.
          continue-Keeps P (throw_if (is_some (existing s1)) nino_taken s1) _
            (Keeps-throw_if P (is_some (existing s1)) nino_taken s1 h1)
            (λ _ s2 h2.
              continue-Keeps P (insert_client (new_client sv now id tenant_id dto) s2) _
                (insert_client-Confirmed (new_client sv now id tenant_id dto) refl s2 h2)
                (λ _ s3 h3. send-Confirmed (new_client sv now id tenant_id dto) a.0 a.1 _ (
                  rw
                    (invite-clients user_id link tenant_id id dto.email
                      (in_pipeline (record_initial_status tenant_id id) s3).1.portal)
                    (initial-Confirmed tenant_id id s3 h3)))))
    where
      existing : ClientsDb → Option Client
      existing u =
          find (is_with_nino tenant_id (sv.api.pii_hash (sv.api.clean_nino dto.nino)))
            u.portal.clients

  pub resend-Confirmed :
      (tenant_id client_id : String) → Keeps P (resend_invitation sv now tenant_id client_id)
  unfolding resend_invitation
  resend-Confirmed tenant_id client_id s h =
      continue-Keeps P (find_one tenant_id client_id none s) _
        (find_one-Confirmed sv now tenant_id client_id none s h)
        (λ client s1 h1.
          continue-Keeps P (throw_if (client.invitation_status === "accepted") already s1) _
            (Keeps-throw_if P (client.invitation_status === "accepted") already s1 h1)
            (λ _ s2 h2.
              continue-Keeps P (agent_access sv now tenant_id s2) _
                (agent_access-Confirmed tenant_id s2 h2)
                (λ a s3 h3.
                  continue-Keeps P (throw_if (is_waiting client) waiting s3) _
                    (Keeps-throw_if P (is_waiting client) waiting s3 h3)
                    (λ _ s4 h4. send-Confirmed client a.0 a.1 s4 h4))))
