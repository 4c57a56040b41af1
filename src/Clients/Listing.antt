-- ===== src/Clients/Listing.antt =====
-- src/modules/clients/clients.service.ts: the lists of clients, which are brought up to date from
-- HMRC first, and the checks of one client.
pub mod Authorised
pub mod Sent
pub mod Requests
pub mod Gate
use mtd_backend.Common.{
  ℕ, suc, ◌+◌, ◌-◌, ◌*◌, String, Bool, true, false, Option, none, some, List, [], ◌∷◌, ◌++◌, not,
  ◌&&◌, ◌||◌, ◌===◌, is_some, is_text, present, truthy, get_or, find, find_all, length, min, max,
  page_at, total_pages, if◌then◌else◌, HttpError, Result, ok, err, Exec, pure, throw, gets, require,
  modify, throw_if, attempt, lift, ◌>>=◌, ◌>>◌,
}
use mtd_backend.Clients.{Client}
use mtd_backend.Clients.Scope.{ClientsDb, in_hmrc, staff_client_where, find_one}
use mtd_backend.Clients.Agents.{Services, is_accepted, needs_hmrc_status_sync, is_over}
use mtd_backend.Clients.Invitations.{sync_relationship_from_hmrc, sync_one_invitation_from_hmrc}
use mtd_backend.Hmrc.Connections.{HmrcConnection, get_status, get_valid_access_token}
use mtd_backend.Portal.{Viewer}

pub data StatusFilter : Type 0 where
  all pending filed invite_accepted partial_auth rejected expired : StatusFilter

abbrev pub passes : StatusFilter → Client → Bool
passes StatusFilter.all c = true
passes pending c = c.invitation_status === "pending"
passes filed c = is_some c.authorised_at
passes invite_accepted c = c.invitation_status === "accepted"
passes partial_auth c = c.invitation_status === "partial-auth"
passes StatusFilter.rejected c = c.invitation_status === "rejected"
passes StatusFilter.expired c =
    (c.invitation_status === "expired")
    || ((c.invitation_status === "cancelled") || (c.invitation_status === "deauthorised"))

-- The query, with the defaults filled in; the texts are trimmed and in lower case.
pub record ListClientsQuery : Type 0 where
  pub page : ℕ
  pub limit : ℕ
  pub status : StatusFilter
  pub search : String
  pub agent_type : String

pub record ClientPage : Type 0 where
  pub clients : List Client
  pub total : ℕ
  pub page : ℕ
  pub total_pages : ℕ

-- A token of the firm if there is an agent's reference; an error is logged.
pub data Access : Type 0 where
  no_access : Access
  access : String → String → Access

abbrev pub is_missing_relationship : Client → Bool
is_missing_relationship c = is_accepted c.invitation_status && not (is_some c.authorised_at)

abbrev pub no_invitation : HttpError
no_invitation = HttpError.bad_request "No invitation ID on this client record."

abbrev pub not_authorised : HttpError
not_authorised =
    HttpError.bad_request
      "This client has not authorised your firm for MTD yet. Wait for them to accept the HMRC invitation, then refresh relationship status."

-- `a.includes(b)` and `toLowerCase` of JavaScript.
pub record Texts : Type 0 where
  pub includes : String → String → Bool
  pub lower : String → String

abbrev pub is_listed : String → Option Viewer → StatusFilter → Client → Bool
is_listed tenant_id viewer filter c = staff_client_where tenant_id viewer true c && passes filter c

abbrev pub is_searched : Texts → ListClientsQuery → Client → Bool
is_searched tx query c =
    (if truthy query.search
      then tx.includes (tx.lower c.name) query.search || tx.includes (tx.lower c.nino) query.search
      else true)
    && (if (query.agent_type === "main") || (query.agent_type === "supporting")
        then tx.lower c.agent_type === query.agent_type
        else true)

abbrev pub client_page : ListClientsQuery → List Client → ClientPage
client_page query clients = record {
  clients = page_at query.page query.limit clients;
  total = length clients;
  page = min query.page (total_pages query.limit clients);
  total_pages = total_pages query.limit clients;
}

abbrev pub is_in_panel : String → Option Viewer → Client → Bool
is_in_panel tenant_id viewer c =
    staff_client_where tenant_id viewer true c
    && (not (is_some c.authorised_at) || is_over c.invitation_status)

module _ (sv : Services) (now : ℕ) where
  abbrev token_result :
      String → Result String × List HmrcConnection → Result Access × List HmrcConnection
  token_result arn (ok token, s) = (ok (access arn token), s)
  token_result arn (err e, s) = (ok no_access, s)

  pub access_of : String → Option HmrcConnection → Exec (List HmrcConnection) Access
  access_of tenant_id none s = (ok no_access, s)
  access_of tenant_id (some c) s =
      if present c.arn
      then token_result (get_or c.arn "") (get_valid_access_token sv.hmrc now tenant_id s)
      else (ok no_access, s)

  unfoldable pub try_access : String → Exec ClientsDb Access
  unfolding access_of
  try_access tenant_id = do
    connection ← in_hmrc (get_status sv.hmrc now tenant_id)
    in_hmrc (access_of tenant_id connection)

  -- `Promise.allSettled`: the calls are made in the order of the list, and errors are dropped.
  unfoldable pub sync_all :
      (Client → String → String → Exec ClientsDb Unit) → List Client → Access → Exec ClientsDb Unit
  sync_all sync clients no_access = pure tt
  sync_all sync [] (access arn token) = pure tt
  sync_all sync (c ∷ clients) (access arn token) = do
    attempt (sync c arn token)
    sync_all sync clients (access arn token)

  unfoldable pub sync_some :
      String → (Client → String → String → Exec ClientsDb Unit) → List Client → Exec ClientsDb Unit
  unfolding try_access sync_all
  sync_some tenant_id sync [] = pure tt
  sync_some tenant_id sync (c ∷ clients) = do
    found ← try_access tenant_id
    sync_all sync (c ∷ clients) found

  unfoldable pub sync_invitation_statuses_from_hmrc : String → List Client → Exec ClientsDb Unit
  unfolding sync_some
  sync_invitation_statuses_from_hmrc tenant_id clients =
      sync_some tenant_id (sync_one_invitation_from_hmrc sv now)
        (find_all needs_hmrc_status_sync clients)

  unfoldable pub sync_relationships_from_hmrc : String → List Client → Exec ClientsDb Unit
  unfolding sync_some
  sync_relationships_from_hmrc tenant_id clients =
      sync_some tenant_id (sync_relationship_from_hmrc sv now)
        (find_all is_missing_relationship clients)

  -- The businesses and their chases are left out. The order is the one of the table.
  unfoldable pub find_all_clients :
      Texts → String → ListClientsQuery → Option Viewer → Exec ClientsDb ClientPage
  unfolding sync_invitation_statuses_from_hmrc sync_relationships_from_hmrc
  find_all_clients tx tenant_id query viewer = do
    stale ← gets (λ s. find_all (is_listed tenant_id viewer query.status) s.portal.clients)
    sync_invitation_statuses_from_hmrc tenant_id stale
    sync_relationships_from_hmrc tenant_id stale
    gets (λ s. client_page query (
        find_all (is_searched tx query)
          (find_all (is_listed tenant_id viewer query.status) s.portal.clients)))

  unfoldable pub find_outstanding_invitations :
      String → Option Viewer → Exec ClientsDb (List Client)
  unfolding sync_invitation_statuses_from_hmrc
  find_outstanding_invitations tenant_id viewer = do
    clients ← gets (λ s. find_all (is_listed tenant_id viewer pending) s.portal.clients)
    sync_invitation_statuses_from_hmrc tenant_id (find_all (λ c. present c.invitation_id) clients)
    gets (λ s.
        find_all (λ c. present c.invitation_id)
          (find_all (is_listed tenant_id viewer pending) s.portal.clients))

  unfoldable pub find_invitation_panel_clients :
      String → Option Viewer → Exec ClientsDb (List Client)
  unfolding sync_invitation_statuses_from_hmrc sync_relationships_from_hmrc
  find_invitation_panel_clients tenant_id viewer = do
    clients ← gets (λ s. find_all (is_in_panel tenant_id viewer) s.portal.clients)
    sync_invitation_statuses_from_hmrc tenant_id clients
    sync_relationships_from_hmrc tenant_id clients
    gets (λ s. find_all (is_in_panel tenant_id viewer) s.portal.clients)

  pub verify_with : String → Client → Access → Exec ClientsDb Client
  verify_with tenant_id client no_access = pure client
  verify_with tenant_id client (access arn token) = do
    sync_relationship_from_hmrc sv now client arn token
    find_one tenant_id client.id none

  unfoldable pub verify_and_persist_relationship : String → Client → Exec ClientsDb Client
  unfolding verify_with try_access
  verify_and_persist_relationship tenant_id client =
      if is_accepted client.invitation_status
      then (do found ← try_access tenant_id; verify_with tenant_id client found)
      else pure client

  unfoldable pub arn_of : Option HmrcConnection → Exec ClientsDb String
  arn_of none = throw (HttpError.bad_request "ARN not set — cannot check invitation status.")
  arn_of (some c) =
      if present c.arn
      then pure (get_or c.arn "")
      else throw (HttpError.bad_request "ARN not set — cannot check invitation status.")

  -- `catch (err) { throw new InternalServerErrorException(…) }`
  abbrev pub rethrown : Result (Unit {0}) × ClientsDb → Result (Unit {0}) × ClientsDb
  rethrown (ok a, s) = (ok a, s)
  rethrown (err e, s) = (err (HttpError.internal "Failed to check invitation status with HMRC."), s)

  unfoldable pub check_invitation_status : String → String → Exec ClientsDb Client
  unfolding arn_of verify_and_persist_relationship
  check_invitation_status tenant_id id = do
    client ← find_one tenant_id id none
    throw_if (not (present client.invitation_id)) no_invitation
    connection ← in_hmrc (get_status sv.hmrc now tenant_id)
    arn ← arn_of connection
    token ← in_hmrc (get_valid_access_token sv.hmrc now tenant_id)
    (λ s. rethrown (sync_one_invitation_from_hmrc sv now client arn token s))
    refreshed ← find_one tenant_id id none
    verify_and_persist_relationship tenant_id refreshed

  unfoldable pub check_relationship_status : String → String → Exec ClientsDb Client
  unfolding verify_and_persist_relationship
  check_relationship_status tenant_id id = do
    client ← find_one tenant_id id none
    verify_and_persist_relationship tenant_id client

  unfoldable pub ensure_client_authorised_for_mtd : String → String → Exec ClientsDb Client
  unfolding check_relationship_status
  ensure_client_authorised_for_mtd tenant_id client_id = do
    client ← check_relationship_status tenant_id client_id
    throw_if (not (is_some client.authorised_at)) not_authorised
    pure client
