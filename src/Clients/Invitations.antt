-- ===== src/Clients/Invitations.antt =====
-- src/modules/clients/clients.service.ts: the invitation of a client through HMRC, and what HMRC
-- says of it. The mails, the texts of warnings and the businesses of a client are left out.
pub mod Confirmed
use mtd_backend.Common.{
  ℕ, ◌+◌, ◌*◌, String, Bool, true, false, Option, none, some, List, [], ◌∷◌, ◌++◌, not, ◌&&◌, ◌||◌,
  ◌==◌, ◌===◌, is_some, present, truthy, get_or, find, find_all, update, any, if◌then◌else◌,
  HttpError, Result, ok, err, Exec, pure, throw, gets, require, modify, throw_if, attempt, lift,
  ◌>>=◌, ◌>>◌,
}
use mtd_backend.Clients.{Client}
use mtd_backend.Clients.Agents.{
  InvitationReply, StatusReply, RelationshipReply, AgentApi, Services, CreateClientDto,
  CreateClientResult, not_connected, no_arn, nino_taken, already, waiting, is_terminal, is_accepted,
  needs_hmrc_status_sync, is_over, is_active, unreachable, refused, created, not_json, status_text,
  answered,
}
use mtd_backend.Clients.Scope.{
  AppNotification, ClientsDb, in_portal, in_pipeline, in_hmrc, with_clients, find_one,
}
use mtd_backend.Clients.Records.{change_client}
use mtd_backend.Clients.Customers.{has_nino, is_with_nino, insert_client}
use mtd_backend.Hmrc.Connections.{
  HmrcConnection, HmrcServices, is_connected, get_status, get_valid_access_token,
}
use mtd_backend.Pipeline.Service.{record_initial_status, mark_not_started}
use mtd_backend.Portal.{PortalServices}
use mtd_backend.Portal.Accounts.{create_and_invite}

abbrev pub invitation_expiry_ms : ℕ
invitation_expiry_ms = 21 * 24 * 60 * 60 * 1000

module _ (sv : Services) (now : ℕ) where
  unfoldable pub normalize_hmrc_invitation_status : String → String
  normalize_hmrc_invitation_status raw =
      let s = sv.api.dashed raw in
      if (s === "partialauth")
        || ((s === "partial-authorisation") || (s === "partialauthorisation"))
      then "partial-auth"
      else s

  -- The arn and a token, of a firm that is connected.
  unfoldable pub agent_access : String → Exec ClientsDb (String × String)
  agent_access tenant_id = do
    connection ← in_hmrc (get_status sv.hmrc now tenant_id)
    c ← require connection not_connected
    throw_if (not (is_connected c.status)) not_connected
    throw_if (not (present c.arn)) no_arn
    token ← in_hmrc (get_valid_access_token sv.hmrc now tenant_id)
    pure (get_or c.arn "", token)

  -- `none` stands for an error that is thrown.
  unfoldable pub invitation_id_of : InvitationReply → Option String
  invitation_id_of (created location) =
      if truthy (sv.api.last_part location) then some (sv.api.last_part location) else none
  invitation_id_of _ = none

  abbrev pub invited : String → Client → Client
  invited invitation_id c = record c {
    invitation_id = some invitation_id;
    invitation_sent_at = some now;
    invitation_expires_at = some (now + invitation_expiry_ms);
    invitation_status = "pending";
  }

  unfoldable pub save_invitation : Client → Option String → Exec ClientsDb CreateClientResult
  save_invitation client none = pure (record { client = client; invitation_sent = false })
  save_invitation client (some id) = do
    modify (change_client client.id (invited id))
    pure (record { client = invited id client; invitation_sent = true })

  unfoldable pub send_hmrc_invitation_for_client :
      Client → String → String → Exec ClientsDb CreateClientResult
  unfolding save_invitation invitation_id_of
  send_hmrc_invitation_for_client client arn token =
      save_invitation client (invitation_id_of (sv.api.invitation_call arn token client))

  abbrev pub new_client : String → String → CreateClientDto → Client
  new_client id tenant_id dto = record {
    id = id;
    tenant_id = tenant_id;
    name = dto.name;
    preferred_name = none;
    nino = sv.api.clean_nino dto.nino;
    nino_hash = sv.api.pii_hash (sv.api.clean_nino dto.nino);
    postcode = sv.api.clean_postcode dto.postcode;
    email = dto.email;
    phone = dto.phone;
    utr = dto.utr;
    agent_type = get_or dto.agent_type "main";
    invitation_id = none;
    invitation_status = "pending";
    invitation_sent_at = none;
    invitation_expires_at = none;
    authorised_at = none;
    pipeline_status = "pending-invite";
    workflow_type = none;
    assigned_to_user_id = none;
    portal_only = false;
    deleted_at = none;
  }

  -- The invitation to the portal is not waited for in the source; here it comes before HMRC's.
  unfoldable pub create :
      String → String → String → String → CreateClientDto → Exec ClientsDb CreateClientResult
  unfolding agent_access insert_client send_hmrc_invitation_for_client
  create id user_id link tenant_id dto = do
    access ← agent_access tenant_id
    existing ← gets (λ s.
        find (is_with_nino tenant_id (sv.api.pii_hash (sv.api.clean_nino dto.nino)))
          s.portal.clients)
    throw_if (is_some existing) nino_taken
    insert_client (new_client id tenant_id dto)
    attempt (in_pipeline (record_initial_status tenant_id id))
    attempt (in_portal (create_and_invite sv.portal now user_id link tenant_id id dto.email))
    send_hmrc_invitation_for_client (new_client id tenant_id dto) access.0 access.1

  unfoldable pub resend_invitation : String → String → Exec ClientsDb CreateClientResult
  unfolding agent_access send_hmrc_invitation_for_client
  resend_invitation tenant_id client_id = do
    client ← find_one tenant_id client_id none
    throw_if (client.invitation_status === "accepted") already
    access ← agent_access tenant_id
    throw_if (present client.invitation_id && not (is_over client.invitation_status)) waiting
    send_hmrc_invitation_for_client client access.0 access.1

  -- An answer other than 204 changes nothing; an error is logged.
  unfoldable pub sync_relationship_from_hmrc : Client → String → String → Exec ClientsDb Unit
  sync_relationship_from_hmrc client arn token s =
      if is_active (sv.api.relationship_call arn token client) && not (is_some client.authorised_at)
      then (do
        modify (change_client client.id (λ c. record c { authorised_at = some now }))
        attempt (in_pipeline (mark_not_started client.tenant_id client.id)))
          s
      else (ok tt, s)

  -- The notice is for a firm that is stored; the mail to it is left out.
  pub fire_invitation_accepted_notifications : Client → ClientsDb → ClientsDb
  fire_invitation_accepted_notifications client s =
      if is_some (find (λ t. t.id === client.tenant_id) s.portal.tenants)
      then record s {
        notices =
            s.notices
            ++ (record {
              tenant_id = client.tenant_id;
              type = "invite_accepted";
              client_id = some client.id;
            }
                ∷ []);
      }
      else s

  -- Only on the first step to an accepted invitation.
  pub notify_once : Client → ClientsDb → ClientsDb
  unfolding fire_invitation_accepted_notifications
  notify_once client s =
      if is_accepted client.invitation_status
      then s
      else fire_invitation_accepted_notifications client s

  unfoldable pub after_status : Client → String → String → String → Exec ClientsDb Unit
  unfolding sync_relationship_from_hmrc notify_once
  after_status client status arn token =
      if is_accepted status
      then (do
        sync_relationship_from_hmrc (record client { invitation_status = status }) arn token
        modify (notify_once client))
      else pure tt

  unfoldable pub save_status : Client → String → String → String → Exec ClientsDb Unit
  unfolding after_status
  save_status client status arn token =
      if truthy status
      then (do
        modify (change_client client.id (λ c. record c { invitation_status = status }))
        after_status client status arn token)
      else pure tt

  unfoldable pub use_reply : Client → String → String → StatusReply → Exec ClientsDb Unit
  unfolding save_status normalize_hmrc_invitation_status
  use_reply client arn token StatusReply.unreachable =
      throw (HttpError.internal "HMRC could not be reached")
  use_reply client arn token (StatusReply.refused code) =
      if code == 403 || code == 404
      then pure tt
      else throw (HttpError.internal "HMRC returned an error")
  use_reply client arn token not_json = pure tt
  use_reply client arn token (status_text text) =
      save_status client (normalize_hmrc_invitation_status text) arn token

  unfoldable pub sync_one_invitation_from_hmrc : Client → String → String → Exec ClientsDb Unit
  unfolding use_reply
  sync_one_invitation_from_hmrc client arn token =
      use_reply client arn token (sv.api.status_call arn token client.invitation_id)
