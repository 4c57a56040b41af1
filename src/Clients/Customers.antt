-- ===== src/Clients/Customers.antt =====
-- src/modules/clients/clients.service.ts: the customers of the portal alone.
use Prim.Native.String
use mtd_backend.Common.{
  ℕ, zero, suc, String, Bool, true, false, Option, none, some, List, [], ◌∷◌, ◌++◌, not, ◌&&◌,
  ◌===◌, is_some, truthy, find, any, if◌then◌else◌, HttpError, err, Exec, pure, gets, require,
  modify, throw_if, attempt, ◌>>=◌, ◌>>◌,
}
use mtd_backend.Clients.{Client}
use mtd_backend.Clients.Scope.{ClientsDb, in_portal, with_clients, find_one}
use mtd_backend.Clients.Records.{is_staff}
use mtd_backend.Portal.{PortalServices, Viewer}
use mtd_backend.Portal.Accounts.{create_and_invite}
use mtd_backend.Portal.Customers.{
  PortalCustomerRow, is_portal_email_in_use, list_customers, revoke_access,
}

abbrev pub has_nino : String → String → Client → Bool
has_nino tenant_id nino_hash c = c.tenant_id === tenant_id && c.nino_hash === nino_hash

-- `findByNino`: a deleted row is passed over.
abbrev pub is_with_nino : String → String → Client → Bool
is_with_nino tenant_id nino_hash c = has_nino tenant_id nino_hash c && not (is_some c.deleted_at)

abbrev duplicate : HttpError
duplicate = HttpError.conflict "Duplicate entry"

-- `clientRepo.save` of a new row. The unique index on firm and hash counts deleted rows as well.
unfoldable pub insert_client : Client → Exec ClientsDb Unit
insert_client client = do
  taken ← gets (λ s. any (has_nino client.tenant_id client.nino_hash) s.portal.clients)
  throw_if taken duplicate
  modify (with_clients (λ clients. clients ++ (client ∷ [])))

pub record InvitePortalClientDto : Type 0 where
  pub first_name : String
  pub last_name : String
  pub email : String

-- The hash of a NINO, and the placeholder that an attempt draws.
module _ (sv : PortalServices) (pii_hash : String → String) (placeholder : ℕ → String) where
  -- `attempts` are left; the first one is number 0.
  unfoldable pub draw_nino : String → ℕ → ℕ → ClientsDb → Option String
  draw_nino tenant_id attempt zero s = none
  draw_nino tenant_id attempt (suc attempts) s =
      let rest = draw_nino tenant_id (suc attempt) attempts s in
      if is_some (find (is_with_nino tenant_id (pii_hash (placeholder attempt))) s.portal.clients)
      then rest
      else some (placeholder attempt)

  unfoldable pub generate_unique_portal_placeholder_nino : String → Exec ClientsDb String
  unfolding draw_nino
  generate_unique_portal_placeholder_nino tenant_id = do
    nino ← gets (draw_nino tenant_id 0 20)
    require nino (HttpError.internal "Could not allocate a portal customer record.")

  abbrev pub full_name : InvitePortalClientDto → String
  full_name dto =
      sv.trim (String.◌++◌ (sv.trim dto.first_name) (String.◌++◌ " " (sv.trim dto.last_name)))

  abbrev pub owner_of_new : Option Viewer → Option String
  owner_of_new none = none
  owner_of_new (some viewer) =
      if is_staff viewer.role && truthy viewer.user_id then some viewer.user_id else none

  abbrev pub portal_client :
      String → String → InvitePortalClientDto → String → Option Viewer → Client
  portal_client id tenant_id dto nino viewer = record {
    id = id;
    tenant_id = tenant_id;
    name = full_name dto;
    preferred_name = none;
    nino = nino;
    nino_hash = pii_hash nino;
    postcode = "PORTAL";
    email = sv.lower (sv.trim dto.email);
    phone = none;
    utr = none;
    agent_type = "main";
    invitation_id = none;
    invitation_status = "portal-only";
    invitation_sent_at = none;
    invitation_expires_at = none;
    authorised_at = none;
    pipeline_status = "portal-only";
    workflow_type = none;
    assigned_to_user_id = owner_of_new viewer;
    portal_only = true;
    deleted_at = none;
  }

  -- `catch (err) { if duplicate throw new ConflictException }`
  insert_portal_client : Client → Exec ClientsDb Unit
  unfolding insert_client
  insert_portal_client client s =
      elim (any (has_nino client.tenant_id client.nino_hash) s.portal.clients) [
        | true ↦ (err (HttpError.conflict "Could not create portal customer. Please try again."), s)
        | false ↦ insert_client client s
      ]

  pub invite_portal_client :
      String
      → String
      → String
      → ℕ
      → String
      → InvitePortalClientDto
      → Option Viewer
      → Exec ClientsDb Client
  unfolding generate_unique_portal_placeholder_nino insert_portal_client
  invite_portal_client id user_id token now tenant_id dto viewer = do
    in_use ←
        gets (λ s. is_portal_email_in_use sv now tenant_id (sv.lower (sv.trim dto.email)) s.portal)
    throw_if in_use (
        HttpError.conflict
          "A portal account with this email already exists. Resend the invite from Customer management in Settings.")
    nino ← generate_unique_portal_placeholder_nino tenant_id
    insert_portal_client (portal_client id tenant_id dto nino viewer)
    attempt (
        in_portal
          (create_and_invite sv now user_id token tenant_id id (sv.lower (sv.trim dto.email))))
    pure (portal_client id tenant_id dto nino viewer)

  pub list_portal_customers : ℕ → String → Option Viewer → ClientsDb → List PortalCustomerRow
  list_portal_customers now tenant_id viewer s = list_customers sv now tenant_id viewer s.portal

unfoldable pub remove_portal_customer :
    PortalServices → ℕ → String → String → Option Viewer → Exec ClientsDb Unit
unfolding find_one
remove_portal_customer sv now tenant_id client_id viewer = do
  client ← find_one tenant_id client_id viewer
  in_portal (revoke_access sv now tenant_id client viewer)
