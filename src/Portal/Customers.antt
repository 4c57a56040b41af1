-- ===== src/Portal/Customers.antt =====
-- src/modules/client-portal/portal.service.ts: previews of the portal for agents, and the list and
-- the removal of its customers.
use mtd_backend.Common.{
  ℕ, String, Bool, true, false, Option, none, some, List, [], ◌∷◌, not, ◌&&◌, leb, ◌===◌, is_text,
  is_some, present, find, find_all, update, delete, if◌then◌else◌, HttpError, Result, ok, err, Exec,
  pure, gets, require, modify, throw_if, ◌>>=◌, ◌>>◌,
}
use mtd_backend.Users.Permissions.{AppRole}
use mtd_backend.Clients.{Client}
use mtd_backend.Portal.{ClientUser, PortalDb, PortalServices, PortalJwtPayload, Viewer, hash_email}
use mtd_backend.Portal.Accounts.{live_client}

-- Only staff is held to the clients that are assigned to it.
pub is_hidden_from : Option Viewer → Client → Bool
is_hidden_from none client = false
is_hidden_from (some viewer) client = elim viewer.role [
  | AppRole.staff ↦
      not (viewer.user_id === "") && not (is_text client.assigned_to_user_id viewer.user_id)
  | _ ↦ false
]

pub record PortalCustomerRow : Type 0 where
  pub id : String
  pub name : String
  pub email : String
  pub portal_only : Bool
  pub portal_active : Bool
  pub invited_at : ℕ
  pub last_login_at : Option ℕ
  pub setup_pending : Bool

module _ (sv : PortalServices) (now : ℕ) where
  preview_payload : String → String → PortalJwtPayload
  preview_payload tenant_id client_id = record {
    sub = "preview";
    client_id = client_id;
    tenant_id = tenant_id;
    is_preview = true;
  }

  pub generate_preview_token : String → String → Exec PortalDb String
  unfolding preview_payload
  generate_preview_token tenant_id client_id = do
    found ← gets (λ s. find (λ c. live_client client_id c && c.tenant_id === tenant_id) s.clients)
    client ← require found (HttpError.not_found "Client not found")
    pure (sv.sign (preview_payload tenant_id client_id) now)

  preview_of : Option PortalJwtPayload → Result String
  unfolding preview_payload
  preview_of none = err (HttpError.bad_request "Invalid or expired preview link")
  preview_of (some payload) =
      if payload.is_preview
      then ok (sv.sign (preview_payload payload.tenant_id payload.client_id) now)
      else err (HttpError.bad_request "Invalid or expired preview link")

  pub exchange_preview_token : String → Result String
  unfolding preview_of
  exchange_preview_token token = preview_of (sv.verify token now)

  pub is_portal_email_in_use : String → String → PortalDb → Bool
  is_portal_email_in_use tenant_id email s =
      is_some (
        find (λ u. u.tenant_id === tenant_id && is_text u.email_hash (hash_email sv email)) s.users)

  abbrev not_expired : ClientUser → Bool
  not_expired cu = elim cu.portal_setup_token_expires_at [
    | none ↦ true
    | some expires_at ↦ leb now expires_at
  ]

  customer_row : ClientUser → Client → PortalCustomerRow
  customer_row cu client = record {
    id = client.id;
    name = client.name;
    email = cu.email;
    portal_only = client.portal_only;
    portal_active = cu.is_active;
    invited_at = cu.created_at;
    last_login_at = cu.last_login_at;
    setup_pending = not cu.is_active && (present cu.portal_setup_token && not_expired cu);
  }

  customer :
      Option Viewer → ClientUser → Option Client → List PortalCustomerRow → List PortalCustomerRow
  unfolding is_hidden_from customer_row
  customer viewer cu none rows = rows
  customer viewer cu (some client) rows =
      if is_hidden_from viewer client then rows else customer_row cu client ∷ rows

  customers : Option Viewer → List Client → List ClientUser → List PortalCustomerRow
  unfolding customer
  customers viewer clients [] = []
  customers viewer clients (cu ∷ users) =
      customer viewer cu (find (live_client cu.client_id) clients) (customers viewer clients users)

  -- The order, newest first, is left to the table.
  pub list_customers : String → Option Viewer → PortalDb → List PortalCustomerRow
  unfolding customers
  list_customers tenant_id viewer s =
      customers viewer (find_all (λ c. c.tenant_id === tenant_id) s.clients)
        (find_all (λ u. u.tenant_id === tenant_id) s.users)

  -- A customer of the portal alone is soft-deleted with the account.
  remove_customer : Client → PortalDb → PortalDb
  remove_customer client s =
      if client.portal_only
      then record s {
        clients =
            update (λ c. c.id === client.id) (λ c. record c { deleted_at = some now }) s.clients;
      }
      else s

  unfoldable pub revoke_access : String → Client → Option Viewer → Exec PortalDb Unit
  unfolding is_hidden_from remove_customer
  revoke_access tenant_id client viewer = do
    throw_if (is_hidden_from viewer client) (HttpError.not_found "Client not found")
    found ← gets (λ s. find (λ u. u.tenant_id === tenant_id && u.client_id === client.id) s.users)
    cu ← require found (HttpError.not_found "This customer does not have portal access.")
    modify (λ s. record s { users = delete (λ u. u.id === cu.id) s.users })
    modify (remove_customer client)
