-- ===== src/Clients/Scope.antt =====
-- src/modules/clients/staff-client-scope.util.ts and the reads of src/modules/clients/clients.service.ts
-- that are held to it; the tables that the service writes.
use mtd_backend.Common.{
  ℕ, String, Bool, true, false, Option, none, some, List, not, ◌&&◌, ◌===◌, is_text, is_some, find,
  any, if◌then◌else◌, HttpError, Result, Exec, gets, require, throw_if, ◌>>=◌,
}
use mtd_backend.Users.{User}
use mtd_backend.Users.Permissions.{AppRole}
use mtd_backend.Clients.{Client}
use mtd_backend.Hmrc.Connections.{HmrcConnection}
use mtd_backend.Pipeline.Service.{Store, StatusChange}
use mtd_backend.Portal.{PortalDb, Viewer}

-- A row of `client_notes`.
pub record ClientNote : Type 0 where
  pub id : String
  pub tenant_id : String
  pub client_id : String
  pub text : String
  pub author_name : String
  pub is_pinned : Bool
  pub created_at : ℕ
  pub deleted_at : Option ℕ

-- A row of `app_notifications`.
pub record AppNotification : Type 0 where
  pub tenant_id : String
  pub type : String
  pub client_id : Option String

-- The clients stand in the tables of the portal.
pub record ClientsDb : Type 0 where
  pub portal : PortalDb
  pub history : List StatusChange
  pub notes : List ClientNote
  pub users : List User
  pub connections : List HmrcConnection
  pub notices : List AppNotification

-- Another service runs on its own tables.
abbrev pub put : {A S : Type 0} → (S → ClientsDb) → Result A × S → Result A × ClientsDb
put back (r, s) = (r, back s)

abbrev pub in_portal : {A : Type 0} → Exec PortalDb A → Exec ClientsDb A
in_portal m s = put (λ p. record s { portal = p }) (m s.portal)

abbrev pub in_pipeline : {A : Type 0} → Exec Store A → Exec ClientsDb A
in_pipeline m s =
    put (λ t. record s { portal = record (s.portal) { clients = t.clients }; history = t.history })
      (m (record { clients = s.portal.clients; history = s.history }))

abbrev pub in_hmrc : {A : Type 0} → Exec (List HmrcConnection) A → Exec ClientsDb A
in_hmrc m s = put (λ c. record s { connections = c }) (m s.connections)

abbrev pub with_clients : (List Client → List Client) → ClientsDb → ClientsDb
with_clients f s = record s { portal = record (s.portal) { clients = f s.portal.clients } }

-- `actor?.role === 'staff' && actor.userId`
abbrev pub is_assigned : Option Viewer → Client → Bool
is_assigned none c = true
is_assigned (some viewer) c = elim viewer.role [
  | AppRole.staff ↦
      if viewer.user_id === "" then true else is_text c.assigned_to_user_id viewer.user_id
  | _ ↦ true
]

-- The rows that a query with this condition finds; rows that are deleted are passed over.
abbrev pub staff_client_where : String → Option Viewer → Bool → Client → Bool
staff_client_where tenant_id viewer exclude_portal_only c =
    (c.tenant_id === tenant_id && not (is_some c.deleted_at))
    && ((if exclude_portal_only then not c.portal_only else true) && is_assigned viewer c)

abbrev pub client_missing : HttpError
client_missing = HttpError.not_found "Client not found"

unfoldable pub find_one : String → String → Option Viewer → Exec ClientsDb Client
find_one tenant_id id viewer = do
  found ←
      gets (λ s.
        find (λ c. c.id === id && staff_client_where tenant_id viewer false c) s.portal.clients)
  require found client_missing

unfoldable pub assert_client_belongs_to_tenant :
    String → String → Option Viewer → Exec ClientsDb Unit
assert_client_belongs_to_tenant tenant_id client_id viewer = do
  exists ← gets (λ s.
      any (λ c. c.id === client_id && staff_client_where tenant_id viewer false c) s.portal.clients)
  throw_if (not exists) client_missing
