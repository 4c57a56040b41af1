-- ===== src/Admin/Details.antt =====
-- src/modules/admin/admin.service.ts: the page of a firm.
use Prim.Native.String
use mtd_backend.Common.{
  ℕ, String, Bool, true, false, Option, none, some, List, [], ◌∷◌, ◌++◌, ◌===◌, ◌&&◌, not, is_text,
  is_some, ltb, find, find_all, count_where, map, length, if◌then◌else◌, HttpError, Exec, gets,
  require, ◌>>=◌,
}
use mtd_backend.Users.{User}
use mtd_backend.Users.Permissions.{FirmRole, resolve_firm_role}
use mtd_backend.Tenants.{Tenant}
use mtd_backend.Auth.Jwt.{find_tenant}
use mtd_backend.Hmrc.Connections.{ConnectionStatus, is_connected, is_of_tenant}
use mtd_backend.Admin.{AdminDb, AdminServices}

pub record AdminFirmUser : Type 0 where
  pub id : String
  pub name : String
  pub email : String
  pub role : FirmRole
  pub is_active : Bool
  pub last_login_at : Option ℕ

-- Times stay milliseconds. The columns of the firm's own row are in `firm`.
pub record AdminFirmDetail : Type 0 where
  pub firm : Tenant
  pub owner_email : Option String
  pub billable_client_count : ℕ
  pub user_count : ℕ
  pub client_count : ℕ
  pub last_login_at : Option ℕ
  pub hmrc_connected : Bool
  pub hmrc_status : Option ConnectionStatus
  pub hmrc_connected_at : Option ℕ
  pub users : List AdminFirmUser

abbrev pub no_firm : HttpError
no_firm = HttpError.not_found "Firm not found"

abbrev pub is_user_of : String → User → Bool
is_user_of tenant_id u = is_text u.tenant_id tenant_id

abbrev pub has_role : String → String → User → Bool
has_role tenant_id name u = is_user_of tenant_id u && is_text u.role_name name

abbrev is_owner_item : AdminFirmUser → Bool
is_owner_item u = elim u.role [ FirmRole.owner ↦ true | FirmRole.staff ↦ false ]

-- The latest of the times that are there; ISO texts sort like the times.
unfoldable pub latest : List AdminFirmUser → Option ℕ
latest [] = none
latest (u ∷ us) =
    let rest = latest us in
    elim u.last_login_at [
      | none ↦ rest
      | some t ↦ elim rest [ none ↦ some t | some r ↦ if ltb t r then some r else some t ]
    ]

module _ (sv : AdminServices) where
  -- `${u.firstName} ${u.lastName}`.trim()
  abbrev pub full_name : User → String
  full_name u = sv.trim (String.◌++◌ u.first_name (String.◌++◌ " " u.last_name))

  abbrev firm_user : User → AdminFirmUser
  firm_user u = record {
    id = u.id;
    name = full_name u;
    email = u.email;
    role = resolve_firm_role u.role_name;
    is_active = u.is_active;
    last_login_at = u.last_login_at;
  }

  -- Owners before staff, each in the order in which they were made.
  unfoldable pub firm_users : String → AdminDb → List AdminFirmUser
  firm_users id s = map firm_user (
      find_all (has_role id "owner") s.auth.accounts.users
      ++ find_all (has_role id "staff") s.auth.accounts.users)

  unfoldable pub firm_detail : Tenant → AdminDb → AdminFirmDetail
  unfolding firm_users latest
  firm_detail tenant s =
      let users = firm_users tenant.id s in
      let clients =
        count_where (λ c. c.tenant_id === tenant.id && not (is_some c.deleted_at)) s.clients in
      let hmrc = find (is_of_tenant tenant.id) s.connections in
      record {
        firm = tenant;
        owner_email = elim (find is_owner_item users) [
          | some owner ↦ some (owner.email)
          | none ↦ tenant.contact_email
        ];
        billable_client_count = clients;
        user_count = length users;
        client_count = clients;
        last_login_at = latest users;
        hmrc_connected = elim hmrc [ some c ↦ is_connected c.status | none ↦ false ];
        hmrc_status = elim hmrc [ some c ↦ some (c.status) | none ↦ none ];
        hmrc_connected_at = elim hmrc [ some c ↦ some (c.connected_at) | none ↦ none ];
        users = users;
      }

  abbrev pub firm_by_id : String → Exec AdminDb Tenant
  firm_by_id id = do
    found ← gets (λ s. find_tenant id s.auth.accounts.tenants)
    require found no_firm

  unfoldable pub get_firm : String → Exec AdminDb AdminFirmDetail
  get_firm id = do tenant ← firm_by_id id; gets (firm_detail tenant)
