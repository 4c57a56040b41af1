-- ===== src/Users/Accounts.antt =====
-- src/modules/users/users.service.ts: the reads and writes of `users` that other modules make.
use mtd_backend.Common.{
  ltb, String, Bool, true, false, Option, none, some, List, [], ◌∷◌, ◌++◌, ◌===◌, get_or,
  count_where, update,
}
use mtd_backend.Users.{User}
use mtd_backend.Users.Permissions.{StaffPermissions, PartialPermissions, owner_permissions}

-- Flags as the column stores them: each is there.
abbrev pub stored : StaffPermissions → PartialPermissions
stored p = record {
  add_clients = some p.add_clients;
  chase = some p.chase;
  view_liabilities = some p.view_liabilities;
  view_notes = some p.view_notes;
  manage_templates = some p.manage_templates;
  view_settings = some p.view_settings;
  invite_staff = some p.invite_staff;
}

unfoldable pub email_exists : String → List User → Bool
email_exists email users = ltb 0 (count_where (λ u. u.email === email) users)

-- The argument of `create`, with the name of the role.
pub record NewUser : Type 0 where
  pub first_name : String
  pub last_name : String
  pub firm_name : String
  pub email : String
  pub password_hash : String
  pub role_name : String
  pub tenant_id : Option String
  pub permissions : Option StaffPermissions
  pub is_email_verified : Option Bool
  pub is_active : Option Bool

-- The row that `create` saves under a new id.
unfoldable pub new_user : String → NewUser → User
new_user id dto = record {
  id = id;
  first_name = dto.first_name;
  last_name = dto.last_name;
  firm_name = dto.firm_name;
  email = dto.email;
  password_hash = dto.password_hash;
  is_active = get_or dto.is_active true;
  is_email_verified = get_or dto.is_email_verified false;
  last_login_at = none;
  session_invalidated_at = none;
  mfa_enabled = false;
  totp_secret = none;
  role_name = some dto.role_name;
  tenant_id = dto.tenant_id;
  permissions = some (stored (get_or dto.permissions owner_permissions));
}

unfoldable pub create_user : String → NewUser → List User → List User
unfolding new_user
create_user id dto users = users ++ new_user id dto ∷ []

unfoldable pub mark_email_verified : String → List User → List User
mark_email_verified id users =
    update (λ u. u.id === id) (λ u. record u { is_email_verified = true }) users
