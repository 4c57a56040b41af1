-- ===== src/Users.antt =====
-- src/modules/users: the user row and the permission rules.
pub mod Permissions
pub mod Accounts
mod Tests
use mtd_backend.Common.{ℕ, String, Bool, Option}
use mtd_backend.Users.Permissions.{PartialPermissions}

-- A row of `users` with the name of its role. Times are milliseconds since the epoch.
pub record User : Type 0 where
  pub id : String
  pub first_name : String
  pub last_name : String
  pub firm_name : String
  pub email : String
  pub password_hash : String
  pub is_active : Bool
  pub is_email_verified : Bool
  pub last_login_at : Option ℕ
  pub session_invalidated_at : Option ℕ
  pub mfa_enabled : Bool
  pub totp_secret : Option String
  pub role_name : Option String
  pub tenant_id : Option String
  pub permissions : Option PartialPermissions
