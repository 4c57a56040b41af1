-- ===== src/Auth/Login.antt =====
-- src/modules/auth/auth.service.ts: sign-in of firm users and platform admins, and the two steps of
-- MFA.
pub mod Password
pub mod Challenge
pub mod Session
use Prim.Native.String
use mtd_backend.Common.{
  ℕ, ◌+◌, ◌*◌, String, Bool, true, false, Option, none, some, List, [], ◌∷◌, ◌++◌, not, ◌&&◌, ◌||◌,
  ltb, ◌===◌, find, update, get_or, or_else, present, if◌then◌else◌, HttpError, Result, ok, err,
  Exec, pure, gets, require, modify, throw_if, attempt, ◌>>=◌, ◌>>◌,
}
use mtd_backend.Users.{User}
use mtd_backend.Users.Permissions.{
  AppRole, AuthTokenAudience, StaffPermissions, is_platform_admin, resolve_app_role,
}
use mtd_backend.Tenants.{Tenant, BillingStatus}
use mtd_backend.Auth.Jwt.{
  JwtPayload, TokenType, mfa_challenge, mfa_setup, Accounts, find_user, tenant_of,
}
use mtd_backend.Auth.Database.{Db, Services, Fresh, find_user_by_email, check_firm, plain_secret}
use mtd_backend.Auth.Tokens.{TokensResponse, permissions_for, issue_tokens}
use mtd_backend.Auth.Password.{update_user, send_verification_email}

pub record AuthUserResponse : Type 0 where
  pub id : String
  pub name : String
  pub first_name : String
  pub last_name : String
  pub email : String
  pub firm_name : String
  pub is_email_verified : Bool
  pub mfa_enabled : Bool
  pub tenant_id : Option String
  pub role : AppRole
  pub permissions : StaffPermissions
  pub billing_status : Option BillingStatus
  pub trial_ends_at : Option ℕ

-- `access_token_expires_at` is 0 where the source answers the empty text.
pub record AuthResponse : Type 0 where
  pub access_token : String
  pub refresh_token : String
  pub access_token_expires_at : ℕ
  pub requires_mfa : Bool
  pub mfa_token : Option String
  pub user : AuthUserResponse

abbrev tenant_field : {A : Type 0} → (Tenant → A) → Option Tenant → Option A
tenant_field f none = none
tenant_field f (some tenant) = some (f tenant)

abbrev flat : {A : Type 0} → Option (Option A) → Option A
flat none = none
flat (some o) = o

-- `toAuthUser`
unfoldable pub to_auth_user : User → Option Tenant → AuthUserResponse
to_auth_user user tenant = record {
  id = user.id;
  name = String.◌++◌ user.first_name (String.◌++◌ " " user.last_name);
  first_name = user.first_name;
  last_name = user.last_name;
  email = user.email;
  firm_name = get_or (tenant_field (λ t. t.firm_name) tenant) user.firm_name;
  is_email_verified = user.is_email_verified;
  mfa_enabled = user.mfa_enabled;
  tenant_id = user.tenant_id;
  role = resolve_app_role user.role_name;
  permissions = permissions_for (some user) (resolve_app_role user.role_name);
  billing_status = tenant_field (λ t. t.billing_status) tenant;
  trial_ends_at = flat (tenant_field (λ t. t.trial_ends_at) tenant);
}

-- `user.tenantId ? findById(user.tenantId) : null`; no tenant has the empty id.
unfoldable pub build_auth_user : User → Db → AuthUserResponse
build_auth_user user s = to_auth_user user (tenant_of s.accounts user)

abbrev pub invalid_credentials : HttpError
invalid_credentials = HttpError.unauthorized "Invalid credentials"

abbrev pub has_mfa : User → Bool
has_mfa user = user.mfa_enabled && present user.totp_secret

-- The payload of the challenge token, of a firm user or of a platform admin.
unfoldable pub challenge_payload : User → String → Option AuthTokenAudience → JwtPayload
challenge_payload user tenant_id audience = record {
  sub = user.id;
  email = user.email;
  tenant_id = tenant_id;
  mfa_authenticated = none;
  role = none;
  audience = audience;
  permissions = none;
  iat = none;
  exp = none;
  token_type = some mfa_challenge;
  totp_secret = none;
}

is_challenge : Option TokenType → Bool
is_challenge (some mfa_challenge) = true
is_challenge _ = false

is_setup : Option TokenType → Bool
is_setup (some mfa_setup) = true
is_setup _ = false

abbrev pub session_response : TokensResponse → AuthUserResponse → AuthResponse
session_response tokens user = record {
  access_token = tokens.access_token;
  refresh_token = tokens.refresh_token;
  access_token_expires_at = tokens.access_token_expires_at;
  requires_mfa = false;
  mfa_token = none;
  user = user;
}

module _ (sv : Services) (now : ℕ) where
  -- A user with MFA gets a challenge, any other user a session.
  unfoldable pub finish_login :
      Fresh → User → String → Option AuthTokenAudience → Exec Db AuthResponse
  finish_login fresh user tenant_id audience =
      if has_mfa user
      then gets (λ s. record {
        access_token = "";
        refresh_token = "";
        access_token_expires_at = 0;
        requires_mfa = true;
        mfa_token = some (sv.sign (challenge_payload user tenant_id audience) now);
        user = build_auth_user user s;
      })
      else do
        tokens ← issue_tokens sv now fresh user.id user.email tenant_id false
        gets (λ s. session_response tokens (build_auth_user user s))

  unfoldable pub touch_login : String → Exec Db Unit
  touch_login id = modify (update_user id (λ u. record u { last_login_at = some now }))

  -- A user whose address is not verified is sent the link again.
  unfoldable pub resend_verification : Fresh → User → Exec Db Unit
  resend_verification fresh user =
      if user.is_email_verified
      then pure tt
      else attempt (send_verification_email sv now fresh user.id user.email)

  unfoldable pub login : Fresh → Fresh → String → String → Exec Db AuthResponse
  unfolding touch_login resend_verification
  login fresh mail_fresh email password = do
    found ← gets (λ s. find_user_by_email (sv.lower email) s.accounts.users)
    user ← require found invalid_credentials
    throw_if (not user.is_active) invalid_credentials
    throw_if (is_platform_admin user.role_name)
        (HttpError.unauthorized "Use the admin sign-in page")
    throw_if (not (sv.compare_password password user.password_hash)) invalid_credentials
    check_firm user.tenant_id
    touch_login user.id
    resend_verification mail_fresh user
    finish_login fresh user (get_or user.tenant_id "") none

  pub admin_login : Fresh → String → String → Exec Db AuthResponse
  unfolding touch_login
  admin_login fresh email password = do
    found ← gets (λ s. find_user_by_email (sv.lower email) s.accounts.users)
    user ← require found invalid_credentials
    throw_if (not user.is_active) invalid_credentials
    throw_if (not (is_platform_admin user.role_name)) invalid_credentials
    throw_if (not (sv.compare_password password user.password_hash)) invalid_credentials
    touch_login user.id
    finish_login fresh user "" (some AuthTokenAudience.admin)

  abbrev pub code_matches : String → String → Bool
  code_matches code secret = sv.totp_verify code (plain_secret sv secret)

  pub verify_mfa_challenge : Fresh → String → String → Exec Db AuthResponse
  unfolding is_challenge
  verify_mfa_challenge fresh mfa_token code = do
    payload ←
        require (sv.verify mfa_token now)
          (HttpError.unauthorized "MFA session expired. Please sign in again.")
    throw_if (not (is_challenge payload.token_type)) (HttpError.unauthorized "Invalid MFA token.")
    found ← gets (λ s. find_user payload.sub s.accounts.users)
    user ← require found (HttpError.unauthorized "User not found.")
    throw_if (not user.is_active) (HttpError.unauthorized "User not found.")
    throw_if (not (has_mfa user)) (HttpError.bad_request "MFA is not configured for this account.")
    check_firm user.tenant_id
    throw_if (not (code_matches code (get_or user.totp_secret "")))
        (HttpError.unauthorized "Invalid code. Please try again.")
    tokens ← issue_tokens sv now fresh user.id user.email (get_or user.tenant_id "") true
    gets (λ s. session_response tokens (build_auth_user user s))

  -- `UsersService.setMfa`: a missing secret is not written, and a disabled account has none.
  pub set_mfa : String → Option String → Bool → Exec Db Unit
  set_mfa id secret enabled = modify (
      update_user id (λ u. record u {
        mfa_enabled = enabled;
        totp_secret = if enabled then or_else secret u.totp_secret else none;
      }))

  pub enable_mfa : String → String → String → Exec Db Unit
  unfolding is_setup
  enable_mfa user_id setup_token code = do
    payload ←
        require (sv.verify setup_token now)
          (HttpError.bad_request "Setup session expired. Please start MFA setup again.")
    throw_if (not (is_setup payload.token_type) || not (payload.sub === user_id))
        (HttpError.bad_request "Invalid setup token.")
    throw_if (not (code_matches code (get_or payload.totp_secret "")))
        (HttpError.bad_request "Invalid code. Please try again.")
    set_mfa user_id payload.totp_secret true

  pub disable_mfa : String → String → String → Exec Db Unit
  disable_mfa user_id password code = do
    found ← gets (λ s. find_user user_id s.accounts.users)
    user ← require found (HttpError.unauthorized "Unauthorized")
    throw_if (not (sv.compare_password password user.password_hash))
        (HttpError.bad_request "Incorrect password.")
    throw_if (not (has_mfa user)) (HttpError.bad_request "MFA is not enabled on this account.")
    throw_if (not (code_matches code (get_or user.totp_secret "")))
        (HttpError.bad_request "Invalid code. Please try again.")
    set_mfa user_id none false
