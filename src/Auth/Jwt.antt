-- ===== src/Auth/Jwt.antt =====
-- src/modules/auth/strategies/jwt.strategy.ts: what an access token is turned into on each request.
-- The signature and the expiry of the token are checked by passport-jwt before `validate` runs.
pub mod Laws
use mtd_backend.Common.{
  ℕ, String, Bool, true, false, Option, none, some, List, ◌/◌, not, ◌&&◌, ltb, get_or, present,
  ◌===◌, if◌then◌else◌, find, HttpError, Result, ok, err,
}
use mtd_backend.Users.{User}
use mtd_backend.Users.Permissions.{
  FirmRole, AppRole, AuthTokenAudience, StaffPermissions, empty_permissions, resolve_app_role,
  audience_for_role, normalize_permissions,
}
use mtd_backend.Tenants.{Tenant}
use mtd_backend.Billing.Access.{evaluate_billing_access, is_allowed, message_of}
use mtd_backend.Billing.Paths.{is_billing_exempt_path}

-- The `type` claim of the tokens that `AuthService` signs for the two steps of MFA. Tokens of a
-- session have none. `JwtPayload` of the source does not list the claim, and `validate` does not
-- read it.
pub data TokenType : Type 0 where
  mfa_challenge mfa_setup : TokenType

pub record JwtPayload : Type 0 where
  pub sub : String
  pub email : String
  pub tenant_id : String
  pub mfa_authenticated : Option Bool
  pub role : Option AppRole
  pub audience : Option AuthTokenAudience
  pub permissions : Option StaffPermissions
  pub iat : Option ℕ
  pub exp : Option ℕ
  pub token_type : Option TokenType
  pub totp_secret : Option String

pub record RequestUser : Type 0 where
  pub user_id : String
  pub email : String
  pub tenant_id : String
  pub login_at : Option ℕ
  pub mfa_authenticated : Bool
  pub role : AppRole
  pub audience : AuthTokenAudience
  pub permissions : StaffPermissions

-- The rows that `validate` reads.
pub record Accounts : Type 0 where
  pub users : List User
  pub tenants : List Tenant

unfoldable pub find_user : String → List User → Option User
find_user id users = find (λ u. u.id === id) users

unfoldable pub find_tenant : String → List Tenant → Option Tenant
find_tenant id tenants = find (λ t. t.id === id) tenants

-- `user.tenant`, joined by the nullable column `tenant_id`.
unfoldable pub tenant_of : Accounts → User → Option Tenant
tenant_of db user = elim user.tenant_id [ none ↦ none | some id ↦ find_tenant id db.tenants ]

-- Issued in a second before that of `session_invalidated_at`.
unfoldable pub issued_before : Option ℕ → Option ℕ → Bool
issued_before none iat = false
issued_before (some invalidated) none = false
issued_before (some invalidated) (some iat) = ltb iat (invalidated / 1000)

-- The permissions of a role: none for a platform admin.
unfoldable pub permissions_of : User → AppRole → StaffPermissions
permissions_of user AppRole.admin = empty_permissions
permissions_of user AppRole.staff = normalize_permissions user.permissions FirmRole.staff
permissions_of user AppRole.owner = normalize_permissions user.permissions FirmRole.owner

abbrev deactivated : HttpError
deactivated =
    HttpError.unauthorized "This firm account has been deactivated. Please contact support."

-- The checks on a firm user's tenant: deactivated or missing, then billing.
firm_checks : Option String → Option Tenant → Option (List ℕ) → ℕ → Option HttpError
firm_checks tenant_id none url now = if present tenant_id then some deactivated else none
firm_checks tenant_id (some tenant) url now =
    let billing = evaluate_billing_access tenant now in
    if present tenant_id && not tenant.is_active
    then some deactivated
    else if not (is_allowed billing) && not (is_billing_exempt_path url)
    then some (HttpError.unauthorized (message_of billing))
    else none

unfoldable pub tenant_checks :
    AppRole → Option String → Option Tenant → Option (List ℕ) → ℕ → Option HttpError
unfolding firm_checks
tenant_checks AppRole.admin tenant_id tenant url now = none
tenant_checks AppRole.staff tenant_id tenant url now = firm_checks tenant_id tenant url now
tenant_checks AppRole.owner tenant_id tenant url now = firm_checks tenant_id tenant url now

-- A claim of another audience than the role's. A token with no claim is let through.
unfoldable pub wrong_audience : Option AuthTokenAudience → AuthTokenAudience → Bool
wrong_audience none audience = false
wrong_audience (some AuthTokenAudience.firm) AuthTokenAudience.firm = false
wrong_audience (some AuthTokenAudience.admin) AuthTokenAudience.admin = false
wrong_audience (some _) audience = true

unfoldable pub request_user : JwtPayload → User → AppRole → RequestUser
request_user payload user role = record {
  user_id = payload.sub;
  email = payload.email;
  tenant_id = payload.tenant_id;
  login_at = payload.iat;
  mfa_authenticated = get_or payload.mfa_authenticated false;
  role = role;
  audience = audience_for_role role;
  permissions = permissions_of user role;
}

validate_user : Accounts → Option (List ℕ) → ℕ → JwtPayload → User → Result RequestUser
validate_user db url now payload user =
    if not user.is_active
    then err (HttpError.unauthorized "User no longer exists")
    else if issued_before user.session_invalidated_at payload.iat
    then err (HttpError.unauthorized "Session has been revoked. Please sign in again.")
    else elim (tenant_checks (resolve_app_role user.role_name) user.tenant_id (tenant_of db user)
        url now) [
          | some e ↦ err e
          | none ↦
              if wrong_audience payload.audience
                (audience_for_role (resolve_app_role user.role_name))
              then err (HttpError.unauthorized "Invalid token audience")
              else ok (request_user payload user (resolve_app_role user.role_name))
        ]

-- `url` is `req.originalUrl || req.url`.
unfoldable pub validate : Accounts → Option (List ℕ) → ℕ → JwtPayload → Result RequestUser
unfolding validate_user request_user
validate db url now payload = elim (find_user payload.sub db.users) [
  | none ↦ err (HttpError.unauthorized "User no longer exists")
  | some user ↦ validate_user db url now payload user
]
