-- ===== src/Auth/Tokens.antt =====
-- src/modules/auth/auth.service.ts: issuing, rotating and revoking the tokens of a session.
pub mod Rotation
use mtd_backend.Common.{
  ℕ, zero, suc, ◌+◌, ◌*◌, ◌-◌, ◌/◌, String, Bool, true, false, Option, none, some, List, [], ◌∷◌,
  ◌++◌, not, ◌&&◌, ltb, leb, ◌==◌, get_or, ◌===◌, if◌then◌else◌, find, update, HttpError, Result,
  ok, err, Exec, pure, gets, require, modify, throw_if, ◌>>=◌, ◌>>◌,
}
use mtd_backend.Users.{User}
use mtd_backend.Users.Permissions.{
  FirmRole, AppRole, AuthTokenAudience, StaffPermissions, empty_permissions, resolve_app_role,
  audience_for_role, normalize_permissions, PartialPermissions,
}
use mtd_backend.Auth.Jwt.{JwtPayload, Accounts, find_user}
use mtd_backend.Auth.Database.{RefreshToken, Db, Services, Fresh, check_firm}

pub record TokensResponse : Type 0 where
  pub access_token : String
  pub refresh_token : String
  pub access_token_expires_at : ℕ

-- `/^(\d+)([smhd])$/` of `parseExpiresIn`, over character codes; the time in milliseconds.
unit_ms : ℕ → Option ℕ
unit_ms c =
    if c == b's'
    then some 1000
    else if c == b'm'
    then some 60000
    else if c == b'h'
    then some 3600000
    else if c == b'd'
    then some 86400000
    else none

abbrev is_digit : ℕ → Bool
is_digit c = leb b'0' c && leb c b'9'

scaled : Bool → ℕ → Option ℕ → Option ℕ
scaled true value (some ms) = some (value * ms)
scaled _ value _ = none

read_duration : ℕ → Bool → List ℕ → Option ℕ
read_duration value seen [] = none
read_duration value seen (c ∷ []) = scaled seen value (unit_ms c)
read_duration value seen (c ∷ rest) =
    let next = read_duration (value * 10 + (c - b'0')) true rest in
    if is_digit c then next else none

-- Seven days where the text does not parse.
parse_expires_in : List ℕ → ℕ → ℕ
unfolding read_duration scaled unit_ms
parse_expires_in expires_in now = now + get_or (read_duration 0 false expires_in) (7 * 86400000)

abbrev pub role_name_of : Option User → Option String
role_name_of none = none
role_name_of (some user) = user.role_name

abbrev stored_permissions : Option User → Option PartialPermissions
stored_permissions none = none
stored_permissions (some user) = user.permissions

unfoldable pub permissions_for : Option User → AppRole → StaffPermissions
permissions_for user AppRole.admin = empty_permissions
permissions_for user AppRole.staff = normalize_permissions (stored_permissions user) FirmRole.staff
permissions_for user AppRole.owner = normalize_permissions (stored_permissions user) FirmRole.owner

abbrev tenant_claim : AppRole → String → String
tenant_claim AppRole.admin tenant_id = ""
tenant_claim _ tenant_id = tenant_id

-- The payload of an access token: role, audience and permissions are read from the database.
unfoldable pub access_payload : Accounts → String → String → String → Bool → JwtPayload
unfolding permissions_for
access_payload accounts user_id email tenant_id mfa =
    let user = find_user user_id accounts.users in
    let role = resolve_app_role (role_name_of user) in
    record {
      sub = user_id;
      email = email;
      tenant_id = tenant_claim role tenant_id;
      mfa_authenticated = some mfa;
      role = some role;
      audience = some (audience_for_role role);
      permissions = some (permissions_for user role);
      iat = none;
      exp = none;
      token_type = none;
      totp_secret = none;
    }

-- `{ tokenHash, isRevoked: false }`
abbrev pub is_live : Services → String → RefreshToken → Bool
is_live sv raw r = r.token_hash === sv.sha256 raw && not r.is_revoked

abbrev pub revoked : RefreshToken → RefreshToken
revoked r = record r { is_revoked = true }

abbrev pub invalid_refresh : HttpError
invalid_refresh = HttpError.unauthorized "Invalid or expired refresh token"

abbrev pub is_session_of : String → RefreshToken → Bool
is_session_of user_id r = r.user_id === user_id && not r.is_revoked

unfoldable pub revoke_sessions : String → Db → Db
revoke_sessions user_id s = record s {
  refresh_tokens = update (is_session_of user_id) revoked s.refresh_tokens;
}

-- With a token only that token is revoked, whoever it belongs to.
pub logout : Services → String → Option String → Db → Db
unfolding revoke_sessions
logout sv user_id none s = revoke_sessions user_id s
logout sv user_id (some raw) s =
    if not (raw === "")
    then record s {
      refresh_tokens = update (λ r. r.token_hash === sv.sha256 raw) revoked s.refresh_tokens;
    }
    else revoke_sessions user_id s

module _ (sv : Services) (now : ℕ) where
  unfoldable pub new_refresh_token : Fresh → String → Bool → RefreshToken
  unfolding parse_expires_in
  new_refresh_token fresh user_id mfa = record {
    id = fresh.id;
    user_id = user_id;
    token_hash = sv.sha256 fresh.raw;
    expires_at = parse_expires_in sv.refresh_expires_in now;
    is_revoked = false;
    mfa_authenticated = mfa;
  }

  unfoldable pub issue_tokens : Fresh → String → String → String → Bool → Exec Db TokensResponse
  issue_tokens fresh user_id email tenant_id mfa = do
    payload ← gets (λ s. access_payload s.accounts user_id email tenant_id mfa)
    modify (λ s. record s {
      refresh_tokens = s.refresh_tokens ++ new_refresh_token fresh user_id mfa ∷ [];
    })
    pure (record {
      access_token = sv.sign payload now;
      refresh_token = fresh.raw;
      access_token_expires_at = get_or (sv.expiry_of (sv.sign payload now)) 0 * 1000;
    })

  -- What follows the lookup: the used token is revoked before anything else is checked.
  unfoldable pub rotate : Fresh → RefreshToken → Exec Db TokensResponse
  rotate fresh stored = do
    modify (λ s. record s {
      refresh_tokens = update (λ r. r.id === stored.id) revoked s.refresh_tokens;
    })
    owner ← gets (λ s. find_user stored.user_id s.accounts.users)
    user ← require owner (HttpError.internal "The token has no user")
    throw_if (not user.is_active) (HttpError.unauthorized "User no longer exists")
    check_firm user.tenant_id
    issue_tokens fresh user.id user.email (get_or user.tenant_id "") stored.mfa_authenticated

  unfoldable pub refresh_tokens : Fresh → String → Exec Db TokensResponse
  refresh_tokens fresh raw = do
    found ← gets (λ s. find (is_live sv raw) s.refresh_tokens)
    stored ← require found invalid_refresh
    throw_if (ltb stored.expires_at now) invalid_refresh
    rotate fresh stored
