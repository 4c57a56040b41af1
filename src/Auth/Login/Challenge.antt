-- ===== src/Auth/Login/Challenge.antt =====
-- What a challenge token is good for.
use mtd_backend.Common.{ℕ, String, true, false, Option, none, some, List, ◌≡◌, refl, ok}
use mtd_backend.Users.{User}
use mtd_backend.Users.Permissions.{resolve_app_role, audience_for_role}
use mtd_backend.Auth.Jwt.{
  RequestUser, Accounts, find_user, tenant_of, issued_before, permissions_of, tenant_checks,
  validate, request_user, wrong_audience,
}
use mtd_backend.Auth.Jwt.Laws.{validate-admits}
use mtd_backend.Auth.Database.{Db, Services, Fresh}
use mtd_backend.Auth.Login.{AuthResponse, has_mfa, challenge_payload, finish_login, build_auth_user}

-- What a request with the challenge token of a firm user runs as.
abbrev pub challenge_user : User → ℕ → String → RequestUser
challenge_user user iat tenant_id = record {
  user_id = user.id;
  email = user.email;
  tenant_id = tenant_id;
  login_at = some iat;
  mfa_authenticated = false;
  role = resolve_app_role user.role_name;
  audience = audience_for_role (resolve_app_role user.role_name);
  permissions = permissions_of user (resolve_app_role user.role_name);
}

finish_login-mfa :
    (sv : Services) (now : ℕ) (fresh : Fresh) (user : User) (tenant_id : String) (s : Db)
    → has_mfa user ≡ true
    → (r : AuthResponse) × (finish_login sv now fresh user tenant_id none s ≡ (ok r, s))
      × (r.requires_mfa ≡ true)
      × (r.mfa_token ≡ some (sv.sign (challenge_payload user tenant_id none) now))
unfolding finish_login challenge_payload
finish_login-mfa sv now fresh user tenant_id s mfa = (
  record {
    access_token = "";
    refresh_token = "";
    access_token_expires_at = 0;
    requires_mfa = true;
    mfa_token = some (sv.sign (challenge_payload user tenant_id none) now);
    user = build_auth_user user s;
  },
  rw mfa refl,
  refl,
  refl,
)

validate-challenge :
    (user : User) (tenant_id : String) (iat : ℕ) (later : Accounts) (url : Option (List ℕ)) (at : ℕ)
    → find_user user.id later.users ≡ some user
    → user.is_active ≡ true
    → issued_before user.session_invalidated_at (some iat) ≡ false
    → tenant_checks (resolve_app_role user.role_name) user.tenant_id (tenant_of later user) url at
      ≡ none
    → validate later url at (record (challenge_payload user tenant_id none) { iat = some iat })
      ≡ ok (challenge_user user iat tenant_id)
unfolding challenge_payload request_user wrong_audience
validate-challenge user tenant_id iat later url at found active current firm =
    validate-admits later url at (record (challenge_payload user tenant_id none) { iat = some iat })
      user found active current firm refl

-- A user who signs in with the password and has MFA enabled is answered with a challenge token and
-- no session. On requests that token is accepted as an access token, without the second step: as
-- long as the firm user is stored and active, the sessions were not invalidated after it was signed
-- and the firm's checks pass, `validate` returns the user with the role and all the permissions.
pub challenge-validates :
    (sv : Services) (now iat : ℕ) (fresh : Fresh) (user : User) (tenant_id : String) (s : Db)
    (later : Accounts) (url : Option (List ℕ)) (at : ℕ)
    → has_mfa user ≡ true
    → find_user user.id later.users ≡ some user
    → user.is_active ≡ true
    → issued_before user.session_invalidated_at (some iat) ≡ false
    → tenant_checks (resolve_app_role user.role_name) user.tenant_id (tenant_of later user) url at
      ≡ none
    → ((r : AuthResponse) × (finish_login sv now fresh user tenant_id none s ≡ (ok r, s))
        × (r.requires_mfa ≡ true)
        × (r.mfa_token ≡ some (sv.sign (challenge_payload user tenant_id none) now)))
      × (validate later url at (record (challenge_payload user tenant_id none) { iat = some iat })
          ≡ ok (challenge_user user iat tenant_id))
challenge-validates sv now iat fresh user tenant_id s later url at mfa found active current firm = (
  finish_login-mfa sv now fresh user tenant_id s mfa,
  validate-challenge user tenant_id iat later url at found active current firm,
)
