-- ===== src/Auth/Tests.antt =====
-- Sessions, resets, sign-ins and guards at concrete rows.
use mtd_backend.Common.{
  ◌≤◌, ◌≡◌, ◌≢◌, ◌↔◌, String, Bool, true, false, none, some, [], ◌∷◌, refl, arith, eq_iff, All,
  Distinct, find, update, ◌===◌, ok, err,
}
use mtd_backend.Users.{User}
use mtd_backend.Users.Permissions.{
  AppRole, AuthTokenAudience, resolve_app_role, audience_for_role, is_platform_admin,
}
use mtd_backend.Tenants.{Tenant, BillingStatus}
use mtd_backend.Billing.Access.{evaluate_billing_access}
use mtd_backend.Auth.Jwt.{
  JwtPayload, RequestUser, Accounts, find_user, find_tenant, tenant_of, issued_before,
  tenant_checks, wrong_audience, request_user, validate,
}
use mtd_backend.Auth.Jwt.Laws.{IsAdmitted, validate-IsAdmitted, validate-admits}
use mtd_backend.Auth.Guards.{AuthAudienceType, any_audience, handle_request}
use mtd_backend.Auth.Guards.Audience.{handle_request-validate}
use mtd_backend.Auth.Database.{
  RefreshToken, OneTimeToken, Db, Services, Fresh, find_user_by_email, firm_is_active,
}
use mtd_backend.Auth.Tokens.{
  TokensResponse, invalid_refresh, access_payload, issue_tokens, rotate, refresh_tokens,
  revoke_sessions,
}
use mtd_backend.Auth.Tokens.Rotation.{refresh_tokens_once}
use mtd_backend.Auth.Password.{
  is_open, is_open_of, invalid_link, update_user, forgot_password, reset_password,
}
use mtd_backend.Auth.Password.Reset.{IsReset, reset_password_once}
use mtd_backend.Auth.Password.Forgot.{reset-forgot}
use mtd_backend.Auth.Cleanup.Unseen.{Agree, cleaned, cleaned-view}
use mtd_backend.Auth.Login.{
  AuthResponse, challenge_payload, build_auth_user, touch_login, resend_verification, finish_login,
  login,
}
use mtd_backend.Auth.Login.Password.{IsSignedIn, login-IsSignedIn}
use mtd_backend.Auth.Login.Challenge.{challenge_user, challenge-validates}

-- Hashing and signing replaced by plain texts.
abbrev plain : Services
plain = record {
  sha256 = λ s. s;
  hash_password = λ s. s;
  compare_password = λ s t. s === t;
  sign = λ payload now. payload.sub;
  verify = λ token now. none;
  expiry_of = λ token. some 900;
  encryption_key = none;
  is_encrypted = λ s. false;
  decrypt = λ s key. s;
  totp_verify = λ code secret. code === secret;
  mail_works = λ mail. true;
  frontend_url = "https://app.example";
  refresh_expires_in = b'7' ∷ b'd' ∷ [];
  lower = λ s. s;
}

abbrev ada : Bool → User
ada mfa = record {
  id = "u1";
  first_name = "Ada";
  last_name = "Lovelace";
  firm_name = "Ledger Ltd";
  email = "ada@ledger.example";
  password_hash = "secret";
  is_active = true;
  is_email_verified = true;
  last_login_at = none;
  session_invalidated_at = none;
  mfa_enabled = mfa;
  totp_secret = some "totp";
  role_name = some "owner";
  tenant_id = some "firm";
  permissions = none;
}

abbrev ledger : Tenant
ledger = record {
  id = "firm";
  firm_name = "Ledger Ltd";
  contact_name = none;
  contact_email = none;
  is_active = true;
  billing_status = BillingStatus.active;
  trial_starts_at = none;
  trial_ends_at = none;
  trial_email_domain = none;
  stripe_customer_id = none;
  stripe_subscription_id = none;
  billing_period_ends_at = none;
  billing_cancels_at = none;
  included_client_allowance = 50;
  trial_ending_email_sent_at = none;
  trial_expired_email_sent_at = none;
  phone = none;
  address = none;
  postcode = none;
  deactivation_reason = none;
  deactivated_at = none;
}

abbrev accounts_of : Bool → Accounts
accounts_of mfa = record { users = ada mfa ∷ []; tenants = ledger ∷ [] }

abbrev stored_token : RefreshToken
stored_token = record {
  id = "t1";
  user_id = "u1";
  token_hash = "raw1";
  expires_at = 1000;
  is_revoked = false;
  mfa_authenticated = true;
}

abbrev stored_reset : OneTimeToken
stored_reset = record {
  id = "o1";
  user_id = "u1";
  token_hash = "reset1";
  expires_at = 1000;
  is_used = false;
}

abbrev tables : Bool → Db
tables mfa = record {
  accounts = accounts_of mfa;
  refresh_tokens = stored_token ∷ [];
  reset_tokens = stored_reset ∷ [];
  verification_tokens = [];
  sent = [];
}

abbrev draw : String → Fresh
draw raw = record { id = "n"; raw = raw }

abbrev session : JwtPayload
session = record {
  sub = "u1";
  email = "ada@ledger.example";
  tenant_id = "firm";
  mfa_authenticated = some false;
  role = some AppRole.owner;
  audience = some AuthTokenAudience.firm;
  permissions = none;
  iat = some 5;
  exp = some 905;
  token_type = none;
  totp_secret = none;
}

abbrev caller : RequestUser
unfolding request_user
caller = request_user session (ada false) AppRole.owner

caller-admitted : validate (accounts_of false) none 5 session ≡ ok caller
unfolding find_user find_tenant tenant_of issued_before resolve_app_role audience_for_role
    tenant_checks wrong_audience evaluate_billing_access find caller request_user
caller-admitted =
    validate-admits (accounts_of false) none 5 session (ada false) refl refl refl refl refl

validate-IsAdmitted_example : IsAdmitted (accounts_of false) none 5 session caller
validate-IsAdmitted_example =
    validate-IsAdmitted (accounts_of false) none 5 session caller caller-admitted

handle_request-validate_example :
    ((handle_request none (some caller) none ≡ ok caller) ↔ (caller.role ≢ AppRole.admin))
    × ((handle_request none (some caller) (some AuthAudienceType.admin) ≡ ok caller)
        ↔ (caller.role ≡ AppRole.admin))
    × (handle_request none (some caller) (some any_audience) ≡ ok caller)
handle_request-validate_example =
    handle_request-validate (accounts_of false) none 5 session caller caller-admitted

abbrev tokens : TokensResponse
tokens = record { access_token = "u1"; refresh_token = "raw2"; access_token_expires_at = 900000 }

abbrev refreshed : Db
refreshed = (refresh_tokens plain 5 (draw "raw2") "raw1" (tables false)).1

refresh_runs : refresh_tokens plain 5 (draw "raw2") "raw1" (tables false) ≡ (ok tokens, refreshed)
unfolding refresh_tokens rotate issue_tokens access_payload find find_user find_tenant
    firm_is_active update
refresh_runs = refl

stored_token-Distinct : Distinct (λ r. r.token_hash) (tables false).refresh_tokens
stored_token-Distinct = (tt, tt)

refresh_tokens_once_example :
    refresh_tokens plain 9 (draw "raw3") "raw1" refreshed ≡ (err invalid_refresh, refreshed)
refresh_tokens_once_example =
    refresh_tokens_once plain 5 9 (draw "raw2") (draw "raw3") "raw1" (tables false) refreshed tokens
      stored_token-Distinct (ground (arith, eq_iff "raw2" "raw1")) refresh_runs

abbrev reset : Db
reset = (reset_password plain 5 "reset1" "better" (tables false)).1

reset_runs : reset_password plain 5 "reset1" "better" (tables false) ≡ (ok tt, reset)
unfolding reset_password find update update_user revoke_sessions
reset_runs = refl

reset_password_once_example :
    (stored : OneTimeToken) × (find (is_open plain "reset1") (tables false).reset_tokens
      ≡ some stored)
    × (5 ≤ stored.expires_at)
    × IsReset plain "better" stored.user_id reset
    × (reset_password plain 9 "reset1" "worse" reset ≡ (err invalid_link, reset))
reset_password_once_example =
    reset_password_once plain 5 9 "reset1" "better" "worse" (tables false) reset (tt, tt) reset_runs

abbrev asked : Db
asked = (forgot_password plain 5 (draw "reset2") "ada@ledger.example" (tables false)).1

reset-forgot_example :
    All (λ t. is_open_of "u1" t ≡ true → t.token_hash ≡ "reset2") asked.reset_tokens
    × ((reset_password plain 6 "reset2" "better" asked).0 ≡ ok tt)
unfolding find_user_by_email find
reset-forgot_example =
    reset-forgot plain 5 (draw "reset2") "ada@ledger.example" (tables false) (ada false) 6 "better"
      refl refl (ground (arith, eq_iff "reset1" "reset2"), tt) (omega arith)

abbrev signed_in : Db
signed_in = (login plain 5 (draw "raw2") (draw "v") "ada@ledger.example" "secret" (tables true)).1

abbrev challenged : AuthResponse
challenged = record {
  access_token = "";
  refresh_token = "";
  access_token_expires_at = 0;
  requires_mfa = true;
  mfa_token = some "u1";
  user = build_auth_user (ada true) signed_in;
}

login_runs :
    login plain 5 (draw "raw2") (draw "v") "ada@ledger.example" "secret" (tables true)
    ≡ (ok challenged, signed_in)
unfolding login finish_login touch_login resend_verification challenge_payload find_user_by_email
    find find_tenant firm_is_active is_platform_admin update update_user
login_runs = refl

login-IsSignedIn_example :
    IsSignedIn plain 5
      (draw "raw2")
      "ada@ledger.example"
      "secret"
      (tables true)
      challenged
      signed_in
login-IsSignedIn_example =
    login-IsSignedIn plain 5 (draw "raw2") (draw "v") "ada@ledger.example" "secret" (tables true)
      signed_in challenged login_runs

challenge-validates_example :
    ((r : AuthResponse) × (finish_login plain 5 (draw "raw2") (ada true) "firm" none (tables true)
        ≡ (ok r, tables true))
      × (r.requires_mfa ≡ true)
      × (r.mfa_token ≡ some (plain.sign (challenge_payload (ada true) "firm" none) 5)))
    × (validate
          (accounts_of true)
          none
          6
          (record (challenge_payload (ada true) "firm" none) { iat = some 5 })
        ≡ ok (challenge_user (ada true) 5 "firm"))
unfolding find_user find_tenant tenant_of issued_before resolve_app_role tenant_checks
    evaluate_billing_access find
challenge-validates_example =
    challenge-validates plain 5 5 (draw "raw2") (ada true) "firm" (tables true) (accounts_of true)
      none 6 refl refl refl refl refl

-- A revoked token beside the stored one.
abbrev with_revoked : Db
with_revoked = record (tables false) {
  refresh_tokens =
      record stored_token { id = "t0"; token_hash = "raw0"; is_revoked = true } ∷ stored_token ∷ [];
}

cleaned-view_example :
    Agree 9
      (refresh_tokens plain 9 (draw "raw2") "raw1" (cleaned 5 6 with_revoked))
      (refresh_tokens plain 9 (draw "raw2") "raw1" with_revoked)
    × Agree 9
        (reset_password plain 9 "raw1" "new" (cleaned 5 6 with_revoked))
        (reset_password plain 9 "raw1" "new" with_revoked)
cleaned-view_example =
    cleaned-view plain 5 6 9 with_revoked (ground arith) (ground arith) (draw "raw2") "raw1" "new"
      ((ground (arith, eq_iff "raw1" "raw0"), tt), (tt, tt)) (tt, tt)
