-- ===== src/Auth/Register/Tests.antt =====
-- A firm registers, and its owner signs in.
use mtd_backend.Common.{
  ◌≡◌, String, true, false, none, some, [], ◌∷◌, refl, arith, ◌===◌, any, find, update, count_where,
  ok,
}
use mtd_backend.Users.Permissions.{
  AppRole, owner_permissions, resolve_app_role, normalize_permissions,
}
use mtd_backend.Users.Accounts.{email_exists, create_user, new_user}
use mtd_backend.Tenants.{BillingStatus}
use mtd_backend.Billing.Lock.{
  consume, lock_free, locked_domain, save_trial, days_of, get_trial_days, is_corporate_trial_domain,
  is_public_mail_domain, domain_of, after_last_at, includes_dot, on_trial_from, Texts,
  assert_trial_domain_available, start_trial_for_new_tenant, email_domain,
}
use mtd_backend.Auth.Jwt.{find_tenant, tenant_of}
use mtd_backend.Auth.Database.{Services, Fresh, send_mail}
use mtd_backend.Auth.Tokens.{issue_tokens, access_payload, permissions_for}
use mtd_backend.Auth.Password.{send_verification_email}
use mtd_backend.Auth.Login.{AuthResponse, build_auth_user, to_auth_user, login}
use mtd_backend.Auth.Register.{
  RegisterDb, RegisterDto, register, finish_register, add_tenant, add_user, owner_of_firm,
  new_tenant,
}
use mtd_backend.Auth.Register.Signed.{IsOwnerSession, login-register}

abbrev plain : Services
plain = record {
  sha256 = λ s. s;
  hash_password = λ s. s;
  compare_password = λ s t. s === t;
  sign = λ payload now. payload.sub;
  verify = λ token now. none;
  expiry_of = λ token. some 900;
  encryption_key = none;
  is_encrypted = λ s. false;
  decrypt = λ s key. s;
  totp_verify = λ code secret. code === secret;
  mail_works = λ mail. true;
  frontend_url = "https://app.example";
  refresh_expires_in = b'7' ∷ b'd' ∷ [];
  lower = λ s. s;
}

abbrev texts : Texts
texts = record { normal = λ s. s; parse_int = λ s. some 7; print = λ n. "7" }

abbrev no_firms : RegisterDb
no_firms = record {
  auth = record {
    accounts = record { users = []; tenants = [] };
    refresh_tokens = [];
    reset_tokens = [];
    verification_tokens = [];
    sent = [];
  };
  domains = [];
  trial_days = none;
}

abbrev ada : RegisterDto
ada = record {
  first_name = "Ada";
  last_name = "Lovelace";
  practice_name = "Ledger Ltd";
  email = "ada@ledger.example";
  password = "secret";
}

abbrev draw : String → Fresh
draw raw = record { id = raw; raw = raw }

abbrev one_firm : RegisterDb
one_firm =
    (register plain texts (λ s. s) 1000 "firm" "u1" (draw "raw") (draw "mail") ada no_firms).1

abbrev answer : AuthResponse
answer = record {
  access_token = "u1";
  refresh_token = "raw";
  access_token_expires_at = 900000;
  requires_mfa = false;
  mfa_token = none;
  user = record {
    id = "u1";
    name = "Ada Lovelace";
    first_name = "Ada";
    last_name = "Lovelace";
    email = "ada@ledger.example";
    firm_name = "Ledger Ltd";
    is_email_verified = false;
    mfa_enabled = false;
    tenant_id = some "firm";
    role = AppRole.owner;
    permissions = owner_permissions;
    billing_status = some BillingStatus.trial;
    trial_ends_at = some 604801000;
  };
}

registers :
    register plain texts (λ s. s) 1000 "firm" "u1" (draw "raw") (draw "mail") ada no_firms
    ≡ (ok answer, one_firm)
unfolding register finish_register add_tenant add_user owner_of_firm new_tenant email_exists
    count_where create_user new_user find update issue_tokens access_payload permissions_for
    send_mail send_verification_email build_auth_user to_auth_user tenant_of find_tenant
    resolve_app_role normalize_permissions email_domain assert_trial_domain_available
    start_trial_for_new_tenant consume lock_free locked_domain save_trial days_of get_trial_days
    is_corporate_trial_domain is_public_mail_domain domain_of after_last_at includes_dot
    on_trial_from any
registers = refl

login-register_example :
    (session : AuthResponse) × ((login plain 2000
        (draw "raw2")
        (draw "mail2")
        "ada@ledger.example"
        "secret"
        one_firm.auth).0
      ≡ ok session)
    × IsOwnerSession plain texts
        (λ s. s)
        1000
        2000
        "firm"
        "u1"
        (draw "raw")
        (draw "mail")
        (draw "raw2")
        (draw "mail2")
        ada
        "ada@ledger.example"
        no_firms
        one_firm
        answer
        session
login-register_example =
    login-register plain texts (λ s. s) 1000 2000 "firm" "u1" (draw "raw") (draw "mail")
      (draw "raw2") (draw "mail2") ada "ada@ledger.example" no_firms one_firm answer tt
      (ground arith) refl registers
