-- ===== src/Auth/Register.antt =====
-- src/modules/auth/auth.service.ts: `register`, with `create` of src/modules/tenants/tenants.service.ts
-- and the trial of src/modules/billing/billing.service.ts.
pub mod Done
pub mod Signed
mod Tests
use Prim.Native.String
use mtd_backend.Common.{
  ℕ, String, true, false, Option, none, some, List, [], ◌∷◌, ◌++◌, HttpError, Exec, gets, modify,
  throw_if, attempt, ◌>>=◌, ◌>>◌,
}
use mtd_backend.Users.Permissions.{owner_permissions}
use mtd_backend.Users.Accounts.{NewUser, new_user, create_user, email_exists}
use mtd_backend.Tenants.{Tenant, BillingStatus}
use mtd_backend.Billing.Lock.{
  TrialEmailDomain, TrialDb, Texts, assert_trial_domain_available, start_trial_for_new_tenant,
}
use mtd_backend.Auth.Database.{welcome, Db, Services, Fresh, send_mail}
use mtd_backend.Auth.Tokens.{issue_tokens}
use mtd_backend.Auth.Password.{send_verification_email}
use mtd_backend.Auth.Login.{AuthResponse, build_auth_user, session_response}

-- The tables of sign-in and those of the trial; the firms are the same.
pub record RegisterDb : Type 0 where
  pub auth : Db
  pub domains : List TrialEmailDomain
  pub trial_days : Option String

abbrev pub trial_db : RegisterDb → TrialDb
trial_db s = record {
  tenants = s.auth.accounts.tenants;
  domains = s.domains;
  trial_days = s.trial_days;
}

abbrev pub with_trial : RegisterDb → TrialDb → RegisterDb
with_trial s t = record s {
  auth = record s.auth { accounts = record s.auth.accounts { tenants = t.tenants } };
  domains = t.domains;
  trial_days = t.trial_days;
}

abbrev pub with_auth : RegisterDb → Db → RegisterDb
with_auth s t = record s { auth = t }

module _ {A : Type 0} where
  abbrev pub on_auth : Exec Db A → Exec RegisterDb A
  on_auth m s = let ran = m s.auth in (ran.0, with_auth s ran.1)

  abbrev pub on_trial : Exec TrialDb A → Exec RegisterDb A
  on_trial m s = let ran = m (trial_db s) in (ran.0, with_trial s ran.1)

pub record RegisterDto : Type 0 where
  pub first_name : String
  pub last_name : String
  pub practice_name : String
  pub email : String
  pub password : String

-- The row of a new firm, with the defaults of its columns.
unfoldable pub new_tenant : String → String → String → String → Tenant
new_tenant id firm_name contact_name contact_email = record {
  id = id;
  firm_name = firm_name;
  contact_name = some contact_name;
  contact_email = some contact_email;
  is_active = true;
  billing_status = BillingStatus.active;
  trial_starts_at = none;
  trial_ends_at = none;
  trial_email_domain = none;
  stripe_customer_id = none;
  stripe_subscription_id = none;
  billing_period_ends_at = none;
  billing_cancels_at = none;
  included_client_allowance = 50;
  trial_ending_email_sent_at = none;
  trial_expired_email_sent_at = none;
  phone = none;
  address = none;
  postcode = none;
  deactivation_reason = none;
  deactivated_at = none;
}

module _ (sv : Services) (js : Texts) (trim : String → String) (now : ℕ) where
  abbrev pub firm_of : String → RegisterDto → Tenant
  unfolding new_tenant
  firm_of tenant_id dto =
      new_tenant tenant_id dto.practice_name
        (trim (String.◌++◌ dto.first_name (String.◌++◌ " " dto.last_name))) (sv.lower dto.email)

  -- The argument of `usersService.create`.
  unfoldable pub owner_of_firm : String → RegisterDto → NewUser
  owner_of_firm tenant_id dto = record {
    first_name = dto.first_name;
    last_name = dto.last_name;
    firm_name = dto.practice_name;
    email = sv.lower dto.email;
    password_hash = sv.hash_password dto.password;
    role_name = "owner";
    tenant_id = some tenant_id;
    permissions = some owner_permissions;
    is_email_verified = none;
    is_active = none;
  }

  unfoldable pub add_tenant : Tenant → RegisterDb → RegisterDb
  add_tenant tenant s =
      with_trial s (record (trial_db s) { tenants = s.auth.accounts.tenants ++ tenant ∷ [] })

  unfoldable pub add_user : String → NewUser → RegisterDb → RegisterDb
  add_user user_id dto s = with_auth s (record s.auth {
    accounts = record s.auth.accounts { users = create_user user_id dto s.auth.accounts.users };
  })

  -- What follows the start of the trial.
  unfoldable pub finish_register :
      String → String → Fresh → Fresh → RegisterDto → Exec RegisterDb AuthResponse
  unfolding add_user owner_of_firm
  finish_register tenant_id user_id fresh mail_fresh dto = do
    modify (add_user user_id (owner_of_firm tenant_id dto))
    tokens ← on_auth (issue_tokens sv now fresh user_id (sv.lower dto.email) tenant_id false)
    on_auth (attempt (send_mail sv (welcome (sv.lower dto.email))))
    on_auth (attempt (send_verification_email sv now mail_fresh user_id (sv.lower dto.email)))
    gets (λ s.
        session_response tokens
          (build_auth_user (new_user user_id (owner_of_firm tenant_id dto)) s.auth))

  unfoldable pub register :
      String → String → Fresh → Fresh → RegisterDto → Exec RegisterDb AuthResponse
  unfolding add_tenant finish_register
  register tenant_id user_id fresh mail_fresh dto = do
    taken ← gets (λ s. email_exists (sv.lower dto.email) s.auth.accounts.users)
    throw_if taken (HttpError.conflict "An account with this email already exists")
    on_trial (assert_trial_domain_available js (sv.lower dto.email))
    modify (add_tenant (firm_of tenant_id dto))
    on_trial (start_trial_for_new_tenant js now tenant_id (sv.lower dto.email))
    finish_register tenant_id user_id fresh mail_fresh dto
