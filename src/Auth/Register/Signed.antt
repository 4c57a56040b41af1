-- ===== src/Auth/Register/Signed.antt =====
-- Whoever has registered can sign in, as the owner of a firm on trial.
use mtd_backend.Common.{
  ℕ, String, true, false, none, some, List, [], ◌∷◌, ◌++◌, ◌≡◌, ◌≢◌, ◌∙◌, refl, sym, ap, inl, inr,
  arith, ◌===◌, eq_iff, eq_refl, All, present, Bool-cases, find, find-append, find-update_self,
  count_where, ok,
}
use mtd_backend.Users.{User}
use mtd_backend.Users.Permissions.{
  AppRole, owner_permissions, resolve_app_role, is_platform_admin, normalize_permissions,
}
use mtd_backend.Users.Accounts.{new_user, create_user, email_exists}
use mtd_backend.Tenants.{Tenant, BillingStatus}
use mtd_backend.Billing.Lock.{Texts, on_trial_from}
use mtd_backend.Billing.Lock.Once.{start-tenants}
use mtd_backend.Auth.Jwt.{Accounts, find_tenant, tenant_of}
use mtd_backend.Auth.Database.{Services, Fresh, find_user_by_email, firm_is_active}
use mtd_backend.Auth.Tokens.{permissions_for}
use mtd_backend.Auth.Login.Session.{login-session}
use mtd_backend.Auth.Login.{AuthResponse, to_auth_user, build_auth_user, login}
use mtd_backend.Auth.Register.{
  RegisterDb, RegisterDto, trial_db, firm_of, new_tenant, owner_of_firm, add_tenant, register,
}
use mtd_backend.Auth.Register.Done.{IsRegistered, register-IsRegistered}

-- An address that no user has.
email_exists-find :
    (email : String) (xs : List User)
    → email_exists email xs ≡ false
    → find_user_by_email email xs ≡ none
unfolding email_exists count_where find_user_by_email find
email_exists-find email [] h = refl
email_exists-find email (x ∷ xs) h = ground (arith, email_exists-find email xs)

find-append_new :
    (tenant_id : String) (xs : List Tenant) (x : Tenant)
    → All (λ t. t.id ≢ tenant_id) xs
    → x.id ≡ tenant_id
    → find (λ t. t.id === tenant_id) (xs ++ x ∷ []) ≡ some x
unfolding find
find-append_new tenant_id [] x fresh own = ground (arith, eq_iff x.id tenant_id)
find-append_new tenant_id (y ∷ xs) x (apart, fresh) own =
    ground (arith, eq_iff y.id tenant_id, find-append_new tenant_id xs x fresh own)

module _ (sv : Services) (js : Texts) (trim : String → String) (now : ℕ)
    (tenant_id user_id : String) (fresh mail_fresh : Fresh) (dto : RegisterDto) (s t : RegisterDb)
    (r : AuthResponse) where
  abbrev owner : User
  owner = new_user user_id (owner_of_firm sv js trim now tenant_id dto)

  abbrev firm : Tenant
  firm = firm_of sv js trim now tenant_id dto

  owner_found :
      IsRegistered sv js trim now tenant_id user_id fresh mail_fresh dto s t r
      → find_user_by_email (sv.lower dto.email) t.auth.accounts.users ≡ some owner
  unfolding find_user_by_email create_user new_user owner_of_firm find
  owner_found done = rw (done.users) (
      find-append (λ u. u.email === sv.lower dto.email) s.auth.accounts.users (owner ∷ [])
        (email_exists-find (sv.lower dto.email) s.auth.accounts.users done.free)
      ∙ rw (eq_refl (sv.lower dto.email)) refl)

  firm_found :
      (done : IsRegistered sv js trim now tenant_id user_id fresh mail_fresh dto s t r)
      → All (λ t. t.id ≢ tenant_id) s.auth.accounts.tenants
      → (find_tenant tenant_id t.auth.accounts.tenants ≡ some (done.tenant))
        × (done.tenant.billing_status ≡ BillingStatus.trial)
        × (done.tenant.is_active ≡ true)
  unfolding find_tenant on_trial_from new_tenant add_tenant
  firm_found done fresh =
      let found = find-append_new tenant_id s.auth.accounts.tenants firm fresh refl in
      let (row, rows) =
        start-tenants js now tenant_id (sv.lower dto.email)
          (trial_db (add_tenant sv js trim now firm s)) (done.trial) (done.tenant) firm found
          (done.started) in
      let id : done.tenant.id ≡ tenant_id = ap (λ t. t.id) row in
      let kept =
        find-update_self (λ t. t.id === tenant_id) (λ t. t.id === done.tenant.id) done.tenant firm
          (s.auth.accounts.tenants ++ firm ∷ []) found (rw id (eq_refl tenant_id))
          (eq_refl (done.tenant.id)) in
      (
        ap (λ i. find_tenant i t.auth.accounts.tenants) (sym id)
            ∙ ap (find_tenant (done.tenant.id)) (done.tenants ∙ rows)
            ∙ kept,
        ap (λ t. t.billing_status) row,
        ap (λ t. t.is_active) row,
      )

firm_is_active_lem :
    (accounts : Accounts) (tenant_id : String) (tenant : Tenant)
    → find_tenant tenant_id accounts.tenants ≡ some tenant
    → tenant.is_active ≡ true
    → firm_is_active accounts (some tenant_id) ≡ true
unfolding firm_is_active
firm_is_active_lem accounts tenant_id tenant found active =
    elim (Bool-cases (present (some tenant_id))) [
      | inl there ↦ rw (there, found) active
      | inr empty ↦ rw empty refl
    ]

module _ (sv : Services) (js : Texts) (trim : String → String) (now later : ℕ)
    (tenant_id user_id : String) (fresh mail_fresh session_fresh resend_fresh : Fresh)
    (dto : RegisterDto) (email : String) (s t : RegisterDb) (r : AuthResponse) where
  -- The session of the owner of a firm on trial.
  pub record IsOwnerSession (session : AuthResponse) : Type 0 where
    pub whole : session.requires_mfa ≡ false
    pub id : session.user.id ≡ user_id
    pub firm : session.user.tenant_id ≡ some tenant_id
    pub role : session.user.role ≡ AppRole.owner
    pub permissions : session.user.permissions ≡ owner_permissions
    pub status : session.user.billing_status ≡ some BillingStatus.trial

  owner-session :
      (session : AuthResponse) (tenant : Tenant)
      → session.requires_mfa ≡ false
      → session.user
        ≡ build_auth_user (new_user user_id (owner_of_firm sv js trim now tenant_id dto)) t.auth
      → find_tenant tenant_id t.auth.accounts.tenants ≡ some tenant
      → tenant.billing_status ≡ BillingStatus.trial
      → IsOwnerSession session
  unfolding build_auth_user to_auth_user new_user owner_of_firm tenant_of resolve_app_role
      permissions_for normalize_permissions
  owner-session session tenant whole answer found trial = record {
    whole = whole;
    id = ap (λ u. u.id) answer;
    firm = ap (λ u. u.tenant_id) answer;
    role = ap (λ u. u.role) answer;
    permissions = ap (λ u. u.permissions) answer;
    status = ap (λ u. u.billing_status) answer ∙ rw found (ap (λ b. some b) trial);
  }

  -- Whoever has registered can sign in from then on, at once, with the same password and address,
  -- in capitals or not: the answer is a session of the owner of the new firm, which is on trial, if
  -- the firm's id is new and a password matches its own hash.
  pub login-register :
      All (λ t. t.id ≢ tenant_id) s.auth.accounts.tenants
      → sv.compare_password dto.password (sv.hash_password dto.password) ≡ true
      → sv.lower email ≡ sv.lower dto.email
      → register sv js trim now tenant_id user_id fresh mail_fresh dto s ≡ (ok r, t)
      → (session : AuthResponse) × ((login sv later session_fresh resend_fresh email dto.password
            t.auth).0
          ≡ ok session)
        × IsOwnerSession session
  unfolding new_user owner_of_firm is_platform_admin
  login-register new matches same h =
      let done =
        register-IsRegistered sv js trim now tenant_id user_id fresh mail_fresh dto s t r h in
      let found = owner_found sv js trim now tenant_id user_id fresh mail_fresh dto s t r done in
      let (firm, trial, active) =
        firm_found sv js trim now tenant_id user_id fresh mail_fresh dto s t r done new in
      let (session, run, whole, answer) =
        login-session sv later session_fresh resend_fresh email dto.password t.auth
          (new_user user_id (owner_of_firm sv js trim now tenant_id dto)) (rw same found) refl refl
          matches (firm_is_active_lem t.auth.accounts tenant_id (done.tenant) firm active) refl in
      (session, run, owner-session session (done.tenant) whole answer firm trial)
