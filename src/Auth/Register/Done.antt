-- ===== src/Auth/Register/Done.antt =====
-- What a registration that succeeds has checked and written.
use mtd_backend.Common.{
  ℕ, String, false, ◌≡◌, ◌∙◌, refl, sym, ap, inl, inr, arith, Run-cases, Bool-cases, ok, err,
  HttpError,
}
use mtd_backend.Users.Accounts.{create_user, email_exists}
use mtd_backend.Tenants.{Tenant}
use mtd_backend.Billing.Lock.{
  TrialDb, Texts, assert_trial_domain_available, start_trial_for_new_tenant,
}
use mtd_backend.Billing.Lock.Once.{assert-state}
use mtd_backend.Auth.Database.{Services, Fresh, send_mail}
use mtd_backend.Auth.Tokens.{issue_tokens}
use mtd_backend.Auth.Password.{send_verification_email}
use mtd_backend.Auth.Login.{AuthResponse}
use mtd_backend.Auth.Register.{
  RegisterDb, RegisterDto, trial_db, with_trial, firm_of, owner_of_firm, add_tenant, add_user,
  finish_register, register,
}

module _ (sv : Services) (js : Texts) (trim : String → String) (now : ℕ)
    (tenant_id user_id : String) (fresh mail_fresh : Fresh) (dto : RegisterDto) (s t : RegisterDb)
    (r : AuthResponse) where
  -- What a registration has checked and done.
  pub record IsRegistered : Type 0 where
    pub free : email_exists (sv.lower dto.email) s.auth.accounts.users ≡ false
    pub users :
        t.auth.accounts.users
        ≡ create_user user_id (owner_of_firm sv js trim now tenant_id dto) s.auth.accounts.users
    pub tenant : Tenant
    pub trial : TrialDb
    pub started :
        start_trial_for_new_tenant js now tenant_id
          (sv.lower dto.email)
          (trial_db (add_tenant sv js trim now (firm_of sv js trim now tenant_id dto) s))
        ≡ (ok tenant, trial)
    pub tenants : t.auth.accounts.tenants ≡ trial.tenants

  finish-accounts :
      (u : RegisterDb)
      → (finish_register sv js trim now tenant_id user_id fresh mail_fresh dto u).1.auth.accounts
        ≡ record u.auth.accounts {
          users =
              create_user user_id
                (owner_of_firm sv js trim now tenant_id dto)
                u.auth.accounts.users;
        }
  unfolding finish_register add_user issue_tokens send_mail send_verification_email
  finish-accounts u = ground arith

  register-finish :
      (v : TrialDb) (tenant : Tenant)
      → email_exists (sv.lower dto.email) s.auth.accounts.users ≡ false
      → (assert_trial_domain_available js (sv.lower dto.email) (trial_db s)).0 ≡ ok tt
      → start_trial_for_new_tenant js now tenant_id
          (sv.lower dto.email)
          (trial_db (add_tenant sv js trim now (firm_of sv js trim now tenant_id dto) s))
        ≡ (ok tenant, v)
      → register sv js trim now tenant_id user_id fresh mail_fresh dto s
        ≡ finish_register sv js trim now tenant_id user_id fresh mail_fresh dto
            (with_trial (add_tenant sv js trim now (firm_of sv js trim now tenant_id dto) s) v)
  unfolding register
  register-finish v tenant free passed started =
      rw
        (
          free,
          passed,
          assert-state js now tenant_id (sv.lower dto.email) (trial_db s) (trial_db s) tenant,
          started,
        )
        refl

  register-failed :
      (v : TrialDb) (e : HttpError)
      → email_exists (sv.lower dto.email) s.auth.accounts.users ≡ false
      → (assert_trial_domain_available js (sv.lower dto.email) (trial_db s)).0 ≡ ok tt
      → start_trial_for_new_tenant js now tenant_id
          (sv.lower dto.email)
          (trial_db (add_tenant sv js trim now (firm_of sv js trim now tenant_id dto) s))
        ≡ (err e, v)
      → (register sv js trim now tenant_id user_id fresh mail_fresh dto s).0 ≡ err e
  unfolding register
  register-failed v e free passed failed =
      rw
        (
          free,
          passed,
          assert-state js now tenant_id (sv.lower dto.email) (trial_db s) (trial_db s)
              (firm_of sv js trim now tenant_id dto),
          failed,
        )
        refl

  pub register-IsRegistered :
      register sv js trim now tenant_id user_id fresh mail_fresh dto s ≡ (ok r, t) → IsRegistered
  unfolding register
  register-IsRegistered h =
      let firm = firm_of sv js trim now tenant_id dto in
      let email = sv.lower dto.email in
      elim (Bool-cases (email_exists email s.auth.accounts.users)) [
        | inl taken ↦ let refused = rw taken at h in absurd (ground arith)
        | inr free ↦ elim (Run-cases (assert_trial_domain_available js email (trial_db s))) [
          | inr (e, u, locked) ↦ let refused = rw (free, locked) at h in absurd (ground arith)
          | inl (unit, u, passed) ↦
              elim (Run-cases (
                start_trial_for_new_tenant js now tenant_id email
                  (trial_db (add_tenant sv js trim now firm s)))) [
                    | inr (e, v, failed) ↦
                        let refused = register-failed v e free (ap (λ p. p.0) passed) failed in
                        let done = ap (λ p. p.0) h in absurd (ground arith)
                    | inl (tenant, v, started) ↦
                        let run = register-finish v tenant free (ap (λ p. p.0) passed) started in
                        let last : (finish_register sv js trim now tenant_id user_id fresh
                              mail_fresh dto (with_trial (add_tenant sv js trim now firm s) v)).1
                            ≡ t =
                          ap (λ p. p.1) (sym run ∙ h) in
                        let accounts =
                          ap (λ u. u.auth.accounts) (sym last)
                          ∙ finish-accounts (with_trial (add_tenant sv js trim now firm s) v) in
                        record {
                          free = free;
                          users = ap (λ a. a.users) accounts;
                          tenant = tenant;
                          trial = v;
                          started = started;
                          tenants = ap (λ a. a.tenants) accounts;
                        }
                  ]
        ]
      ]
