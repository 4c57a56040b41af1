-- ===== src/Auth/Login/Session.antt =====
-- A sign-in that passes every check is answered with a session.
use mtd_backend.Common.{
  ℕ, String, true, false, none, some, ◌≡◌, refl, ap, arith, get_or, ok, Run-cases, inl, inr, ◌∙◌,
}
use mtd_backend.Users.{User}
use mtd_backend.Users.Permissions.{is_platform_admin}
use mtd_backend.Auth.Jwt.{tenant_of}
use mtd_backend.Auth.Database.{Db, Services, Fresh, find_user_by_email, firm_is_active, send_mail}
use mtd_backend.Auth.Tokens.{issue_tokens}
use mtd_backend.Auth.Password.{send_verification_email, update_user}
use mtd_backend.Auth.Login.{
  AuthResponse, build_auth_user, has_mfa, finish_login, touch_login, resend_verification, login,
}
use mtd_backend.Auth.Login.Password.{resend-tokens}

module _ (sv : Services) (now : ℕ) where
  resend-accounts :
      (fresh : Fresh) (user : User) (s : Db)
      → (resend_verification sv now fresh user s).1.accounts ≡ s.accounts
  unfolding resend_verification send_verification_email send_mail
  resend-accounts fresh user s = ground arith

  build-accounts :
      (user : User) (s t : Db)
      → s.accounts.tenants ≡ t.accounts.tenants
      → build_auth_user user s ≡ build_auth_user user t
  unfolding build_auth_user tenant_of
  build-accounts user s t same = rw same refl

  finish-session :
      (fresh : Fresh) (user : User) (tenant_id : String) (s : Db)
      → has_mfa user ≡ false
      → (r : AuthResponse) × ((finish_login sv now fresh user tenant_id none s).0 ≡ ok r)
        × (r.requires_mfa ≡ false)
        × (r.user ≡ build_auth_user user s)
  unfolding finish_login issue_tokens build_auth_user
  finish-session fresh user tenant_id s plain =
      elim (Run-cases (finish_login sv now fresh user tenant_id none s)) [
        | inr (e, u, failed) ↦ absurd (ground arith)
        | inl (r, u, run) ↦ (r, ap (λ p. p.0) run, ground arith, ground arith)
      ]

  login-finish_session :
      (fresh mail_fresh : Fresh) (email password : String) (s : Db) (user : User)
      → find_user_by_email (sv.lower email) s.accounts.users ≡ some user
      → user.is_active ≡ true
      → is_platform_admin user.role_name ≡ false
      → sv.compare_password password user.password_hash ≡ true
      → firm_is_active s.accounts user.tenant_id ≡ true
      → login sv now fresh mail_fresh email password s
        ≡ finish_login sv now fresh user
            (get_or user.tenant_id "")
            none
            (resend_verification sv now mail_fresh user (touch_login sv now user.id s).1).1
  unfolding login touch_login
  login-finish_session fresh mail_fresh email password s user found active firm_user right firm =
      let sent = (resend-tokens sv now mail_fresh user (touch_login sv now user.id s).1).1 in
      ground (arith, found, active, firm_user, right, firm, sent)

  -- A sign-in that passes every check, of a user without MFA, is answered with a session.
  pub login-session :
      (fresh mail_fresh : Fresh) (email password : String) (s : Db) (user : User)
      → find_user_by_email (sv.lower email) s.accounts.users ≡ some user
      → user.is_active ≡ true
      → is_platform_admin user.role_name ≡ false
      → sv.compare_password password user.password_hash ≡ true
      → firm_is_active s.accounts user.tenant_id ≡ true
      → has_mfa user ≡ false
      → (r : AuthResponse) × ((login sv now fresh mail_fresh email password s).0 ≡ ok r)
        × (r.requires_mfa ≡ false)
        × (r.user ≡ build_auth_user user s)
  unfolding touch_login update_user
  login-session fresh mail_fresh email password s user found active firm_user right firm plain =
      let touched = (touch_login sv now user.id s).1 in
      let final = (resend_verification sv now mail_fresh user touched).1 in
      let (r, run, mfa, same) = finish-session fresh user (get_or user.tenant_id "") final plain in
      (
        r,
        rw
            (login-finish_session fresh mail_fresh email password s user found active firm_user
              right firm)
            run,
        mfa,
        same
            ∙ build-accounts user final s
                (ap (λ a. a.tenants) (resend-accounts mail_fresh user touched)),
      )
