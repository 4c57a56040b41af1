-- ===== src/Auth/Login/Password.antt =====
-- What a sign-in with a password has checked, and what it leaves.
use mtd_backend.Common.{
  ℕ, String, true, false, none, some, [], ◌∷◌, ◌++◌, ◌≡◌, ◌⊎◌, inl, inr, refl, ◌∙◌, arith, get_or,
  Option-cases, Bool-cases, ok,
}
use mtd_backend.Users.{User}
use mtd_backend.Users.Permissions.{is_platform_admin}
use mtd_backend.Auth.Database.{Db, Services, Fresh, find_user_by_email, firm_is_active, send_mail}
use mtd_backend.Auth.Tokens.{new_refresh_token, issue_tokens}
use mtd_backend.Auth.Password.{send_verification_email, update_user}
use mtd_backend.Auth.Login.{
  AuthResponse, has_mfa, finish_login, touch_login, resend_verification, login,
}

module _ (sv : Services) (now : ℕ) where
  -- The challenge or the session that ends a sign-in.
  abbrev pub Outcome : Fresh → User → Db → AuthResponse → Db → Type 0
  Outcome fresh user s r u =
      ((has_mfa user ≡ true)
        × (r.requires_mfa ≡ true)
        × (r.access_token ≡ "")
        × (r.refresh_token ≡ "")
        × (u.refresh_tokens ≡ s.refresh_tokens))
      ⊎ ((has_mfa user ≡ false)
          × (r.requires_mfa ≡ false)
          × (r.refresh_token ≡ fresh.raw)
          × (u.refresh_tokens
              ≡ s.refresh_tokens ++ new_refresh_token sv now fresh user.id false ∷ []))

  -- A sign-in that was answered, from the state `s` to the state `u`.
  pub record IsSignedIn (fresh : Fresh) (email password : String) (s : Db) (r : AuthResponse)
      (u : Db) : Type 0 where
    pub user : User
    pub found : find_user_by_email (sv.lower email) s.accounts.users ≡ some user
    pub active : user.is_active ≡ true
    pub firm_user : is_platform_admin user.role_name ≡ false
    pub password_right : sv.compare_password password user.password_hash ≡ true
    pub firm : firm_is_active s.accounts user.tenant_id ≡ true
    pub outcome : Outcome fresh user s r u

  pub resend-tokens :
      (fresh : Fresh) (user : User) (s : Db)
      → ((resend_verification sv now fresh user s).1.refresh_tokens ≡ s.refresh_tokens)
        × ((resend_verification sv now fresh user s).0 ≡ ok tt)
  unfolding resend_verification send_verification_email send_mail
  resend-tokens fresh user s = ground arith

  finish_login-Outcome :
      (fresh : Fresh) (user : User) (tenant_id : String) (s u : Db) (r : AuthResponse)
      → finish_login sv now fresh user tenant_id none s ≡ (ok r, u)
      → Outcome fresh user s r u
  unfolding finish_login issue_tokens
  finish_login-Outcome fresh user tenant_id s u r h = elim (Bool-cases (has_mfa user)) [
    | inl mfa ↦
        let done = rw (mfa, finish_login) at h in
        inl (mfa, ground arith, ground arith, ground arith, ground arith)
    | inr plain ↦
        let done = rw (plain, finish_login) at h in
        inr (plain, ground arith, ground arith, ground arith)
  ]

  -- The state that `finish_login` starts from.
  abbrev before_finish : Fresh → User → Db → Db
  before_finish mail_fresh user s =
      (resend_verification sv now mail_fresh user (touch_login sv now user.id s).1).1

  touch_login-tokens :
      (id : String) (s : Db)
      → ((touch_login sv now id s).1.refresh_tokens ≡ s.refresh_tokens)
        × ((touch_login sv now id s).0 ≡ ok tt)
  unfolding touch_login update_user
  touch_login-tokens id s = (refl, refl)

  login-finish :
      (fresh mail_fresh : Fresh) (email password : String) (s u : Db) (r : AuthResponse)
      (user : User)
      → find_user_by_email (sv.lower email) s.accounts.users ≡ some user
      → login sv now fresh mail_fresh email password s ≡ (ok r, u)
      → finish_login sv now fresh user
          (get_or user.tenant_id "")
          none
          (before_finish mail_fresh user s)
        ≡ (ok r, u)
  unfolding login
  login-finish fresh mail_fresh email password s u r user found h =
      let touched = (touch_login-tokens user.id s).1 in
      let resent = (resend-tokens mail_fresh user (touch_login sv now user.id s).1).1 in
      ground (arith, found, touched, resent, h)

  -- A sign-in with a password that is answered found a stored, active firm user under the address
  -- in lower case, the password is the user's, and the firm, if the user has one, is active. A user
  -- with MFA is answered with the challenge alone: no token of a session, and no row of a refresh
  -- token. Any other user gets a session, with one new row that is not marked as authenticated by
  -- MFA.
  pub login-IsSignedIn :
      (fresh mail_fresh : Fresh) (email password : String) (s u : Db) (r : AuthResponse)
      → login sv now fresh mail_fresh email password s ≡ (ok r, u)
      → IsSignedIn fresh email password s r u
  unfolding login touch_login resend_verification send_verification_email send_mail update_user
  login-IsSignedIn fresh mail_fresh email password s u r h =
      elim (Option-cases (find_user_by_email (sv.lower email) s.accounts.users)) [
        | inl missing ↦ absurd (ground arith)
        | inr (user, found) ↦ record {
          user = user;
          found = found;
          active = ground arith;
          firm_user = ground arith;
          password_right = ground arith;
          firm = ground arith;
          outcome =
              let touched = (touch_login-tokens user.id s).0 in
              let resent = (resend-tokens mail_fresh user (touch_login sv now user.id s).1).0 in
              let same : (before_finish mail_fresh user s).refresh_tokens ≡ s.refresh_tokens =
                resent ∙ touched in
              let done =
                finish_login-Outcome fresh user (get_or user.tenant_id "")
                  (before_finish mail_fresh user s) u r
                  (login-finish fresh mail_fresh email password s u r user found h) in
              rw same at done;
        }
      ]
