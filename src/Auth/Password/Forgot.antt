-- ===== src/Auth/Password/Forgot.antt =====
-- Asking for a reset link.
use mtd_backend.Common.{
  ℕ, ◌+◌, ◌*◌, String, true, false, some, List, [], ◌∷◌, ◌≡◌, ◌≢◌, ◌≤◌, inl, inr, refl, arith,
  eq_iff, eq_refl, Option-cases, All, All-append, All-update, All-always, find, find-append,
  find-none_of_All, update, ok,
}
use mtd_backend.Users.{User}
use mtd_backend.Auth.Database.{OneTimeToken, Db, Services, Fresh, find_user_by_email, send_mail}
use mtd_backend.Auth.Password.{
  hour_ms, is_open, is_open_of, used, new_token, replace_open, forgot_for, forgot_password,
  reset_password,
}

module _ (sv : Services) (fresh : Fresh) (user_id : String) (expires_at : ℕ) where
  -- Of the user's tokens only the new one is open.
  replace_open-newest :
      (tokens : List OneTimeToken)
      → All
          (λ t. is_open_of user_id t ≡ true → t.token_hash ≡ sv.sha256 fresh.raw)
          (replace_open sv fresh user_id expires_at tokens)
  unfolding replace_open new_token
  replace_open-newest tokens =
      All-append (λ t. is_open_of user_id t ≡ true → t.token_hash ≡ sv.sha256 fresh.raw)
        (update (is_open_of user_id) used tokens) (new_token sv fresh user_id expires_at ∷ [])
        (All-update (λ _. Unit {0})
          (λ t. is_open_of user_id t ≡ true → t.token_hash ≡ sv.sha256 fresh.raw)
          (is_open_of user_id) used tokens (λ t _ e o. absurd (ground arith))
          (λ t _ e o. absurd (ground arith)) (All-always (λ _. Unit {0}) tokens (λ _. tt)))
        (λ o. refl, tt)

  -- The new token is found under its raw token, if no other row has its hash.
  replace_open-found :
      (tokens : List OneTimeToken)
      → All (λ t. t.token_hash ≢ sv.sha256 fresh.raw) tokens
      → find (is_open sv fresh.raw) (replace_open sv fresh user_id expires_at tokens)
        ≡ some (new_token sv fresh user_id expires_at)
  unfolding replace_open new_token
  replace_open-found tokens apart =
      let closed =
        All-update (λ t. t.token_hash ≢ sv.sha256 fresh.raw) (λ t. is_open sv fresh.raw t ≡ false)
          (is_open_of user_id) used tokens (λ t n e. ground arith)
          (λ t n e. ground (arith, eq_iff t.token_hash (sv.sha256 fresh.raw))) apart in
      rw
        (find-append (is_open sv fresh.raw) (update (is_open_of user_id) used tokens)
          (new_token sv fresh user_id expires_at ∷ [])
          (find-none_of_All (is_open sv fresh.raw) _ closed))
        (unfold find in (ground (arith, eq_refl (sv.sha256 fresh.raw))))

reset_of_open :
    (sv : Services) (now : ℕ) (raw new_password : String) (s : Db) (stored : OneTimeToken)
    → find (is_open sv raw) s.reset_tokens ≡ some stored
    → now ≤ stored.expires_at
    → (reset_password sv now raw new_password s).0 ≡ ok tt
unfolding reset_password
reset_of_open sv now raw new_password s stored found early = rw found (ground arith)

module _ (sv : Services) (now : ℕ) (fresh : Fresh) (email : String) (s : Db) where
  -- For an address of no user, or of an inactive one, the answer is the silent success and nothing
  -- changes: the caller cannot tell such addresses from others whose mail goes out.
  pub forgot_password_silent :
      ((user : User)
        → find_user_by_email (sv.lower email) s.accounts.users ≡ some user
        → user.is_active ≡ false)
      → forgot_password sv now fresh email s ≡ (ok tt, s)
  unfolding forgot_password
  forgot_password_silent h =
      elim (Option-cases (find_user_by_email (sv.lower email) s.accounts.users)) [
        | inl missing ↦ rw missing refl
        | inr (user, found) ↦ rw (found, h user found) refl
      ]

  forgot-tokens :
      (user : User)
      → find_user_by_email (sv.lower email) s.accounts.users ≡ some user
      → user.is_active ≡ true
      → (forgot_password sv now fresh email s).1.reset_tokens
        ≡ replace_open sv fresh user.id (now + 1 * hour_ms) s.reset_tokens
  unfolding forgot_password forgot_for send_mail
  forgot-tokens user found active = rw (found, active) (ground arith)

  -- For an active user, whether the mail goes out or not: of the user's reset tokens only the new
  -- one is open afterwards, and until one hour has passed its link resets the password, if no
  -- stored token has the hash of the newly drawn one.
  pub reset-forgot :
      (user : User) (later : ℕ) (new_password : String)
      → find_user_by_email (sv.lower email) s.accounts.users ≡ some user
      → user.is_active ≡ true
      → All (λ t. t.token_hash ≢ sv.sha256 fresh.raw) s.reset_tokens
      → later ≤ now + 3600000
      → All
          (λ t. is_open_of user.id t ≡ true → t.token_hash ≡ sv.sha256 fresh.raw)
          (forgot_password sv now fresh email s).1.reset_tokens
        × ((reset_password sv later fresh.raw new_password
              (forgot_password sv now fresh email s).1).0
            ≡ ok tt)
  reset-forgot user later new_password found active apart early =
      let tokens = forgot-tokens user found active in
      let opened = replace_open-found sv fresh user.id (now + 1 * hour_ms) s.reset_tokens apart in
      (
        rw tokens (replace_open-newest sv fresh user.id (now + 1 * hour_ms) s.reset_tokens),
        reset_of_open sv later fresh.raw new_password _
            (new_token sv fresh user.id (now + 1 * hour_ms)) (rw tokens opened)
            (unfold new_token in omega arith),
      )
