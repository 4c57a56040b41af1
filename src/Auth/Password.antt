-- ===== src/Auth/Password.antt =====
-- src/modules/auth/auth.service.ts: resetting a password and verifying an email address, by tokens
-- that are mailed and work once. `setHours` in the source adds hours to the local clock; the model
-- adds them to the time, which is the same but across a change to or from summer time.
pub mod Reset
pub mod Forgot
use Prim.Native.String
use mtd_backend.Common.{
  ℕ, ◌+◌, ◌*◌, String, Bool, true, false, Option, none, some, List, [], ◌∷◌, ◌++◌, not, ◌&&◌, ltb,
  ◌===◌, find, update, if◌then◌else◌, HttpError, Result, ok, err, Exec, pure, gets, require, modify,
  throw_if, ◌>>=◌, ◌>>◌,
}
use mtd_backend.Users.{User}
use mtd_backend.Auth.Jwt.{Accounts}
use mtd_backend.Auth.Database.{
  OneTimeToken, Mail, password_reset, email_verification, Db, Services, Fresh, find_user_by_email,
  send_mail,
}
use mtd_backend.Auth.Tokens.{revoke_sessions}

abbrev pub hour_ms : ℕ
hour_ms = 3600000

-- `{ tokenHash, isUsed: false }`
abbrev pub is_open : Services → String → OneTimeToken → Bool
is_open sv raw t = t.token_hash === sv.sha256 raw && not t.is_used

abbrev pub is_open_of : String → OneTimeToken → Bool
is_open_of user_id t = t.user_id === user_id && not t.is_used

abbrev pub used : OneTimeToken → OneTimeToken
used t = record t { is_used = true }

pub new_token : Services → Fresh → String → ℕ → OneTimeToken
new_token sv fresh user_id expires_at = record {
  id = fresh.id;
  user_id = user_id;
  token_hash = sv.sha256 fresh.raw;
  expires_at = expires_at;
  is_used = false;
}

-- The open tokens of the user are used up, and one new token is added.
pub replace_open : Services → Fresh → String → ℕ → List OneTimeToken → List OneTimeToken
replace_open sv fresh user_id expires_at tokens =
    update (is_open_of user_id) used tokens ++ new_token sv fresh user_id expires_at ∷ []

unfoldable pub update_user : String → (User → User) → Db → Db
update_user id change s = record s {
  accounts = record s.accounts { users = update (λ u. u.id === id) change s.accounts.users };
}

abbrev pub link : Services → String → String → String
link sv path raw = String.◌++◌ sv.frontend_url (String.◌++◌ path raw)

abbrev pub invalid_link : HttpError
invalid_link = HttpError.bad_request "Invalid or expired reset link. Please request a new one."

abbrev pub invalid_verification : HttpError
invalid_verification =
    HttpError.bad_request "Invalid or expired verification link. Please request a new one."

module _ (sv : Services) (now : ℕ) where
  pub forgot_for : Fresh → User → Exec Db Unit
  forgot_for fresh user = do
    modify (λ s. record s {
      reset_tokens = replace_open sv fresh user.id (now + 1 * hour_ms) s.reset_tokens;
    })
    send_mail sv (password_reset user.email (link sv "/reset-password?token=" fresh.raw))

  -- Unknown addresses and inactive users get the same silent answer.
  unfoldable pub forgot_password : Fresh → String → Exec Db Unit
  forgot_password fresh email = do
    found ← gets (λ s. find_user_by_email (sv.lower email) s.accounts.users)
    elim found [
      | none ↦ pure tt
      | some user ↦ if user.is_active then forgot_for fresh user else pure tt
    ]

  -- The foreign key keeps the user of a stored token.
  unfoldable pub reset_password : String → String → Exec Db Unit
  reset_password raw new_password = do
    found ← gets (λ s. find (is_open sv raw) s.reset_tokens)
    stored ← require found invalid_link
    throw_if (ltb stored.expires_at now) invalid_link
    modify (λ s. record s { reset_tokens = update (λ t. t.id === stored.id) used s.reset_tokens })
    modify (
        update_user stored.user_id
          (λ u. record u { password_hash = sv.hash_password new_password }))
    modify (revoke_sessions stored.user_id)

  unfoldable pub send_verification_email : Fresh → String → String → Exec Db Unit
  send_verification_email fresh user_id email = do
    modify (λ s. record s {
      verification_tokens =
          replace_open sv fresh user_id (now + 24 * hour_ms) s.verification_tokens;
    })
    send_mail sv (email_verification email (link sv "/verify-email?token=" fresh.raw))

  pub verify_email : String → Exec Db Unit
  verify_email raw = do
    found ← gets (λ s. find (is_open sv raw) s.verification_tokens)
    stored ← require found invalid_verification
    throw_if (ltb stored.expires_at now) invalid_verification
    modify (λ s. record s {
      verification_tokens = update (λ t. t.id === stored.id) used s.verification_tokens;
    })
    modify (update_user stored.user_id (λ u. record u { is_email_verified = true }))
