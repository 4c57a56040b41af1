-- ===== src/Auth/Session.antt =====
-- src/modules/auth/auth.service.ts: restoring a session, the profile, and the first step of MFA.
use mtd_backend.Common.{
  ℕ, ◌+◌, ◌*◌, String, Bool, Option, none, some, not, ◌&&◌, ltb, ◌===◌, get_or, present,
  if◌then◌else◌, HttpError, Result, ok, err, Exec, pure, throw, gets, require, modify, ◌>>=◌, ◌>>◌,
}
use mtd_backend.Users.{User}
use mtd_backend.Auth.Jwt.{JwtPayload, mfa_setup, find_user}
use mtd_backend.Auth.Database.{Db, Services, Fresh}
use mtd_backend.Auth.Tokens.{TokensResponse, issue_tokens, refresh_tokens}
use mtd_backend.Auth.Password.{update_user}
use mtd_backend.Auth.Login.{AuthUserResponse, AuthResponse, build_auth_user, session_response}

abbrev pub unknown_user : HttpError
unknown_user = HttpError.unauthorized "Unauthorized"

pub get_profile : String → Exec Db AuthUserResponse
get_profile user_id = do
  found ← gets (λ s. find_user user_id s.accounts.users)
  user ← require found unknown_user
  gets (build_auth_user user)

-- `updateName` and the answer; the names are trimmed.
pub update_profile : (String → String) → String → String → String → Exec Db AuthUserResponse
update_profile trim user_id first_name last_name = do
  found ← gets (λ s. find_user user_id s.accounts.users)
  user ← require found (HttpError.not_found "User not found")
  modify (
      update_user user_id
        (λ u. record u { first_name = trim first_name; last_name = trim last_name }))
  gets (build_auth_user (record user { first_name = trim first_name; last_name = trim last_name }))

pub record MfaSetup : Type 0 where
  pub secret : String
  pub otpauth_url : String
  pub setup_token : String

pub setup_payload : String → String → JwtPayload
setup_payload user_id stored = record {
  sub = user_id;
  email = "";
  tenant_id = "";
  mfa_authenticated = none;
  role = none;
  audience = none;
  permissions = none;
  iat = none;
  exp = none;
  token_type = some mfa_setup;
  totp_secret = some stored;
}

-- `secret` is drawn by otplib, which also makes the URL; `encrypt` is the cipher of the server.
pub setup_mfa :
    Services
    → (String → String → String)
    → (String → String → String)
    → ℕ
    → String
    → String
    → Exec Db MfaSetup
unfolding setup_payload
setup_mfa sv encrypt keyuri now secret user_id = do
  found ← gets (λ s. find_user user_id s.accounts.users)
  user ← require found unknown_user
  pure (record {
    secret = secret;
    otpauth_url = keyuri user.email secret;
    setup_token =
        sv.sign
          (setup_payload user_id (elim sv.encryption_key [
            | none ↦ secret
            | some key ↦ if present (some key) then encrypt secret key else secret
          ]))
          now;
  })

pub issue_session : Services → ℕ → Fresh → User → Bool → Exec Db AuthResponse
issue_session sv now fresh user mfa = do
  tokens ← issue_tokens sv now fresh user.id user.email (get_or user.tenant_id "") mfa
  gets (λ s. session_response tokens (build_auth_user user s))

-- The new tokens are there where the session was refreshed.
pub record SessionResponse : Type 0 where
  pub user : AuthUserResponse
  pub access_token_expires_at : ℕ
  pub tokens : Option TokensResponse

abbrev refreshed_session : AuthUserResponse → TokensResponse → SessionResponse
refreshed_session user tokens = record {
  user = user;
  access_token_expires_at = tokens.access_token_expires_at;
  tokens = some tokens;
}

-- `decode` reads the payload of a token that was just signed.
module _ (sv : Services) (decode : String → Option JwtPayload) (now : ℕ) where
  -- Within a minute of its end.
  abbrev pub is_expiring : JwtPayload → Bool
  is_expiring payload = ltb (get_or payload.exp 0 * 1000) (now + 60000)

  abbrev pub expiry_ms : JwtPayload → ℕ
  expiry_ms payload = get_or payload.exp 0 * 1000

  renew : Fresh → String → AuthUserResponse → Exec Db SessionResponse
  renew fresh raw user = do
    tokens ← refresh_tokens sv now fresh raw
    pure (refreshed_session user tokens)

  still_valid : JwtPayload → AuthUserResponse → Exec Db SessionResponse
  still_valid payload user =
      pure (record { user = user; access_token_expires_at = expiry_ms payload; tokens = none })

  after_profile : Fresh → Option String → JwtPayload → AuthUserResponse → Exec Db SessionResponse
  unfolding renew still_valid
  after_profile fresh raw_refresh payload user =
      if present raw_refresh && is_expiring payload
      then renew fresh (get_or raw_refresh "") user
      else still_valid payload user

  -- What stands in the `try` block, for a token that was verified.
  by_access : Fresh → Option String → JwtPayload → Exec Db SessionResponse
  unfolding get_profile after_profile
  by_access fresh raw_refresh payload = do
    user ← get_profile payload.sub
    after_profile fresh raw_refresh payload user

  refresh_session : Fresh → String → Exec Db SessionResponse
  unfolding get_profile
  refresh_session fresh raw = do
    tokens ← refresh_tokens sv now fresh raw
    payload ← require (decode tokens.access_token) (HttpError.internal "The token has no payload")
    user ← get_profile payload.sub
    pure (refreshed_session user tokens)

  -- What follows: the refresh token, if there is one.
  by_refresh : Fresh → Option String → Exec Db SessionResponse
  unfolding refresh_session
  by_refresh fresh raw_refresh =
      if present raw_refresh
      then refresh_session fresh (get_or raw_refresh "")
      else throw (HttpError.unauthorized "No valid session")

  -- `catch {}`: an error is dropped, and what was written before it stays.
  or_else_refresh :
      Result SessionResponse × Db → Exec Db SessionResponse → Result SessionResponse × Db
  or_else_refresh (ok session, s) next = (ok session, s)
  or_else_refresh (err e, s) next = next s

  verified : Option String → Option JwtPayload
  verified none = none
  verified (some raw) = if not (raw === "") then sv.verify raw now else none

  -- `fresh` and `again` are the draws of the two refreshes.
  unfoldable pub restore_session :
      Fresh → Fresh → Option String → Option String → Exec Db SessionResponse
  unfolding by_access by_refresh or_else_refresh verified
  restore_session fresh again raw_access raw_refresh s = elim (verified raw_access) [
    | none ↦ by_refresh again raw_refresh s
    | some payload ↦
        or_else_refresh (by_access fresh raw_refresh payload s) (by_refresh again raw_refresh)
  ]
