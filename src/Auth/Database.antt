-- ===== src/Auth/Database.antt =====
-- The tables of src/modules/auth/entities, and the services that the handlers of
-- src/modules/auth/auth.service.ts call: hashing, signing, TOTP and mail.
use mtd_backend.Common.{
  ℕ, String, Bool, true, false, Option, none, some, List, [], ◌∷◌, ◌++◌, if◌then◌else◌, find, ◌===◌,
  not, ◌&&◌, present, HttpError, ok, err, Exec, throw_if,
}
use mtd_backend.Users.{User}
use mtd_backend.Tenants.{Tenant}
use mtd_backend.Auth.Jwt.{JwtPayload, Accounts, find_tenant}

pub record RefreshToken : Type 0 where
  pub id : String
  pub user_id : String
  pub token_hash : String
  pub expires_at : ℕ
  pub is_revoked : Bool
  pub mfa_authenticated : Bool

-- `PasswordResetToken` and `EmailVerificationToken` have the same columns.
pub record OneTimeToken : Type 0 where
  pub id : String
  pub user_id : String
  pub token_hash : String
  pub expires_at : ℕ
  pub is_used : Bool

pub data Mail : Type 0 where
  password_reset email_verification : String → String → Mail
  welcome : String → Mail

-- `sent` lists the mails that went out.
pub record Db : Type 0 where
  pub accounts : Accounts
  pub refresh_tokens : List RefreshToken
  pub reset_tokens : List OneTimeToken
  pub verification_tokens : List OneTimeToken
  pub sent : List Mail

-- Code that is not part of this repository: node's crypto, bcrypt, the JWT library, otplib, the
-- mail server, the configuration and JavaScript's `toLowerCase`. `sign payload now` is the token,
-- `verify token now` its payload while it is genuine and has not expired.
pub record Services : Type 0 where
  pub sha256 : String → String
  pub hash_password : String → String
  pub compare_password : String → String → Bool
  pub sign : JwtPayload → ℕ → String
  pub verify : String → ℕ → Option JwtPayload
  pub expiry_of : String → Option ℕ
  pub encryption_key : Option String
  pub is_encrypted : String → Bool
  pub decrypt : String → String → String
  pub totp_verify : String → String → Bool
  pub mail_works : Mail → Bool
  pub frontend_url : String
  pub refresh_expires_in : List ℕ
  pub lower : String → String

-- What a handler draws at random: the id of a new row and a raw token.
pub record Fresh : Type 0 where
  pub id : String
  pub raw : String

unfoldable pub find_user_by_email : String → List User → Option User
find_user_by_email email users = find (λ u. u.email === email) users

unfoldable pub send_mail : Services → Mail → Exec Db Unit
send_mail sv mail s =
    if sv.mail_works mail
    then (ok tt, record s { sent = s.sent ++ mail ∷ [] })
    else (err (HttpError.internal "The mail could not be sent"), s)

abbrev pub firm_deactivated : HttpError
firm_deactivated =
    HttpError.unauthorized "This firm account has been deactivated. Please contact support."

abbrev pub is_active_tenant : Option Tenant → Bool
is_active_tenant none = false
is_active_tenant (some tenant) = tenant.is_active

-- `if (user.tenantId) { … if (!tenant || !tenant.isActive) throw … }`
unfoldable pub firm_is_active : Accounts → Option String → Bool
unfolding find_tenant
firm_is_active accounts none = true
firm_is_active accounts (some tenant_id) =
    if present (some tenant_id)
    then is_active_tenant (find_tenant tenant_id accounts.tenants)
    else true

abbrev pub check_firm : Option String → Exec Db Unit
check_firm tenant_id s = throw_if (not (firm_is_active s.accounts tenant_id)) firm_deactivated s

-- The stored TOTP secret in plain text.
abbrev pub plain_secret : Services → String → String
plain_secret sv secret = elim sv.encryption_key [
  | none ↦ secret
  | some key ↦
      if present (some key) && sv.is_encrypted secret then sv.decrypt secret key else secret
]
