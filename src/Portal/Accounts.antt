-- ===== src/Portal/Accounts.antt =====
-- src/modules/client-portal/portal.service.ts: the invitation to the portal, the first password
-- and sign-in.
pub mod Setup
use Prim.Native.String
use mtd_backend.Common.{
  ℕ, ◌+◌, ◌*◌, String, Bool, true, false, Option, none, some, List, [], ◌∷◌, ◌++◌, not, ◌&&◌, ◌||◌,
  ltb, leb, ◌===◌, is_text, is_some, present, find, find_all, update, delete, get_or, if◌then◌else◌,
  HttpError, Result, ok, err, Exec, pure, throw, gets, require, modify, throw_if, attempt, lift,
  ◌>>=◌, ◌>>◌,
}
use mtd_backend.Users.Permissions.{AppRole}
use mtd_backend.Tenants.{Tenant}
use mtd_backend.Clients.{Client}
use mtd_backend.Portal.{ClientUser, PortalDb, PortalServices, PortalJwtPayload, Viewer, hash_email}

abbrev pub setup_token_expiry_ms : ℕ
setup_token_expiry_ms = 7 * 24 * 60 * 60 * 1000

abbrev pub invalid_setup : HttpError
invalid_setup = HttpError.bad_request "Invalid or expired setup link"

abbrev pub invalid_login : HttpError
invalid_login = HttpError.unauthorized "Invalid email or password"

pub record PortalSession : Type 0 where
  pub access_token : String
  pub name : String

abbrev pub live_client : String → Client → Bool
live_client id c = c.id === id && not (is_some c.deleted_at)

abbrev name_of : Option Client → String
name_of none = ""
name_of (some client) = client.name

module _ (sv : PortalServices) (now : ℕ) where
  unfoldable pub new_client_user : String → String → String → String → String → ClientUser
  new_client_user id token tenant_id client_id email = record {
    id = id;
    tenant_id = tenant_id;
    client_id = client_id;
    email = email;
    email_hash = some (hash_email sv email);
    password_hash = none;
    portal_setup_token = some token;
    portal_setup_token_expires_at = some (now + setup_token_expiry_ms);
    is_active = false;
    last_login_at = none;
    created_at = now;
  }

  -- A second invitation changes the hash of the address and the link, not the stored address.
  abbrev pub invited_again : String → String → ClientUser → ClientUser
  invited_again token email u = record u {
    email_hash = some (hash_email sv email);
    portal_setup_token = some token;
    portal_setup_token_expires_at = some (now + setup_token_expiry_ms);
  }

  save_invited :
      String → String → String → String → String → Option ClientUser → PortalDb → PortalDb
  unfolding new_client_user
  save_invited id token tenant_id client_id email none s = record s {
    users = s.users ++ new_client_user id token tenant_id client_id email ∷ [];
  }
  save_invited id token tenant_id client_id email (some cu) s = record s {
    users = update (λ u. u.id === cu.id) (invited_again token email) s.users;
  }

  pub mail_to : String → String → Exec PortalDb Unit
  mail_to email link s =
      if sv.mail_works email
      then (ok tt, record s { sent = s.sent ++ (email, link) ∷ [] })
      else (err (HttpError.internal "The mail could not be sent"), s)

  unfoldable pub create_and_invite : String → String → String → String → String → Exec PortalDb Unit
  unfolding save_invited mail_to
  create_and_invite id token tenant_id client_id email = do
    found ← gets (λ s. find (λ u. u.client_id === client_id) s.users)
    modify (save_invited id token tenant_id client_id email found)
    attempt (mail_to email (String.◌++◌ sv.frontend_url (String.◌++◌ "/portal/setup?token=" token)))

  pub sign_token : ClientUser → String
  sign_token cu =
      sv.sign
        (record {
          sub = cu.id;
          client_id = cu.client_id;
          tenant_id = cu.tenant_id;
          is_preview = false;
        })
        now

  pub session_of : ClientUser → Exec PortalDb PortalSession
  unfolding sign_token
  session_of cu = gets (λ s. record {
    access_token = sign_token cu;
    name = name_of (find (live_client cu.client_id) s.clients);
  })

  abbrev has_expired : ClientUser → Bool
  has_expired cu = elim cu.portal_setup_token_expires_at [
    | none ↦ true
    | some expires_at ↦ ltb expires_at now
  ]

  -- `save` writes the columns whose values are not `undefined`: the password and the flag. The
  -- token and its expiry are set to `undefined`, so they stay in the row.
  abbrev pub with_password : String → ClientUser → ClientUser
  with_password password u = record u {
    password_hash = some (sv.hash_password password);
    is_active = true;
  }

  unfoldable pub setup : String → String → Exec PortalDb PortalSession
  unfolding session_of
  setup token password = do
    found ← gets (λ s. find (λ u. is_text u.portal_setup_token token) s.users)
    cu ← require found invalid_setup
    throw_if (has_expired cu) (
        HttpError.bad_request
          "This setup link has expired. Ask your accountant to resend the invitation.")
    modify (λ s. record s { users = update (λ u. u.id === cu.id) (with_password password) s.users })
    session_of cu

  abbrev is_login : String → ClientUser → Bool
  is_login digest u = is_text u.email_hash digest && u.is_active

  unfoldable pub login : String → String → Exec PortalDb PortalSession
  unfolding session_of
  login email password = do
    found ← gets (λ s. find (is_login (hash_email sv email)) s.users)
    cu ← require found invalid_login
    throw_if (not (present cu.password_hash)) invalid_login
    throw_if (not (sv.compare_password password (get_or cu.password_hash ""))) invalid_login
    modify (λ s. record s {
      users = update (λ u. u.id === cu.id) (λ u. record u { last_login_at = some now }) s.users;
    })
    session_of cu
