-- ===== src/Portal.antt =====
-- src/modules/client-portal: the accounts, messages and files of the clients of a firm. The rows are
-- those of src/modules/client-portal/entities.
pub mod Accounts
pub mod Customers
pub mod Messages
pub mod Files
mod Tests
use mtd_backend.Common.{ℕ, String, Bool, true, false, Option, none, some, List, get_or, or_else}
use mtd_backend.Users.Permissions.{AppRole}
use mtd_backend.Tenants.{Tenant}
use mtd_backend.Clients.{Client}

pub record ClientUser : Type 0 where
  pub id : String
  pub tenant_id : String
  pub client_id : String
  pub email : String
  pub email_hash : Option String
  pub password_hash : Option String
  pub portal_setup_token : Option String
  pub portal_setup_token_expires_at : Option ℕ
  pub is_active : Bool
  pub last_login_at : Option ℕ
  pub created_at : ℕ

pub data Sender : Type 0 where
  from_agent from_client : Sender

pub record PortalMessage : Type 0 where
  pub id : String
  pub tenant_id : String
  pub client_id : String
  pub subject : String
  pub body : String
  pub sender : Sender
  pub read_at : Option ℕ
  pub created_at : ℕ

pub record PortalFile : Type 0 where
  pub id : String
  pub tenant_id : String
  pub client_id : String
  pub original_name : String
  pub mime_type : String
  pub size : ℕ
  pub storage_path : String
  pub viewed_by_agent : Bool
  pub created_at : ℕ

-- `sent` lists the addresses and the links of the mails that went out. Soft-deleted clients are
-- rows with `deleted_at`; the finds of TypeORM pass them over.
pub record PortalDb : Type 0 where
  pub users : List ClientUser
  pub messages : List PortalMessage
  pub files : List PortalFile
  pub clients : List Client
  pub tenants : List Tenant
  pub sent : List (String × String)

pub record PortalJwtPayload : Type 0 where
  pub sub : String
  pub client_id : String
  pub tenant_id : String
  pub is_preview : Bool

-- bcrypt, HMAC, the JWT library, the mail server, the configuration, and JavaScript's `trim` and
-- `toLowerCase`.
pub record PortalServices : Type 0 where
  pub hash_password : String → String
  pub compare_password : String → String → Bool
  pub hmac : String → String → String
  pub email_hash_secret : Option String
  pub jwt_secret : Option String
  pub sign : PortalJwtPayload → ℕ → String
  pub verify : String → ℕ → Option PortalJwtPayload
  pub mail_works : String → Bool
  pub frontend_url : String
  pub trim : String → String
  pub lower : String → String

pub email_secret : PortalServices → String
email_secret sv = get_or (or_else sv.email_hash_secret sv.jwt_secret) "dev-fallback"

unfoldable pub hash_email : PortalServices → String → String
unfolding email_secret
hash_email sv email = sv.hmac (email_secret sv) (sv.trim (sv.lower email))

-- The actor of a request, as far as the portal looks at it.
pub record Viewer : Type 0 where
  pub role : AppRole
  pub user_id : String
