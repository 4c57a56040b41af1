-- ===== src/Team.antt =====
-- src/modules/team/team.service.ts: inviting staff, accepting an invitation, and the rights and the
-- removal of a member. An invitation row is that of src/modules/team/entities/staff-invite.entity.ts. `setDate` adds days to the local
-- clock; the model adds them to the time, the same but across a change to or from summer time.
pub mod Invitations
pub mod Members
pub mod Owners
pub mod Requests
mod Tests
use Prim.Native.String
use mtd_backend.Common.{
  ℕ, ◌+◌, ◌*◌, String, Bool, true, false, Option, none, some, List, [], ◌∷◌, ◌++◌, not, ◌&&◌, ◌||◌,
  ltb, leb, ◌===◌, is_text, is_some, find, find_all, map, update, delete, get_or, if◌then◌else◌,
  HttpError, Result, ok, err, Exec, pure, throw, gets, require, modify, throw_if, ◌>>=◌, ◌>>◌,
}
use mtd_backend.Users.{User}
use mtd_backend.Users.Permissions.{
  FirmRole, StaffPermissions, PartialPermissions, PermissionKey, can_invite_staff, has_permission,
  normalize_permissions, resolve_firm_role,
}
use mtd_backend.Users.Accounts.{
  stored, email_exists, NewUser, new_user, create_user, mark_email_verified,
}
use mtd_backend.Tenants.{Tenant}
use mtd_backend.Clients.{Client}
use mtd_backend.Auth.Jwt.{RequestUser, find_user}
use mtd_backend.Auth.Guards.{actor_of}

pub record StaffInvite : Type 0 where
  pub id : String
  pub tenant_id : String
  pub invited_by_user_id : Option String
  pub email : String
  pub first_name : String
  pub last_name : String
  pub permissions : StaffPermissions
  pub token_hash : String
  pub expires_at : ℕ
  pub accepted_at : Option ℕ
  pub accepted_user_id : Option String
  pub revoked_at : Option ℕ
  pub created_at : ℕ

-- A row of `chase_logs` or of `email_connections`, with the user that it points to.
pub record OwnedRow : Type 0 where
  pub id : String
  pub user_id : Option String

-- `sent` lists the addresses and the links of the invitation mails.
pub record TeamDb : Type 0 where
  pub users : List User
  pub tenants : List Tenant
  pub clients : List Client
  pub invites : List StaffInvite
  pub chase_logs : List OwnedRow
  pub email_connections : List OwnedRow
  pub sent : List (String × String)

-- SHA-256, bcrypt, the mail server, the configuration, and JavaScript's `trim` and `toLowerCase`.
pub record TeamServices : Type 0 where
  pub sha256 : String → String
  pub hash_password : String → String
  pub mail_works : String → Bool
  pub frontend_url : String
  pub trim : String → String
  pub lower : String → String

-- What `list`, `invite` and `updatePermissions` answer: a user or a pending invitation.
pub data MemberKind : Type 0 where
  of_user of_invite : MemberKind

pub record TeamMember : Type 0 where
  pub id : String
  pub kind : MemberKind
  pub name : String
  pub email : String
  pub role : FirmRole
  pub permissions : StaffPermissions
  pub invited_at : Option ℕ

pub record InviteDto : Type 0 where
  pub email : String
  pub first_name : String
  pub last_name : String
  pub permissions : Option PartialPermissions

pub record InvitePreview : Type 0 where
  pub email : String
  pub first_name : String
  pub last_name : String
  pub firm_name : String

abbrev pub not_manager : HttpError
not_manager = HttpError.forbidden "You do not have permission to manage team members."

abbrev pub invalid_invite : HttpError
invalid_invite = HttpError.bad_request "This invitation link is invalid or has expired."

abbrev pub email_taken : HttpError
email_taken = HttpError.conflict "An account with this email already exists."

-- `acceptedAt: IsNull(), revokedAt: IsNull()`
abbrev pub is_pending : StaffInvite → Bool
is_pending i = not (is_some i.accepted_at) && not (is_some i.revoked_at)

abbrev pub is_pending_for : String → String → StaffInvite → Bool
is_pending_for tenant_id email i = (i.tenant_id === tenant_id && i.email === email) && is_pending i

abbrev pub invite_expiry_ms : ℕ
invite_expiry_ms = 7 * 86400000

abbrev firm_name_of : Option Tenant → String → String
firm_name_of none fallback = fallback
firm_name_of (some tenant) fallback = tenant.firm_name

pub can_manage_team : RequestUser → Bool
can_manage_team actor = has_permission (actor_of actor) can_invite_staff

assert_can_manage_team : RequestUser → Exec TeamDb Unit
unfolding can_manage_team
assert_can_manage_team actor = throw_if (not (can_manage_team actor)) not_manager

-- The row of the firm that is no longer active counts as missing.
require_tenant_user : String → String → Exec TeamDb User
require_tenant_user tenant_id user_id = do
  found ← gets (λ s. find (λ u. u.id === user_id && is_text u.tenant_id tenant_id) s.users)
  user ← require found (HttpError.not_found "Team member not found.")
  throw_if (not user.is_active) (HttpError.not_found "Team member not found.")
  pure user

abbrev pub is_owner : User → Bool
is_owner user = elim (resolve_firm_role user.role_name) [
  | FirmRole.owner ↦ true
  | FirmRole.staff ↦ false
]

module _ (sv : TeamServices) (now : ℕ) where
  abbrev full_name : String → String → String
  full_name first_name last_name = sv.trim (String.◌++◌ first_name (String.◌++◌ " " last_name))

  pub member_of_user : User → TeamMember
  member_of_user u =
      let role = resolve_firm_role u.role_name in
      record {
        id = u.id;
        kind = MemberKind.of_user;
        name = full_name u.first_name u.last_name;
        email = u.email;
        role = role;
        permissions = normalize_permissions u.permissions role;
        invited_at = none;
      }

  pub member_of_invite : StaffInvite → TeamMember
  member_of_invite i = record {
    id = i.id;
    kind = MemberKind.of_invite;
    name = full_name i.first_name i.last_name;
    email = i.email;
    role = FirmRole.staff;
    permissions = normalize_permissions (some (stored i.permissions)) FirmRole.staff;
    invited_at = some i.created_at;
  }
