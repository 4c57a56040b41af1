-- ===== src/Team/Members.antt =====
-- src/modules/team/team.service.ts: `list`, `updatePermissions` and `removeStaff`.
pub mod Removal
use Prim.Native.String
use mtd_backend.Common.{
  ℕ, ◌+◌, ◌*◌, String, Bool, true, false, Option, none, some, List, [], ◌∷◌, ◌++◌, not, ◌&&◌, ◌||◌,
  ltb, leb, ◌===◌, is_text, is_some, find, find_all, map, update, delete, get_or, if◌then◌else◌,
  HttpError, Result, ok, err, Exec, pure, throw, gets, require, modify, throw_if, ◌>>=◌, ◌>>◌,
}
use mtd_backend.Users.{User}
use mtd_backend.Users.Permissions.{
  FirmRole, StaffPermissions, PartialPermissions, PermissionKey, can_invite_staff, has_permission,
  normalize_permissions, resolve_firm_role,
}
use mtd_backend.Users.Accounts.{
  stored, email_exists, NewUser, new_user, create_user, mark_email_verified,
}
use mtd_backend.Tenants.{Tenant}
use mtd_backend.Clients.{Client}
use mtd_backend.Auth.Jwt.{RequestUser, find_user}
use mtd_backend.Auth.Guards.{actor_of}
use mtd_backend.Team.{
  StaffInvite, OwnedRow, TeamDb, TeamServices, TeamMember, InviteDto, InvitePreview, not_manager,
  invalid_invite, email_taken, is_pending, is_pending_for, invite_expiry_ms, firm_name_of,
  can_manage_team, assert_can_manage_team, require_tenant_user, is_owner, full_name, member_of_user,
  member_of_invite,
}

module _ (sv : TeamServices) (now : ℕ) where
  -- Active users, then the pending invitations that have not expired. The order of the latter,
  -- newest first, is left to the table.
  pub list_team : String → TeamDb → List TeamMember
  unfolding member_of_user member_of_invite
  list_team tenant_id s =
      map (member_of_user sv now)
        (find_all (λ u. is_text u.tenant_id tenant_id && u.is_active) s.users)
      ++ map (member_of_invite sv now) (
          find_all (λ i. leb now i.expires_at)
            (find_all (λ i. i.tenant_id === tenant_id && is_pending i) s.invites))

  pub update_permissions : RequestUser → String → StaffPermissions → Exec TeamDb TeamMember
  unfolding assert_can_manage_team require_tenant_user member_of_user
  update_permissions actor user_id permissions = do
    assert_can_manage_team actor
    user ← require_tenant_user actor.tenant_id user_id
    throw_if (is_owner user) (HttpError.forbidden "Owner permissions cannot be changed.")
    modify (λ s. record s {
      users =
          update (λ u. u.id === user.id)
            (λ u. record u {
              permissions =
                  some (stored (normalize_permissions (some (stored permissions)) FirmRole.staff));
            })
            s.users;
    })
    pure (
        member_of_user sv now (record user {
          permissions =
              some (stored (normalize_permissions (some (stored permissions)) FirmRole.staff));
        }))

abbrev disown : String → OwnedRow → OwnedRow
disown user_id r = record r { user_id = none }

-- The clients of the user are assigned to nobody, in whatever firm they are. The foreign keys of
-- the invitations are set to NULL when the user is deleted.
unfoldable pub erase_member : String → TeamDb → TeamDb
erase_member user_id s = record s {
  clients =
      update (λ c. is_text c.assigned_to_user_id user_id)
        (λ c. record c { assigned_to_user_id = none }) s.clients;
  chase_logs = update (λ r. is_text r.user_id user_id) (disown user_id) s.chase_logs;
  email_connections = delete (λ r. is_text r.user_id user_id) s.email_connections;
  users = delete (λ u. u.id === user_id) s.users;
  invites =
      update (λ i. is_text i.accepted_user_id user_id) (λ i. record i { accepted_user_id = none })
        (update (λ i. is_text i.invited_by_user_id user_id)
          (λ i. record i { invited_by_user_id = none }) s.invites);
}

unfoldable pub remove_staff : RequestUser → String → Exec TeamDb Unit
unfolding assert_can_manage_team require_tenant_user erase_member
remove_staff actor user_id = do
  assert_can_manage_team actor
  throw_if (user_id === actor.user_id) (HttpError.bad_request "You cannot remove yourself.")
  user ← require_tenant_user actor.tenant_id user_id
  throw_if (is_owner user) (HttpError.forbidden "The firm owner cannot be removed.")
  modify (erase_member user.id)
