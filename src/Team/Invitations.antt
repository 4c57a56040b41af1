-- ===== src/Team/Invitations.antt =====
-- src/modules/team/team.service.ts: `invite`, `previewInvite`, `acceptInvite`, `cancelInvite`.
pub mod Once
pub mod Members
pub mod Newest
use Prim.Native.String
use mtd_backend.Common.{
  ℕ, ◌+◌, ◌*◌, String, Bool, true, false, Option, none, some, List, [], ◌∷◌, ◌++◌, not, ◌&&◌, ◌||◌,
  ltb, leb, ◌===◌, is_text, is_some, find, find_all, map, update, delete, get_or, if◌then◌else◌,
  HttpError, Result, ok, err, Exec, pure, throw, gets, require, modify, throw_if, ◌>>=◌, ◌>>◌,
}
use mtd_backend.Users.{User}
use mtd_backend.Users.Permissions.{
  FirmRole, StaffPermissions, PartialPermissions, PermissionKey, can_invite_staff, has_permission,
  normalize_permissions, resolve_firm_role,
}
use mtd_backend.Users.Accounts.{
  stored, email_exists, NewUser, new_user, create_user, mark_email_verified,
}
use mtd_backend.Tenants.{Tenant}
use mtd_backend.Clients.{Client}
use mtd_backend.Auth.Jwt.{RequestUser, find_user}
use mtd_backend.Auth.Guards.{actor_of}
use mtd_backend.Team.{
  StaffInvite, OwnedRow, TeamDb, TeamServices, TeamMember, InviteDto, InvitePreview, not_manager,
  invalid_invite, email_taken, is_pending, is_pending_for, invite_expiry_ms, firm_name_of,
  can_manage_team, assert_can_manage_team, require_tenant_user, full_name, member_of_user,
  member_of_invite,
}

module _ (sv : TeamServices) (now : ℕ) where
  -- The row that `invite` saves, under a new id and with the hash of a new raw token.
  unfoldable pub new_invite : String → String → RequestUser → InviteDto → StaffInvite
  new_invite id raw actor dto = record {
    id = id;
    tenant_id = actor.tenant_id;
    invited_by_user_id = some actor.user_id;
    email = sv.trim (sv.lower dto.email);
    first_name = sv.trim dto.first_name;
    last_name = sv.trim dto.last_name;
    permissions = normalize_permissions dto.permissions FirmRole.staff;
    token_hash = sv.sha256 raw;
    expires_at = now + invite_expiry_ms;
    accepted_at = none;
    accepted_user_id = none;
    revoked_at = none;
    created_at = now;
  }

  unfoldable pub refuse_known : String → Option User → Exec TeamDb Unit
  refuse_known tenant_id none = pure tt
  refuse_known tenant_id (some user) = throw (
      if is_text user.tenant_id tenant_id
      then HttpError.conflict "This person is already in your firm."
      else email_taken)

  abbrev revoke : StaffInvite → StaffInvite
  revoke i = record i { revoked_at = some now }

  -- The mail goes out, or the new row is deleted again.
  unfoldable pub send_invite : String → StaffInvite → Exec TeamDb Unit
  send_invite raw saved s =
      if sv.mail_works saved.email
      then (
        ok tt,
        record s {
          sent =
              s.sent
              ++ (
                saved.email,
                String.◌++◌ sv.frontend_url (String.◌++◌ "/accept-invite?token=" raw),
              )
                ∷ [];
        },
      )
      else (
        err (HttpError.bad_request "The invitation email could not be sent. Please try again."),
        record s { invites = delete (λ i. i.id === saved.id) s.invites },
      )

  unfoldable pub invite_staff : String → String → RequestUser → InviteDto → Exec TeamDb TeamMember
  unfolding assert_can_manage_team refuse_known send_invite new_invite member_of_invite
  invite_staff id raw actor dto = do
    assert_can_manage_team actor
    known ← gets (λ s. find (λ u. u.email === (new_invite id raw actor dto).email) s.users)
    refuse_known actor.tenant_id known
    modify (λ s. record s {
      invites =
          update (is_pending_for actor.tenant_id (new_invite id raw actor dto).email) revoke
            s.invites;
    })
    modify (λ s. record s { invites = s.invites ++ new_invite id raw actor dto ∷ [] })
    send_invite raw (new_invite id raw actor dto)
    pure (member_of_invite sv now (new_invite id raw actor dto))

  abbrev is_pending_raw : String → StaffInvite → Bool
  is_pending_raw raw i = i.token_hash === sv.sha256 raw && is_pending i

  unfoldable pub find_valid_pending_invite : String → Exec TeamDb StaffInvite
  find_valid_pending_invite raw = do
    throw_if (sv.trim raw === "") invalid_invite
    found ← gets (λ s. find (is_pending_raw raw) s.invites)
    invite ← require found invalid_invite
    throw_if (ltb invite.expires_at now) invalid_invite
    pure invite

  pub preview_invite : String → Exec TeamDb InvitePreview
  unfolding find_valid_pending_invite
  preview_invite raw = do
    invite ← find_valid_pending_invite raw
    tenant ← gets (λ s. find (λ t. t.id === invite.tenant_id) s.tenants)
    pure (record {
      email = invite.email;
      first_name = invite.first_name;
      last_name = invite.last_name;
      firm_name = firm_name_of tenant "your firm";
    })

  -- The argument of `usersService.create`.
  unfoldable pub staff_of_invite : String → StaffInvite → Option Tenant → NewUser
  staff_of_invite password invite tenant = record {
    first_name = invite.first_name;
    last_name = invite.last_name;
    firm_name = firm_name_of tenant "Firm";
    email = invite.email;
    password_hash = sv.hash_password password;
    role_name = "staff";
    tenant_id = some invite.tenant_id;
    permissions = some (normalize_permissions (some (stored invite.permissions)) FirmRole.staff);
    is_email_verified = none;
    is_active = none;
  }

  abbrev accepted : String → StaffInvite → StaffInvite
  accepted user_id i = record i { accepted_at = some now; accepted_user_id = some user_id }

  unfoldable pub accept_invite : String → String → String → Exec TeamDb User
  unfolding find_valid_pending_invite staff_of_invite
  accept_invite user_id raw password = do
    invite ← find_valid_pending_invite raw
    taken ← gets (λ s. email_exists invite.email s.users)
    throw_if taken email_taken
    tenant ← gets (λ s. find (λ t. t.id === invite.tenant_id) s.tenants)
    modify (λ s. record s {
      users = create_user user_id (staff_of_invite password invite tenant) s.users;
    })
    modify (λ s. record s { users = mark_email_verified user_id s.users })
    modify
        (λ s. record s { invites = update (λ i. i.id === invite.id) (accepted user_id) s.invites })
    reread ← gets (λ s. find_user user_id s.users)
    pure (get_or reread (new_user user_id (staff_of_invite password invite tenant)))

  pub cancel_invite : RequestUser → String → Exec TeamDb Unit
  unfolding assert_can_manage_team
  cancel_invite actor invite_id = do
    assert_can_manage_team actor
    found ← gets (λ s. find (λ i. i.id === invite_id && i.tenant_id === actor.tenant_id) s.invites)
    invite ← require found (HttpError.not_found "Pending invitation not found.")
    throw_if (not (is_pending invite)) (HttpError.not_found "Pending invitation not found.")
    modify (λ s. record s { invites = update (λ i. i.id === invite.id) revoke s.invites })
