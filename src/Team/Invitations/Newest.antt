-- ===== src/Team/Invitations/Newest.antt =====
-- The invitation that was just sent makes a member of the staff.
use mtd_backend.Common.{ℕ, String, true, none, some, [], ◌∷◌, ◌++◌, ◌≡◌, ◌===◌, find, update}
use mtd_backend.Users.{User}
use mtd_backend.Users.Permissions.{FirmRole, normalize_permissions}
use mtd_backend.Users.Accounts.{stored}
use mtd_backend.Auth.Jwt.{RequestUser}
use mtd_backend.Team.{TeamDb, TeamServices, TeamMember, InviteDto, is_pending_for}
use mtd_backend.Team.Invitations.{new_invite, revoke}

module _ (sv : TeamServices) (now later : ℕ) (id raw user_id password : String)
    (actor : RequestUser) (dto : InviteDto) (s t : TeamDb) (member : TeamMember) where
  -- The member of the staff that an invitation describes.
  pub record IsInvited (user : User) : Type 0 where
    pub email : user.email ≡ sv.trim (sv.lower dto.email)
    pub first_name : user.first_name ≡ sv.trim dto.first_name
    pub last_name : user.last_name ≡ sv.trim dto.last_name
    pub firm : user.tenant_id ≡ some actor.tenant_id
    pub role : user.role_name ≡ some "staff"
    pub rights :
        user.permissions ≡ some (stored (normalize_permissions dto.permissions FirmRole.staff))
    pub password_hash : user.password_hash ≡ sv.hash_password password
    pub active : user.is_active ≡ true
    pub verified : user.is_email_verified ≡ true

  -- The checks that the invitation has passed, and the tables that it leaves.
  record IsSent : Type 0 where
    free : find (λ u. u.email === (new_invite sv now id raw actor dto).email) s.users ≡ none
    users : t.users ≡ s.users
    invites :
        t.invites
        ≡ update
            (is_pending_for actor.tenant_id (new_invite sv now id raw actor dto).email)
            (revoke sv now)
            s.invites
          ++ new_invite sv now id raw actor dto ∷ []
