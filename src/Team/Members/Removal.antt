-- ===== src/Team/Members/Removal.antt =====
-- What the changes of a member's rights and the removal of a member write.
use mtd_backend.Common.{
  ℕ, String, Bool, true, false, none, some, ◌≡◌, ◌≢◌, refl, inl, inr, arith, ◌===◌, is_text, ◌&&◌,
  All, Distinct, find, Option-cases, Bool-cases,
}
use mtd_backend.Users.{User}
use mtd_backend.Users.Permissions.{StaffPermissions}
use mtd_backend.Auth.Jwt.{RequestUser, find_user}
use mtd_backend.Team.{
  TeamDb, TeamServices, is_owner, can_manage_team, assert_can_manage_team, require_tenant_user,
}
use mtd_backend.Team.Owners.{user_key, Keeps, Keeps-refl, Keeps-update, Keeps-delete}
use mtd_backend.Team.Members.{update_permissions, erase_member, remove_staff}

abbrev pub is_member_of : RequestUser → String → User → Bool
is_member_of actor user_id u = u.id === user_id && is_text u.tenant_id actor.tenant_id

module _ (sv : TeamServices) (now : ℕ) (actor : RequestUser) (user_id : String) (s : TeamDb) where
  pub update-Keeps :
      (permissions : StaffPermissions)
      → Distinct user_key s.users
      → Keeps s.users (update_permissions sv now actor user_id permissions s).1.users
  unfolding update_permissions assert_can_manage_team require_tenant_user
  update-Keeps permissions d = elim (Bool-cases (can_manage_team actor)) [
    | inr refused ↦ Keeps-refl s.users _ d (ground arith)
    | inl allowed ↦ elim (Option-cases (find (is_member_of actor user_id) s.users)) [
      | inl missing ↦ Keeps-refl s.users _ d (ground arith)
      | inr (user, found) ↦ elim (Bool-cases user.is_active) [
        | inr gone ↦ Keeps-refl s.users _ d (ground arith)
        | inl active ↦ elim (Bool-cases (is_owner user)) [
          | inl own ↦ Keeps-refl s.users _ d (ground arith)
          | inr staff ↦
              rw (allowed, found, active, staff)
                (Keeps-update (is_member_of actor user_id) s.users user _ (λ x. refl) (λ x. refl) d
                  found staff)
        ]
      ]
    ]
  ]

module _ (actor : RequestUser) (user_id : String) (s : TeamDb) where
  pub remove-Keeps :
      Distinct user_key s.users → Keeps s.users (remove_staff actor user_id s).1.users
  unfolding remove_staff assert_can_manage_team require_tenant_user erase_member
  remove-Keeps d = elim (Bool-cases (can_manage_team actor)) [
    | inr refused ↦ Keeps-refl s.users _ d (ground arith)
    | inl allowed ↦ elim (Bool-cases (user_id === actor.user_id)) [
      | inl self ↦ Keeps-refl s.users _ d (ground arith)
      | inr other ↦ elim (Option-cases (find (is_member_of actor user_id) s.users)) [
        | inl missing ↦ Keeps-refl s.users _ d (ground arith)
        | inr (user, found) ↦ elim (Bool-cases user.is_active) [
          | inr gone ↦ Keeps-refl s.users _ d (ground arith)
          | inl active ↦ elim (Bool-cases (is_owner user)) [
            | inl own ↦ Keeps-refl s.users _ d (ground arith)
            | inr staff ↦
                rw (allowed, other, found, active, staff)
                  (Keeps-delete (is_member_of actor user_id) s.users user d found staff)
          ]
        ]
      ]
    ]
  ]

-- Nothing refers to the user.
pub record IsErased (user_id : String) (u : TeamDb) : Type 0 where
  pub users : find_user user_id u.users ≡ none
  pub clients : All (λ c. is_text c.assigned_to_user_id user_id ≡ false) u.clients
  pub chase_logs : All (λ r. is_text r.user_id user_id ≡ false) u.chase_logs
  pub email_connections : All (λ r. is_text r.user_id user_id ≡ false) u.email_connections
  pub invites :
      All
        (λ i.
          (is_text i.invited_by_user_id user_id ≡ false)
          × (is_text i.accepted_user_id user_id ≡ false))
        u.invites

module _ (actor : RequestUser) (user_id : String) (s u : TeamDb) where
  -- The checks that a removal has passed.
  pub record IsRemovable : Type 0 where
    pub user : User
    pub found : find (is_member_of actor user_id) s.users ≡ some user
    pub active : user.is_active ≡ true
    pub staff : is_owner user ≡ false
    pub other : user_id ≢ actor.user_id
    pub allowed : can_manage_team actor ≡ true
