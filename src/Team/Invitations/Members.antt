-- ===== src/Team/Invitations/Members.antt =====
-- What the handlers of an invitation write to the table of users.
use mtd_backend.Common.{
  ℕ, String, ◌≡◌, ◌≢◌, refl, inl, inr, arith, ◌===◌, All, Distinct, find, Option-cases, Bool-cases,
  ltb,
}
use mtd_backend.Users.Accounts.{email_exists}
use mtd_backend.Auth.Jwt.{RequestUser}
use mtd_backend.Team.{TeamDb, TeamServices, InviteDto, assert_can_manage_team}
use mtd_backend.Team.Owners.{user_key, Keeps, Keeps-refl, Keeps-create}
use mtd_backend.Team.Invitations.{
  invite_staff, refuse_known, send_invite, accept_invite, staff_of_invite, is_pending_raw,
  find_valid_pending_invite, cancel_invite,
}

module _ (sv : TeamServices) (now : ℕ) (s : TeamDb) where
  pub invite-users :
      (id raw : String) (actor : RequestUser) (dto : InviteDto)
      → (invite_staff sv now id raw actor dto s).1.users ≡ s.users
  unfolding invite_staff refuse_known send_invite assert_can_manage_team
  invite-users id raw actor dto = ground arith

  pub cancel-users :
      (actor : RequestUser) (invite_id : String)
      → (cancel_invite sv now actor invite_id s).1.users ≡ s.users
  unfolding cancel_invite assert_can_manage_team
  cancel-users actor invite_id = ground arith

  -- What an acceptance writes to the users.
  pub accept-Keeps :
      (user_id raw password : String)
      → Distinct user_key s.users
      → All (λ u. user_key u ≢ user_id) s.users
      → Keeps s.users (accept_invite sv now user_id raw password s).1.users
  unfolding accept_invite find_valid_pending_invite staff_of_invite
  accept-Keeps user_id raw password d fresh = elim (Bool-cases (sv.trim raw === "")) [
    | inl blank ↦ Keeps-refl s.users _ d (ground arith)
    | inr filled ↦ elim (Option-cases (find (is_pending_raw sv now raw) s.invites)) [
      | inl missing ↦ Keeps-refl s.users _ d (ground arith)
      | inr (invite, found) ↦ elim (Bool-cases (ltb invite.expires_at now)) [
        | inl old ↦ Keeps-refl s.users _ d (ground arith)
        | inr current ↦ elim (Bool-cases (email_exists invite.email s.users)) [
          | inl taken ↦ Keeps-refl s.users _ d (ground arith)
          | inr free ↦
              rw (filled, found, current, free)
                (Keeps-create user_id
                  (staff_of_invite sv now password invite
                    (find (λ t. t.id === invite.tenant_id) s.tenants))
                  s.users refl d fresh)
        ]
      ]
    ]
  ]
