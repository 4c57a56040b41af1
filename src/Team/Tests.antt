-- ===== src/Team/Tests.antt =====
-- A firm whose owner invites, changes and removes members of its staff.
use mtd_backend.Common.{
  ℕ, ◌≡◌, String, true, false, none, some, List, [], ◌∷◌, refl, ap, arith, eq_iff, find, find_all,
  update, count_where, ok, err,
}
use mtd_backend.Users.{User}
use mtd_backend.Users.Permissions.{
  AppRole, AuthTokenAudience, owner_permissions, default_staff_permissions, has_permission,
  normalize_permissions, permissions_for_role,
}
use mtd_backend.Users.Accounts.{new_user, create_user, mark_email_verified, email_exists}
use mtd_backend.Auth.Jwt.{RequestUser, find_user}
use mtd_backend.Auth.Guards.{actor_of}
use mtd_backend.Team.{
  StaffInvite, TeamDb, TeamServices, InviteDto, invalid_invite, can_manage_team,
  assert_can_manage_team, member_of_invite, is_owner,
}
use mtd_backend.Team.Invitations.{
  new_invite, refuse_known, send_invite, invite_staff, find_valid_pending_invite, staff_of_invite,
  accept_invite,
}
use mtd_backend.Team.Invitations.Once.{IsAccepted, accept_invite_once}
use mtd_backend.Team.Requests.{
  TeamOp, IsFresh, invite_op, accept_op, update_op, remove_op, run_op, run_ops, run_ops-owners,
}

abbrev plain : TeamServices
plain = record {
  sha256 = λ s. s;
  hash_password = λ s. s;
  mail_works = λ address. true;
  frontend_url = "https://app.example";
  trim = λ s. s;
  lower = λ s. s;
}

abbrev a_user : String → String → String → User
a_user id email role_name = record {
  id = id;
  first_name = "Ada";
  last_name = "Lovelace";
  firm_name = "Ledger Ltd";
  email = email;
  password_hash = "secret";
  is_active = true;
  is_email_verified = true;
  last_login_at = none;
  session_invalidated_at = none;
  mfa_enabled = false;
  totp_secret = none;
  role_name = some role_name;
  tenant_id = some "firm";
  permissions = none;
}

abbrev ada : RequestUser
ada = record {
  user_id = "u1";
  email = "ada@ledger.example";
  tenant_id = "firm";
  login_at = none;
  mfa_authenticated = true;
  role = AppRole.owner;
  audience = AuthTokenAudience.firm;
  permissions = owner_permissions;
}

abbrev firm_db : TeamDb
firm_db = record {
  users = a_user "u1" "ada@ledger.example" "owner" ∷ a_user "u2" "bob@ledger.example" "staff" ∷ [];
  tenants = [];
  clients = [];
  invites = [];
  chase_logs = record { id = "log"; user_id = some "u2" } ∷ [];
  email_connections = record { id = "mail"; user_id = some "u2" } ∷ [];
  sent = [];
}

abbrev for_cleo : InviteDto
for_cleo = record {
  email = "cleo@ledger.example";
  first_name = "Cleo";
  last_name = "Byron";
  permissions = none;
}

abbrev invited : StaffInvite
invited = record {
  id = "i1";
  tenant_id = "firm";
  invited_by_user_id = some "u1";
  email = "cleo@ledger.example";
  first_name = "Cleo";
  last_name = "Byron";
  permissions = default_staff_permissions;
  token_hash = "raw";
  expires_at = 604801000;
  accepted_at = none;
  accepted_user_id = none;
  revoked_at = none;
  created_at = 1000;
}

abbrev invited_db : TeamDb
invited_db = record firm_db { invites = invited ∷ [] }

abbrev invited_then : TeamDb
invited_then = record invited_db {
  sent = ("cleo@ledger.example", "https://app.example/accept-invite?token=raw") ∷ [];
}

abbrev cleo : User
cleo = record (new_user "u3" (staff_of_invite plain 2000 "pw" invited none)) {
  is_email_verified = true;
}

abbrev accepted_db : TeamDb
accepted_db = record invited_db {
  users =
      a_user "u1" "ada@ledger.example" "owner"
      ∷ a_user "u2" "bob@ledger.example" "staff"
      ∷ cleo
      ∷ [];
  invites = record invited { accepted_at = some 2000; accepted_user_id = some "u3" } ∷ [];
}

accepts : accept_invite plain 2000 "u3" "raw" "pw" invited_db ≡ (ok cleo, accepted_db)
unfolding accept_invite find_valid_pending_invite find staff_of_invite email_exists count_where
    create_user new_user mark_email_verified update find_user normalize_permissions
accepts = refl

accept_invite_once_example :
    IsAccepted plain 2000 "u3" "raw" "pw" invited_db accepted_db cleo
    × (accept_invite plain 3000 "u4" "raw" "other" accepted_db ≡ (err invalid_invite, accepted_db))
accept_invite_once_example =
    accept_invite_once plain 2000 "u3" "raw" "pw" invited_db accepted_db cleo 3000 "u4" "other"
      (tt, tt) accepts

invites :
    invite_staff plain 1000 "i1" "raw" ada for_cleo firm_db
    ≡ (ok (member_of_invite plain 1000 invited), invited_then)
unfolding invite_staff assert_can_manage_team can_manage_team actor_of has_permission new_invite
    find refuse_known update send_invite member_of_invite normalize_permissions permissions_for_role
invites = refl

abbrev removed_db : TeamDb
removed_db = record firm_db {
  users = a_user "u1" "ada@ledger.example" "owner" ∷ [];
  chase_logs = record { id = "log"; user_id = none } ∷ [];
  email_connections = [];
}

abbrev a_day : List (ℕ × TeamOp)
a_day =
    (1000, invite_op "i1" "raw" ada for_cleo)
    ∷ (2000, accept_op "u3" "raw" "pw")
    ∷ (3000, update_op ada "u3" owner_permissions)
    ∷ (4000, remove_op ada "u2")
    ∷ []

-- The id of the new user is new when the invitation is accepted.
u3_is_new :
    IsFresh
      (accept_op "u3" "raw" "pw")
      (run_op plain 1000 (invite_op "i1" "raw" ada for_cleo) firm_db)
unfolding run_op
u3_is_new =
    rw (ap (λ r. r.1) invites)
      (ground (arith, eq_iff "u1" "u3"), (ground (arith, eq_iff "u2" "u3"), tt))

run_ops-owners_example :
    find_all is_owner (run_ops plain a_day firm_db).users ≡ find_all is_owner firm_db.users
run_ops-owners_example =
    run_ops-owners plain a_day firm_db ((ground (arith, eq_iff "u2" "u1"), tt), (tt, tt))
      (tt, (u3_is_new, (tt, (tt, tt))))
