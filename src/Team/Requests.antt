-- ===== src/Team/Requests.antt =====
-- The owners of the firms, through any sequence of requests to the team service.
use mtd_backend.Common.{ℕ, String, List, [], ◌∷◌, ◌≡◌, ◌≢◌, refl, ◌∙◌, All, Distinct, find_all}
use mtd_backend.Users.Permissions.{StaffPermissions}
use mtd_backend.Auth.Jwt.{RequestUser}
use mtd_backend.Team.{TeamDb, TeamServices, InviteDto, is_owner}
use mtd_backend.Team.Owners.{user_key, Keeps, Keeps-refl}
use mtd_backend.Team.Invitations.{invite_staff, accept_invite, cancel_invite}
use mtd_backend.Team.Invitations.Members.{invite-users, accept-Keeps, cancel-users}
use mtd_backend.Team.Members.{update_permissions, remove_staff}
use mtd_backend.Team.Members.Removal.{update-Keeps, remove-Keeps}

pub data TeamOp : Type 0 where
  invite_op : String → String → RequestUser → InviteDto → TeamOp
  accept_op : String → String → String → TeamOp
  cancel_op : RequestUser → String → TeamOp
  update_op : RequestUser → String → StaffPermissions → TeamOp
  remove_op : RequestUser → String → TeamOp

-- The tables after a request, whether it succeeded or not.
unfoldable pub run_op : TeamServices → ℕ → TeamOp → TeamDb → TeamDb
run_op sv now (invite_op id raw actor dto) s = (invite_staff sv now id raw actor dto s).1
run_op sv now (accept_op user_id raw password) s = (accept_invite sv now user_id raw password s).1
run_op sv now (cancel_op actor invite_id) s = (cancel_invite sv now actor invite_id s).1
run_op sv now (update_op actor user_id permissions) s =
    (update_permissions sv now actor user_id permissions s).1
run_op sv now (remove_op actor user_id) s = (remove_staff actor user_id s).1

-- Each request comes at its own time.
unfoldable pub run_ops : TeamServices → List (ℕ × TeamOp) → TeamDb → TeamDb
run_ops sv [] s = s
run_ops sv ((now, op) ∷ ops) s = run_ops sv ops (run_op sv now op s)

-- The id that an acceptance gives its new user is the id of no other.
abbrev pub IsFresh : TeamOp → TeamDb → Type 0
IsFresh (accept_op user_id raw password) s = All (λ u. user_key u ≢ user_id) s.users
IsFresh _ s = Unit

abbrev pub AllFresh : TeamServices → List (ℕ × TeamOp) → TeamDb → Type 0
AllFresh sv [] s = Unit
AllFresh sv ((now, op) ∷ ops) s = IsFresh op s × AllFresh sv ops (run_op sv now op s)

run_op-Keeps :
    (sv : TeamServices) (now : ℕ) (op : TeamOp) (s : TeamDb)
    → Distinct user_key s.users
    → IsFresh op s
    → Keeps s.users (run_op sv now op s).users
unfolding run_op
run_op-Keeps sv now (invite_op id raw actor dto) s d fresh =
    Keeps-refl s.users _ d (invite-users sv now s id raw actor dto)
run_op-Keeps sv now (accept_op user_id raw password) s d fresh =
    accept-Keeps sv now s user_id raw password d fresh
run_op-Keeps sv now (cancel_op actor invite_id) s d fresh =
    Keeps-refl s.users _ d (cancel-users sv now s actor invite_id)
run_op-Keeps sv now (update_op actor user_id permissions) s d fresh =
    update-Keeps sv now actor user_id s permissions d
run_op-Keeps sv now (remove_op actor user_id) s d fresh = remove-Keeps actor user_id s d

-- Whatever requests come to the team service, in whatever order and whoever sends them, the owners
-- of the firms stay the same rows, in the same order: none is added, removed or changed, if the
-- ids of the users differ and new users get new ids.
pub run_ops-owners :
    (sv : TeamServices) (ops : List (ℕ × TeamOp)) (s : TeamDb)
    → Distinct user_key s.users
    → AllFresh sv ops s
    → find_all is_owner (run_ops sv ops s).users ≡ find_all is_owner s.users
unfolding run_ops
run_ops-owners sv [] s d fresh = refl
run_ops-owners sv ((now, op) ∷ ops) s d (fresh, more) =
    let kept = run_op-Keeps sv now op s d fresh in
    run_ops-owners sv ops (run_op sv now op s) (kept.distinct) more ∙ kept.owners
