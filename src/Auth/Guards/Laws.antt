-- ===== src/Auth/Guards/Laws.antt =====
-- Who the guards let through.
use mtd_backend.Common.{
  Bool, true, false, Option, none, some, List, [], ◌∷◌, ◌≡◌, ◌↔◌, ◌⊎◌, arith, any, ok,
}
use mtd_backend.Users.Permissions.{AppRole, PermissionKey, flag, is_true, has_permission}
use mtd_backend.Auth.Jwt.{RequestUser}
use mtd_backend.Auth.Guards.{actor_of, keys, can_activate}

-- One of the listed flags is set.
abbrev pub HasOneOf : RequestUser → List PermissionKey → Type 0
HasOneOf user [] = ⊥
HasOneOf user (key ∷ required) = (flag user.permissions key ≡ true) ⊎ HasOneOf user required

-- What a route asks of its caller.
abbrev pub MayCall : Bool → List PermissionKey → RequestUser → Type 0
MayCall owner_only required user =
    (user.role ≡ AppRole.owner)
    ⊎ ((user.role ≡ AppRole.staff)
        × (owner_only ≡ false)
        × ((required ≡ []) ⊎ HasOneOf user required))

any-owner :
    (user : RequestUser) (key : PermissionKey) (required : List PermissionKey)
    → user.role ≡ AppRole.owner
    → any (has_permission (actor_of user)) (key ∷ required) ≡ true
unfolding any has_permission
any-owner user key required h = ground arith

any-staff :
    (user : RequestUser) (required : List PermissionKey)
    → user.role ≡ AppRole.staff
    → (any (has_permission (actor_of user)) required ≡ true) ↔ HasOneOf user required
unfolding any has_permission
any-staff user [] h = ground arith
any-staff user (key ∷ required) h = ground (arith, any-staff user required h)

-- The guard lets a signed-in user through exactly if the route asks for nothing, the user is an
-- owner, or the user is staff, the route is not for owners only, and the list of flags is empty
-- or holds a flag that the user has.
pub can_activate_iff :
    (owner_only : Option Bool) (required : Option (List PermissionKey)) (user : RequestUser)
    → (can_activate owner_only required (some user) ≡ ok true) ↔ (
        ((is_true owner_only ≡ false) × (keys required ≡ []))
        ⊎ MayCall (is_true owner_only) (keys required) user)
unfolding can_activate
can_activate_iff owner_only none user = ground arith
can_activate_iff owner_only (some []) user = ground arith
can_activate_iff owner_only (some (key ∷ required)) user =
    ground (arith, any-owner user key required, any-staff user (key ∷ required))
