-- ===== src/Auth/Guards.antt =====
-- src/common/guards/permissions.guard.ts, src/common/guards/tenant.guard.ts and
-- src/modules/auth/guards/jwt-auth.guard.ts. What the decorators of a route say
-- (`getAllAndOverride`) is an argument.
pub mod Laws
pub mod Audience
use mtd_backend.Common.{
  String, Bool, true, false, Option, none, some, List, [], ◌∷◌, not, ◌&&◌, ◌||◌, present, any,
  if◌then◌else◌, HttpError, Result, ok, err,
}
use mtd_backend.Users.Permissions.{
  AppRole, AuthTokenAudience, PermissionKey, Actor, has_permission, is_true,
}
use mtd_backend.Auth.Jwt.{RequestUser}

pub data AuthAudienceType : Type 0 where
  firm admin any_audience : AuthAudienceType

abbrev pub actor_of : RequestUser → Actor
actor_of user = record { role = some user.role; permissions = some user.permissions }

abbrev pub is_admin_role : AppRole → Bool
is_admin_role AppRole.admin = true
is_admin_role _ = false

abbrev pub is_staff_role : AppRole → Bool
is_staff_role AppRole.staff = true
is_staff_role _ = false

abbrev pub is_admin_audience : AuthTokenAudience → Bool
is_admin_audience AuthTokenAudience.admin = true
is_admin_audience AuthTokenAudience.firm = false

abbrev no_permission : HttpError
no_permission = HttpError.forbidden "You do not have permission to perform this action."

-- `required?.length`
abbrev pub keys : Option (List PermissionKey) → List PermissionKey
keys none = []
keys (some required) = required

abbrev pub is_empty : List PermissionKey → Bool
is_empty [] = true
is_empty (_ ∷ _) = false

check_actor : Bool → List PermissionKey → RequestUser → Result Bool
check_actor owner_only required actor =
    if is_admin_role actor.role
    then err (HttpError.forbidden "Use the admin panel to access this resource.")
    else if owner_only && is_staff_role actor.role
    then err (HttpError.forbidden "Only the firm owner can perform this action.")
    else if not (is_empty required) && not (any (has_permission (actor_of actor)) required)
    then err no_permission
    else ok true

-- `PermissionsGuard.canActivate`
unfoldable pub can_activate :
    Option Bool → Option (List PermissionKey) → Option RequestUser → Result Bool
unfolding check_actor
can_activate owner_only required user =
    if not (is_true owner_only) && is_empty (keys required) then ok true else elim user [
      | none ↦ err no_permission
      | some actor ↦ check_actor (is_true owner_only) (keys required) actor
    ]

-- `TenantGuard.canActivate`, on `req.user?.tenantId`
unfoldable pub tenant_guard : Option String → Result Bool
tenant_guard tenant_id =
    if present tenant_id
    then ok true
    else err (HttpError.forbidden "Tenant context is missing from the request")

-- `JwtAuthGuard.handleRequest`; the default audience of a route is `firm`.
audience_check : Option AuthAudienceType → RequestUser → Result RequestUser
audience_check (some any_audience) user = ok user
audience_check (some AuthAudienceType.admin) user =
    if not (is_admin_role user.role) || not (is_admin_audience user.audience)
    then err (HttpError.forbidden "Platform admin access required.")
    else ok user
audience_check _ user =
    if is_admin_role user.role || is_admin_audience user.audience
    then err (HttpError.forbidden "Use the admin panel to access this resource.")
    else ok user

unfoldable pub handle_request :
    Option HttpError → Option RequestUser → Option AuthAudienceType → Result RequestUser
unfolding audience_check
handle_request (some e) user required = err e
handle_request none none required = err (HttpError.unauthorized "Unauthorized")
handle_request none (some user) required = audience_check required user
