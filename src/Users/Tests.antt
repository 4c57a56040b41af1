-- ===== src/Users/Tests.antt =====
-- Tests of the permission rules.
use mtd_backend.Common.{◌≡◌, refl, false, some, none}
use mtd_backend.Users.Permissions.{
  AppRole, PermissionKey, empty_permissions, resolve_app_role, normalize_permissions, FirmRole,
  has_permission,
}

roles_by_name :
    (resolve_app_role (some "admin") ≡ AppRole.admin)
    × (resolve_app_role (some "staff") ≡ AppRole.staff)
    × (resolve_app_role (some "agent") ≡ AppRole.owner)
    × (resolve_app_role none ≡ AppRole.owner)
unfolding resolve_app_role
roles_by_name = (refl, refl, refl, refl)

staff_defaults : normalize_permissions none FirmRole.staff ≡ empty_permissions
unfolding normalize_permissions
staff_defaults = refl

staff_without_flag :
    has_permission
      (record { role = some AppRole.staff; permissions = none })
      PermissionKey.can_chase
    ≡ false
unfolding has_permission
staff_without_flag = refl
