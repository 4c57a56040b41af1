-- ===== src/Users/Permissions.antt =====
-- src/modules/users/permissions.ts: roles, audiences and the staff flags.

use mtd_backend.Common.{
  String, Bool, true, false, Option, none, some, is_text, get_or, if◌then◌else◌,
}

pub data FirmRole : Type 0 where
  owner staff : FirmRole

pub data AppRole : Type 0 where
  owner staff admin : AppRole

pub data AuthTokenAudience : Type 0 where
  firm admin : AuthTokenAudience

pub data PermissionKey : Type 0 where
  can_add_clients can_chase can_view_liabilities can_view_notes : PermissionKey
  can_manage_templates can_view_settings can_invite_staff : PermissionKey

-- One value for each flag: `Bool` in `StaffPermissions`, and a flag that may be missing in
-- `Partial<StaffPermissions>`.
pub record Flags (A : Type 0) : Type 0 where
  pub add_clients : A
  pub chase : A
  pub view_liabilities : A
  pub view_notes : A
  pub manage_templates : A
  pub view_settings : A
  pub invite_staff : A

abbrev pub StaffPermissions : Type 0
StaffPermissions = Flags Bool

abbrev pub PartialPermissions : Type 0
PartialPermissions = Flags (Option Bool)

-- `permissions[key]`
abbrev pub flag : {A : Type 0} → Flags A → PermissionKey → A
flag p PermissionKey.can_add_clients = p.add_clients
flag p PermissionKey.can_chase = p.chase
flag p PermissionKey.can_view_liabilities = p.view_liabilities
flag p PermissionKey.can_view_notes = p.view_notes
flag p PermissionKey.can_manage_templates = p.manage_templates
flag p PermissionKey.can_view_settings = p.view_settings
flag p PermissionKey.can_invite_staff = p.invite_staff

abbrev same_flags : {A : Type 0} → A → Flags A
same_flags a = record {
  add_clients = a;
  chase = a;
  view_liabilities = a;
  view_notes = a;
  manage_templates = a;
  view_settings = a;
  invite_staff = a;
}

abbrev pub owner_permissions : StaffPermissions
owner_permissions = same_flags true

abbrev pub default_staff_permissions : StaffPermissions
default_staff_permissions = same_flags false

abbrev pub empty_permissions : StaffPermissions
empty_permissions = default_staff_permissions

unfoldable pub is_platform_admin : Option String → Bool
is_platform_admin role_name = is_text role_name "admin"

unfoldable pub resolve_app_role : Option String → AppRole
resolve_app_role role_name =
    if is_text role_name "admin"
    then AppRole.admin
    else if is_text role_name "staff"
    then AppRole.staff
    else AppRole.owner

unfoldable pub resolve_firm_role : Option String → FirmRole
resolve_firm_role role_name = if is_text role_name "staff" then FirmRole.staff else FirmRole.owner

unfoldable pub audience_for_role : AppRole → AuthTokenAudience
audience_for_role AppRole.admin = AuthTokenAudience.admin
audience_for_role _ = AuthTokenAudience.firm

unfoldable pub permissions_for_role : FirmRole → StaffPermissions
permissions_for_role FirmRole.staff = default_staff_permissions
permissions_for_role FirmRole.owner = owner_permissions

-- Missing flags, and a missing or malformed value, fall back to the role's defaults.
unfoldable pub normalize_permissions : Option PartialPermissions → FirmRole → StaffPermissions
unfolding permissions_for_role
normalize_permissions none role = permissions_for_role role
normalize_permissions (some raw) role =
    let defaults = permissions_for_role role in
    record {
      add_clients = get_or raw.add_clients defaults.add_clients;
      chase = get_or raw.chase defaults.chase;
      view_liabilities = get_or raw.view_liabilities defaults.view_liabilities;
      view_notes = get_or raw.view_notes defaults.view_notes;
      manage_templates = get_or raw.manage_templates defaults.manage_templates;
      view_settings = get_or raw.view_settings defaults.view_settings;
      invite_staff = get_or raw.invite_staff defaults.invite_staff;
    }

-- What `hasPermission` reads of a request's user.
pub record Actor : Type 0 where
  pub role : Option AppRole
  pub permissions : Option StaffPermissions

abbrev pub is_true : Option Bool → Bool
is_true (some true) = true
is_true _ = false

abbrev flag_of : Option StaffPermissions → PermissionKey → Option Bool
flag_of none key = none
flag_of (some p) key = some (flag p key)

unfoldable pub has_permission : Actor → PermissionKey → Bool
has_permission actor key = elim actor.role [
  | some AppRole.admin ↦ false
  | some AppRole.staff ↦ is_true (flag_of actor.permissions key)
  | _ ↦ true
]
