-- ===== src/Admin/Firms.antt =====
-- src/modules/admin/admin.service.ts: the activation and deactivation of a firm, and the sign-out of its
-- users.
use Prim.Native.String
use mtd_backend.Common.{
  ℕ, String, Bool, true, false, Option, none, some, List, [], ◌∷◌, ◌===◌, ◌&&◌, not, truthy, find,
  find_all, map, update, any, length, if◌then◌else◌, HttpError, Exec, pure, gets, require, modify,
  throw_if, ◌>>=◌, ◌>>◌,
}
use mtd_backend.Users.{User}
use mtd_backend.Tenants.{Tenant}
use mtd_backend.Auth.Database.{RefreshToken}
use mtd_backend.Admin.Details.{AdminFirmDetail, is_user_of, full_name, firm_by_id, get_firm}
use mtd_backend.Admin.{
  AdminDb, AdminServices, Call, AuditAction, AuditTarget, AuditMetadata, audit_row, record_audit,
  trim_or_null,
}

-- `save(tenant)`
abbrev pub save_firm : String → (Tenant → Tenant) → AdminDb → AdminDb
save_firm id change s = record s {
  auth = record (s.auth) {
    accounts = record (s.auth.accounts) {
      tenants = update (λ t. t.id === id) change s.auth.accounts.tenants;
    };
  };
}

abbrev pub is_one_of : List String → String → Bool
is_one_of ids id = any (λ i. i === id) ids

abbrev pub live_token_of : List String → RefreshToken → Bool
live_token_of ids r = is_one_of ids r.user_id && not r.is_revoked

-- `invalidateSessionsForUserIds`
unfoldable pub invalidate_sessions_for_user_ids : ℕ → List String → AdminDb → AdminDb
invalidate_sessions_for_user_ids now [] s = s
invalidate_sessions_for_user_ids now (i ∷ is) s = record s {
  auth = record (s.auth) {
    accounts = record (s.auth.accounts) {
      users =
          update (λ u. is_one_of (i ∷ is) u.id)
            (λ u. record u { session_invalidated_at = some now }) s.auth.accounts.users;
    };
    refresh_tokens =
        update (live_token_of (i ∷ is)) (λ r. record r { is_revoked = true }) s.auth.refresh_tokens;
  };
}

abbrev pub user_ids : String → AdminDb → List String
user_ids tenant_id s = map (λ u. u.id) (find_all (is_user_of tenant_id) s.auth.accounts.users)

abbrev pub user_of : String → String → AdminDb → Option User
user_of tenant_id user_id s =
    find (λ u. u.id === user_id && is_user_of tenant_id u) s.auth.accounts.users

abbrev pub no_user : HttpError
no_user = HttpError.not_found "User not found on this firm"

abbrev pub is_same : Option String → Option String → Bool
is_same none none = true
is_same none (some b) = false
is_same (some a) none = false
is_same (some a) (some b) = a === b

-- `trim_or_null !== undefined && trim_or_null.length === 0`
abbrev pub is_blank : AdminServices → Option String → Bool
is_blank sv none = false
is_blank sv (some reason) = sv.trim reason === ""

module _ (sv : AdminServices) (call : Call) where
  abbrev firm_row : AuditAction → Tenant → String → Option AuditMetadata → AdminDb → AdminDb
  firm_row action tenant summary metadata = record_audit (
      audit_row sv call action AuditTarget.firm_target tenant.id tenant.firm_name
        (String.◌++◌ summary tenant.firm_name) metadata)

  -- The firm is inactive already: only its reason may change.
  unfoldable pub update_reason : Tenant → Option String → AdminDb → AdminDb
  unfolding trim_or_null
  update_reason tenant none s = s
  update_reason tenant (some reason) s =
      let next = trim_or_null sv (some reason) in
      let saved = save_firm tenant.id (λ t. record t { deactivation_reason = next }) s in
      if is_same tenant.deactivation_reason next
      then saved
      else firm_row AuditAction.firm_deactivation_reason_update tenant
          "Updated deactivation reason for "
          (some (AuditMetadata.reason_change tenant.deactivation_reason next)) saved

  unfoldable pub deactivate : Tenant → Option String → Exec AdminDb Unit
  unfolding trim_or_null
  deactivate tenant reason = do
    throw_if (is_blank sv reason) (HttpError.bad_request "Reason cannot be empty when provided.")
    modify (
        save_firm tenant.id (λ t. record t {
          is_active = false;
          deactivation_reason = trim_or_null sv reason;
          deactivated_at = some (call.now);
        }))
    ids ← gets (user_ids tenant.id)
    modify (invalidate_sessions_for_user_ids call.now ids)
    modify (
        firm_row AuditAction.firm_deactivate tenant "Deactivated firm "
          (some (AuditMetadata.deactivation (trim_or_null sv reason))))

  unfoldable pub activate : Tenant → AdminDb → AdminDb
  activate tenant s = firm_row AuditAction.firm_activate tenant "Activated firm " none (
      save_firm tenant.id
        (λ t. record t { is_active = true; deactivation_reason = none; deactivated_at = none }) s)

  unfoldable pub change_firm : Tenant → Bool → Option String → Exec AdminDb Unit
  change_firm tenant true reason = if tenant.is_active then pure tt else modify (activate tenant)
  change_firm tenant false reason =
      if tenant.is_active then deactivate tenant reason else modify (update_reason tenant reason)

  unfoldable pub set_firm_active : String → Bool → Option String → Exec AdminDb AdminFirmDetail
  set_firm_active id is_active reason = do
    tenant ← firm_by_id sv id
    change_firm tenant is_active reason
    get_firm sv id

  unfoldable pub invalidate_firm_sessions : String → Exec AdminDb AdminFirmDetail
  invalidate_firm_sessions tenant_id = do
    tenant ← firm_by_id sv tenant_id
    ids ← gets (user_ids tenant_id)
    modify (invalidate_sessions_for_user_ids call.now ids)
    modify (
        firm_row AuditAction.firm_invalidate_sessions tenant "Force-logged out all users for "
          (some (AuditMetadata.signed_out (length ids))))
    get_firm sv tenant_id

  abbrev label_of : User → String
  label_of user = if truthy (full_name sv user) then full_name sv user else user.email

  unfoldable pub invalidate_user_sessions : String → String → Exec AdminDb AdminFirmDetail
  invalidate_user_sessions tenant_id user_id = do
    tenant ← firm_by_id sv tenant_id
    found ← gets (user_of tenant_id user_id)
    user ← require found no_user
    modify (invalidate_sessions_for_user_ids call.now (user.id ∷ []))
    modify (
        record_audit (
          audit_row sv call AuditAction.user_invalidate_sessions AuditTarget.user_target user.id
            (label_of user)
            (String.◌++◌ "Force-logged out "
              (String.◌++◌ (label_of user) (String.◌++◌ " on " tenant.firm_name)))
            (some (AuditMetadata.user_signed_out tenant.id tenant.firm_name user.email))))
    get_firm sv tenant_id
