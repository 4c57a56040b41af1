-- ===== src/Auth/Jwt/Laws.antt =====
-- What a validated request is known to satisfy.
use mtd_backend.Common.{
  ℕ, String, true, false, Option, none, some, List, ◌≡◌, ◌⊎◌, inl, inr, refl, arith, ok, present,
  Option-cases,
}
use mtd_backend.Users.{User}
use mtd_backend.Users.Permissions.{AppRole, AuthTokenAudience, resolve_app_role, audience_for_role}
use mtd_backend.Tenants.{Tenant}
use mtd_backend.Billing.Access.Laws.{HasAccess, evaluate_billing_access_iff}
use mtd_backend.Billing.Paths.{is_billing_exempt_path}
use mtd_backend.Auth.Jwt.{
  JwtPayload, RequestUser, Accounts, find_user, tenant_of, issued_before, permissions_of,
  firm_checks, tenant_checks, wrong_audience, request_user, validate_user, validate,
}

-- The firm of a user with a tenant is there and active, and its billing allows the request.
pub record FirmIsOpen (tenant_id : Option String) (tenant : Option Tenant) (url : Option (List ℕ))
    (now : ℕ) : Type 0 where
  pub active : present tenant_id ≡ true → (t : Tenant) × (tenant ≡ some t) × (t.is_active ≡ true)
  pub billing :
      (t : Tenant) → tenant ≡ some t → HasAccess t now ⊎ (is_billing_exempt_path url ≡ true)

firm_checks_sound :
    (tenant_id : Option String) (tenant : Option Tenant) (url : Option (List ℕ)) (now : ℕ)
    → firm_checks tenant_id tenant url now ≡ none
    → FirmIsOpen tenant_id tenant url now
unfolding firm_checks
firm_checks_sound tenant_id none url now h = record {
  active = λ p. ground arith;
  billing = λ t e. absurd (cc);
}
firm_checks_sound tenant_id (some tenant) url now h = record {
  active = λ p. (tenant, refl, ground arith);
  billing = λ t e.
      let same : tenant ≡ t = cc in
      rw (← same) (ground (arith, evaluate_billing_access_iff tenant now));
}

-- What `validate` has checked of the user that it returns.
pub record IsAdmitted (db : Accounts) (url : Option (List ℕ)) (now : ℕ) (payload : JwtPayload)
    (ru : RequestUser) : Type 0 where
  pub user : User
  pub found : find_user payload.sub db.users ≡ some user
  pub active : user.is_active ≡ true
  pub current : issued_before user.session_invalidated_at payload.iat ≡ false
  pub role : ru.role ≡ resolve_app_role user.role_name
  pub audience : ru.audience ≡ audience_for_role ru.role
  pub claim : (payload.audience ≡ none) ⊎ (payload.audience ≡ some ru.audience)
  pub permissions : ru.permissions ≡ permissions_of user ru.role
  pub firm : (ru.role ≡ AppRole.admin) ⊎ FirmIsOpen user.tenant_id (tenant_of db user) url now

claim_of_audience :
    (claim : Option AuthTokenAudience) (audience : AuthTokenAudience)
    → wrong_audience claim audience ≡ false
    → (claim ≡ none) ⊎ (claim ≡ some audience)
unfolding wrong_audience
claim_of_audience claim audience h = ground arith

tenant_checks_sound :
    (role : AppRole) (tenant_id : Option String) (tenant : Option Tenant) (url : Option (List ℕ))
    (now : ℕ)
    → tenant_checks role tenant_id tenant url now ≡ none
    → (role ≡ AppRole.admin) ⊎ FirmIsOpen tenant_id tenant url now
unfolding tenant_checks
tenant_checks_sound AppRole.admin tenant_id tenant url now h = inl refl
tenant_checks_sound AppRole.staff tenant_id tenant url now h =
    inr (firm_checks_sound tenant_id tenant url now h)
tenant_checks_sound AppRole.owner tenant_id tenant url now h =
    inr (firm_checks_sound tenant_id tenant url now h)

-- What a successful `validate_user` has passed.
abbrev Passed : Accounts → Option (List ℕ) → ℕ → JwtPayload → User → RequestUser → Type 0
Passed db url now payload user ru =
    let role = resolve_app_role user.role_name in
    (user.is_active ≡ true)
    × (issued_before user.session_invalidated_at payload.iat ≡ false)
    × (tenant_checks role user.tenant_id (tenant_of db user) url now ≡ none)
    × (wrong_audience payload.audience (audience_for_role role) ≡ false)
    × (request_user payload user role ≡ ru)

validate_user-Passed :
    (db : Accounts) (url : Option (List ℕ)) (now : ℕ) (payload : JwtPayload) (user : User)
    (ru : RequestUser)
    → validate_user db url now payload user ≡ ok ru
    → Passed db url now payload user ru
unfolding validate_user
validate_user-Passed db url now payload user ru h = ground arith

validate_user-IsAdmitted :
    (db : Accounts) (url : Option (List ℕ)) (now : ℕ) (payload : JwtPayload) (user : User)
    (ru : RequestUser)
    → find_user payload.sub db.users ≡ some user
    → validate_user db url now payload user ≡ ok ru
    → IsAdmitted db url now payload ru
unfolding request_user
validate_user-IsAdmitted db url now payload user ru found h =
    let (active, current, tenant, audience, same) =
      validate_user-Passed db url now payload user ru h in
    rw (← same) (record {
      user = user;
      found = found;
      active = active;
      current = current;
      role = refl;
      audience = refl;
      claim = claim_of_audience _ _ audience;
      permissions = refl;
      firm = tenant_checks_sound _ _ _ url now tenant;
    })

-- A request that passes `validate` belongs to a stored and active user, its token was not issued
-- before the user's sessions were invalidated, its role, audience and permissions are those of the
-- stored user, the token claims no other audience, and the user is a platform admin or the firm is
-- open: present and active, and its billing allows access or the path is exempt.
pub validate-IsAdmitted :
    (db : Accounts) (url : Option (List ℕ)) (now : ℕ) (payload : JwtPayload) (ru : RequestUser)
    → validate db url now payload ≡ ok ru
    → IsAdmitted db url now payload ru
unfolding validate
validate-IsAdmitted db url now payload ru h = elim (Option-cases (find_user payload.sub db.users)) [
  | inl missing ↦ absurd (ground arith)
  | inr (user, found) ↦ validate_user-IsAdmitted db url now payload user ru found (ground arith)
]

-- A payload that passes each of the checks is admitted, with the user's stored role.
pub validate-admits :
    (db : Accounts) (url : Option (List ℕ)) (now : ℕ) (payload : JwtPayload) (user : User)
    → find_user payload.sub db.users ≡ some user
    → user.is_active ≡ true
    → issued_before user.session_invalidated_at payload.iat ≡ false
    → tenant_checks (resolve_app_role user.role_name) user.tenant_id (tenant_of db user) url now
      ≡ none
    → wrong_audience payload.audience (audience_for_role (resolve_app_role user.role_name)) ≡ false
    → validate db url now payload ≡ ok (request_user payload user (resolve_app_role user.role_name))
unfolding validate validate_user tenant_checks resolve_app_role audience_for_role permissions_of
    tenant_of
validate-admits db url now payload user found active current firm audience =
    rw (found, active, current, firm, audience, validate, validate_user) refl
