-- ===== src/Admin/Closed.antt =====
-- A firm that an administrator has deactivated is closed, whoever of it tries to get in.
use mtd_backend.Common.{
  ℕ, String, true, false, Option, none, some, List, [], ◌∷◌, ◌≡◌, ◌≢◌, refl, inl, inr, arith, ◌===◌,
  eq_iff, eq_refl, Option-cases, Bool-cases, Run-cases, find, find-update_kept, ok,
}
use mtd_backend.Users.{User}
use mtd_backend.Tenants.{Tenant}
use mtd_backend.Users.Permissions.{AppRole}
use mtd_backend.Auth.Jwt.{JwtPayload, RequestUser, find_user, find_tenant, tenant_of, validate}
use mtd_backend.Auth.Jwt.Laws.{FirmIsOpen, validate-IsAdmitted}
use mtd_backend.Auth.Database.{
  RefreshToken, Db, Services, Fresh, firm_is_active, find_user_by_email,
}
use mtd_backend.Auth.Tokens.{TokensResponse, is_live, refresh_tokens}
use mtd_backend.Auth.Tokens.Rotation.{refresh_tokens-IsRefreshed}
use mtd_backend.Auth.Login.{AuthResponse, login}
use mtd_backend.Auth.Login.Password.{login-IsSignedIn}
use mtd_backend.Admin.{AdminDb, AdminServices, Call, trim_or_null}
use mtd_backend.Admin.Details.{AdminFirmDetail, get_firm}
use mtd_backend.Admin.Firms.{
  set_firm_active, change_firm, deactivate, update_reason, save_firm,
  invalidate_sessions_for_user_ids, is_same, user_ids,
}

-- The firm's row is there and inactive.
abbrev pub IsInactive : String → AdminDb → Type 0
IsInactive id s =
    (t : Tenant) × (find_tenant id s.auth.accounts.tenants ≡ some t) × (t.is_active ≡ false)

pub invalidate-tenants :
    (now : ℕ) (ids : List String) (s : AdminDb)
    → (invalidate_sessions_for_user_ids now ids s).auth.accounts.tenants ≡ s.auth.accounts.tenants
unfolding invalidate_sessions_for_user_ids
invalidate-tenants now [] s = refl
invalidate-tenants now (i ∷ is) s = refl

-- A change that keeps the id of the firm is found under it.
save_firm-find :
    (id : String) (change : Tenant → Tenant) (t : Tenant) (s : AdminDb)
    → ((x : Tenant) → (change x).id ≡ x.id)
    → find_tenant id s.auth.accounts.tenants ≡ some t
    → find_tenant id (save_firm t.id change s).auth.accounts.tenants ≡ some (change t)
unfolding find_tenant
save_firm-find id change t s same found =
    find-update_kept (λ x. x.id === id) (λ x. x.id === t.id) change s.auth.accounts.tenants t
      (λ x. rw (same x) refl) found (eq_refl t.id)

module _ (sv : AdminServices) (call : Call) (id : String) where
  update_reason-IsInactive :
      (reason : Option String) (t : Tenant) (s : AdminDb)
      → find_tenant id s.auth.accounts.tenants ≡ some t
      → t.is_active ≡ false
      → IsInactive id (update_reason sv call t reason s)
  unfolding update_reason
  update_reason-IsInactive none t s found inactive = (t, found, inactive)
  update_reason-IsInactive (some text) t s found inactive =
      let next = trim_or_null sv (some text) in
      let kept =
        save_firm-find id (λ x. record x { deactivation_reason = next }) t s (λ x. refl) found in
      elim (Bool-cases (is_same t.deactivation_reason next)) [
        | inl same ↦ rw same (record t { deactivation_reason = next }, kept, inactive)
        | inr other ↦ rw other (record t { deactivation_reason = next }, kept, inactive)
      ]

module _ (sv : AdminServices) (call : Call) (id : String) (reason : Option String) where
  abbrev closed_firm : Tenant → Tenant
  closed_firm t = record t {
    is_active = false;
    deactivation_reason = trim_or_null sv reason;
    deactivated_at = some (call.now);
  }

  deactivate-IsInactive :
      (t : Tenant) (s u : AdminDb)
      → find_tenant id s.auth.accounts.tenants ≡ some t
      → deactivate sv call t reason s ≡ (ok tt, u)
      → IsInactive id u
  unfolding deactivate
  deactivate-IsInactive t s u found h =
      let rows : u.auth.accounts.tenants ≡ (save_firm t.id closed_firm s).auth.accounts.tenants =
        ground (
          arith,
          invalidate-tenants call.now (user_ids t.id (save_firm t.id closed_firm s))
              (save_firm t.id closed_firm s),
        ) in
      rw rows (closed_firm t, save_firm-find id closed_firm t s (λ x. refl) found, refl)

  -- Whatever the firm was before: once a deactivation is answered, the firm is inactive.
  deactivated-IsInactive :
      (s u : AdminDb) (d : AdminFirmDetail)
      → set_firm_active sv call id false reason s ≡ (ok d, u)
      → IsInactive id u
  unfolding set_firm_active change_firm get_firm
  deactivated-IsInactive s u d h = elim (Option-cases (find_tenant id s.auth.accounts.tenants)) [
    | inl missing ↦ absurd (ground arith)
    | inr (t, found) ↦ elim (Bool-cases t.is_active) [
      | inl active ↦ elim (Run-cases (deactivate sv call t reason s)) [
        | inl (done, v, e) ↦
            let after : u ≡ v = ground arith in rw after (deactivate-IsInactive t s v found e)
        | inr (error, v, e) ↦ absurd (ground arith)
      ]
      | inr inactive ↦
          let after : u ≡ update_reason sv call t reason s = ground arith in
          rw after (update_reason-IsInactive sv call id reason t s found inactive)
    ]
  ]

-- The users of a firm are turned away at every request, every login and every refresh.
pub record IsClosed (id : String) (s : AdminDb) : Type 0 where
  pub requests :
      (url : Option (List ℕ)) (later : ℕ) (payload : JwtPayload) (user : User) (ru : RequestUser)
      → find_user payload.sub s.auth.accounts.users ≡ some user
      → user.tenant_id ≡ some id
      → validate s.auth.accounts url later payload ≡ ok ru
      → ru.role ≡ AppRole.admin
  pub logins :
      (sv : Services) (later : ℕ) (fresh mail_fresh : Fresh) (email password : String) (user : User)
      (v : Db) (r : AuthResponse)
      → find_user_by_email (sv.lower email) s.auth.accounts.users ≡ some user
      → user.tenant_id ≡ some id
      → login sv later fresh mail_fresh email password s.auth ≢ (ok r, v)
  pub refreshes :
      (sv : Services) (later : ℕ) (fresh : Fresh) (raw : String) (stored : RefreshToken)
      (user : User) (v : Db) (t : TokensResponse)
      → find (is_live sv raw) s.auth.refresh_tokens ≡ some stored
      → find_user stored.user_id s.auth.accounts.users ≡ some user
      → user.tenant_id ≡ some id
      → refresh_tokens sv later fresh raw s.auth ≢ (ok t, v)

module _ (id : String) (s : AdminDb) (named : id ≢ "") (shut : IsInactive id s) where
  firm_is_active-shut :
      (tenant_id : Option String)
      → tenant_id ≡ some id
      → firm_is_active s.auth.accounts tenant_id ≡ false
  unfolding firm_is_active
  firm_is_active-shut tenant_id of_firm =
      let (t, found, inactive) = shut in
      let name : (id === "") ≡ false = ground (arith, eq_iff id "") in
      rw (of_firm, name, found, inactive) refl

  FirmIsOpen-shut :
      (user : User) (url : Option (List ℕ)) (later : ℕ)
      → user.tenant_id ≡ some id
      → ¬ FirmIsOpen user.tenant_id (tenant_of s.auth.accounts user) url later
  unfolding tenant_of
  FirmIsOpen-shut user url later own door =
      let (t, found, inactive) = shut in
      let name : (id === "") ≡ false = ground (arith, eq_iff id "") in
      let (t', joined, active) = door.active (rw (own, name) refl) in
      let joined' : tenant_of s.auth.accounts user ≡ some t' = joined in
      let row : find_tenant id s.auth.accounts.tenants ≡ some t' = ground arith in
      let same : t ≡ t' = cc in let active' : t.is_active ≡ true = rw same active in cc

  inactive-IsClosed : IsClosed id s
  inactive-IsClosed = record {
    requests = λ url later payload user ru found of_firm h.
        let done = validate-IsAdmitted s.auth.accounts url later payload ru h in
        let own : done.user.tenant_id ≡ some id = grind (arith, done.found) in
        elim (done.firm) [
          | inl admin ↦ admin
          | inr door ↦ absurd (FirmIsOpen-shut done.user url later own door)
        ];
    logins = λ sv later fresh mail_fresh email password user v r found of_firm h.
        let done = login-IsSignedIn sv later fresh mail_fresh email password s.auth v r h in
        let own : done.user.tenant_id ≡ some id = grind (arith, done.found) in
        let open_ = done.firm in let shut_ = firm_is_active-shut done.user.tenant_id own in cc;
    refreshes = λ sv later fresh raw stored user v t live found of_firm h.
        let done = refresh_tokens-IsRefreshed sv later fresh raw s.auth v t h in
        let token : done.stored ≡ stored = grind (arith, done.live) in
        let owner : find_user stored.user_id s.auth.accounts.users ≡ some (done.rotated.user) =
          rw (← token) (done.rotated.found) in
        let own : done.rotated.user.tenant_id ≡ some id = grind (arith, owner) in
        let open_ = done.rotated.firm in
        let shut_ = firm_is_active-shut done.rotated.user.tenant_id own in cc;
  }

-- Once an administrator's request to deactivate a firm is answered, whether the firm was active
-- before or not, no user of the firm gets in: a request is admitted only for a platform admin, and
-- no login by the email of such a user and no refresh by a live token of such a user is answered.
-- The firm's id is not the empty text.
pub deactivated-IsClosed :
    (sv : AdminServices) (call : Call) (id : String) (reason : Option String) (s u : AdminDb)
    (d : AdminFirmDetail)
    → id ≢ ""
    → set_firm_active sv call id false reason s ≡ (ok d, u)
    → IsClosed id u
deactivated-IsClosed sv call id reason s u d named h =
    inactive-IsClosed id u named (deactivated-IsInactive sv call id reason s u d h)
