-- ===== src/Admin/Replay.antt =====
-- The audit log accounts for the activity of the firms, through any sequence of requests.
use mtd_backend.Common.{
  ℕ, String, Bool, true, false, Option, none, some, List, [], ◌∷◌, ◌++◌, ◌≡◌, refl, ◌∙◌, sym, ◌===◌,
  inl, inr, if◌then◌else◌, Bool-cases, All, All-map, All-update, Keeps, continue-Keeps,
  Keeps-require, Keeps-throw_if, Keeps-if, require, throw_if, update,
}
use mtd_backend.Tenants.{Tenant}
use mtd_backend.Auth.Jwt.{find_tenant}
use mtd_backend.Admin.{
  AdminDb, AdminServices, AdminAuditLog, AuditAction, Call, record_audit, trim_or_null,
}
use mtd_backend.Admin.Details.{get_firm, firm_by_id, no_firm}
use mtd_backend.Admin.Firms.{
  set_firm_active, change_firm, deactivate, activate, update_reason, save_firm,
  invalidate_firm_sessions, invalidate_user_sessions, invalidate_sessions_for_user_ids, is_same,
  is_blank, user_ids, no_user, user_of,
}
use mtd_backend.Admin.Closed.{invalidate-tenants}
use mtd_backend.Admin.Enquiries.{
  EnquiryPatch, update_enquiry, find_enquiry, no_enquiry, is_empty, nothing_to_update,
}

pub data AdminRequest : Type 0 where
  activity_request : String → Bool → Option String → AdminRequest
  firm_sign_out : String → AdminRequest
  user_sign_out : String → String → AdminRequest
  enquiry_request : String → EnquiryPatch → AdminRequest

-- The tables after a request, answered or refused.
unfoldable pub run_request : AdminServices → Call → AdminRequest → AdminDb → AdminDb
run_request sv call (activity_request id is_active reason) s =
    (set_firm_active sv call id is_active reason s).1
run_request sv call (firm_sign_out id) s = (invalidate_firm_sessions sv call id s).1
run_request sv call (user_sign_out id user_id) s = (invalidate_user_sessions sv call id user_id s).1
run_request sv call (enquiry_request id patch) s = (update_enquiry sv call id patch s).1

unfoldable pub run_requests : AdminServices → List (Call × AdminRequest) → AdminDb → AdminDb
run_requests sv [] s = s
run_requests sv ((call, request) ∷ rest) s = run_requests sv rest (run_request sv call request s)

-- What one row says of the activity of the firm `id`, which was `before`.
abbrev pub after_row : String → AdminAuditLog → Bool → Bool
after_row id row before = elim row.action [
  | AuditAction.firm_activate ↦ if id === row.target_id then true else before
  | AuditAction.firm_deactivate ↦ if id === row.target_id then false else before
  | _ ↦ before
]

-- The activity of a firm as the rows of the log tell it, from the oldest on.
unfoldable pub told : String → List AdminAuditLog → Bool → Bool
told id [] before = before
told id (row ∷ rows) before = told id rows (after_row id row before)

-- Each firm is as the log tells it, from what `first` says it was before the log.
abbrev pub IsTold : (String → Bool) → AdminDb → Type 0
IsTold first s = All (λ t. t.is_active ≡ told t.id s.audit (first t.id)) s.auth.accounts.tenants

told-append :
    (id : String) (rows : List AdminAuditLog) (row : AdminAuditLog) (before : Bool)
    → told id (rows ++ row ∷ []) before ≡ after_row id row (told id rows before)
unfolding told
told-append id [] row before = refl
told-append id (r ∷ rows) row before = told-append id rows row (after_row id r before)

invalidate-audit :
    (now : ℕ) (ids : List String) (s : AdminDb)
    → (invalidate_sessions_for_user_ids now ids s).audit ≡ s.audit
unfolding invalidate_sessions_for_user_ids
invalidate-audit now [] s = refl
invalidate-audit now (i ∷ is) s = refl

module _ (first : String → Bool) where
  -- A row that says nothing of any firm.
  quiet-IsTold :
      (tenants : List Tenant) (rows : List AdminAuditLog) (row : AdminAuditLog)
      → ((id : String) (before : Bool) → after_row id row before ≡ before)
      → All (λ t. t.is_active ≡ told t.id rows (first t.id)) tenants
      → All (λ t. t.is_active ≡ told t.id (rows ++ row ∷ []) (first t.id)) tenants
  quiet-IsTold tenants rows row quiet =
      All-map (λ t. t.is_active ≡ told t.id rows (first t.id))
        (λ t. t.is_active ≡ told t.id (rows ++ row ∷ []) (first t.id)) tenants
        (λ t h. h ∙ sym (told-append t.id rows row (first t.id) ∙ quiet t.id _))

  -- A change of one firm, with the row that tells it.
  change-IsTold :
      (id : String) (change : Tenant → Tenant) (tenants : List Tenant) (rows : List AdminAuditLog)
      (row : AdminAuditLog)
      → ((t : Tenant) → (change t).id ≡ t.id)
      → ((t : Tenant) (before : Bool)
          → (t.id === id) ≡ true
          → (change t).is_active ≡ after_row t.id row before)
      → ((t : Tenant) (before : Bool) → (t.id === id) ≡ false → after_row t.id row before ≡ before)
      → All (λ t. t.is_active ≡ told t.id rows (first t.id)) tenants
      → All
          (λ t. t.is_active ≡ told t.id (rows ++ row ∷ []) (first t.id))
          (update (λ t. t.id === id) change tenants)
  change-IsTold id change tenants rows row same told_ apart =
      All-update (λ t. t.is_active ≡ told t.id rows (first t.id))
        (λ t. t.is_active ≡ told t.id (rows ++ row ∷ []) (first t.id)) (λ t. t.id === id) change
        tenants
        (λ t h e.
          rw (same t) (
            told_ t (told t.id rows (first t.id)) e ∙ sym (told-append t.id rows row (first t.id))))
        (λ t h e. h ∙ sym (told-append t.id rows row (first t.id) ∙ apart t _ e))

module _ (first : String → Bool) (sv : AdminServices) (call : Call) where
  update_reason-IsTold :
      (tenant : Tenant) (reason : Option String) (s : AdminDb)
      → IsTold first s
      → IsTold first (update_reason sv call tenant reason s)
  unfolding update_reason
  update_reason-IsTold tenant none s h = h
  update_reason-IsTold tenant (some reason) s h =
      let next = trim_or_null sv (some reason) in
      let kept : IsTold first
          (save_firm tenant.id (λ t. record t { deactivation_reason = next }) s) =
        All-update _ (λ t. t.is_active ≡ told t.id s.audit (first t.id)) (λ t. t.id === tenant.id)
          (λ t. record t { deactivation_reason = next }) s.auth.accounts.tenants (λ t p e. p)
          (λ t p e. p) h in
      elim (Bool-cases (is_same tenant.deactivation_reason next)) [
        | inl same ↦ rw same kept
        | inr other ↦ rw other (quiet-IsTold first _ s.audit _ (λ id before. refl) kept)
      ]

  deactivate-IsTold :
      (tenant : Tenant) (reason : Option String)
      → Keeps (IsTold first) (deactivate sv call tenant reason)
  unfolding deactivate
  deactivate-IsTold tenant reason s h = elim (Bool-cases (is_blank sv reason)) [
    | inl blank ↦ rw blank h
    | inr given ↦
        rw (given, invalidate-tenants, invalidate-audit)
          (change-IsTold first tenant.id _ s.auth.accounts.tenants s.audit _ (λ t. refl)
            (λ t before e. rw e refl) (λ t before e. rw e refl) h)
  ]

  activate-IsTold :
      (tenant : Tenant) (s : AdminDb) → IsTold first s → IsTold first (activate sv call tenant s)
  unfolding activate
  activate-IsTold tenant s h =
      change-IsTold first tenant.id _ s.auth.accounts.tenants s.audit _ (λ t. refl)
        (λ t before e. rw e refl) (λ t before e. rw e refl) h

  sign_out-IsTold :
      (ids : List String) (row : AdminAuditLog) (s : AdminDb)
      → ((id : String) (before : Bool) → after_row id row before ≡ before)
      → IsTold first s
      → IsTold first (record_audit row (invalidate_sessions_for_user_ids call.now ids s))
  sign_out-IsTold ids row s quiet h =
      rw (invalidate-tenants call.now ids s, invalidate-audit call.now ids s)
        (quiet-IsTold first _ s.audit row quiet h)

  firm_by_id-Keeps : (id : String) → Keeps (IsTold first) (firm_by_id sv id)
  firm_by_id-Keeps id s h =
      Keeps-require (IsTold first) (find_tenant id s.auth.accounts.tenants) no_firm s h

  get_firm-Keeps : (id : String) → Keeps (IsTold first) (get_firm sv id)
  unfolding get_firm
  get_firm-Keeps id s h =
      continue-Keeps (IsTold first) (firm_by_id sv id s) _ (firm_by_id-Keeps id s h) (λ t u k. k)

  change_firm-Keeps :
      (tenant : Tenant) (is_active : Bool) (reason : Option String)
      → Keeps (IsTold first) (change_firm sv call tenant is_active reason)
  unfolding change_firm
  change_firm-Keeps tenant true reason =
      Keeps-if (IsTold first) tenant.is_active _ _ (λ s h. h) (λ s h. activate-IsTold tenant s h)
  change_firm-Keeps tenant false reason =
      Keeps-if (IsTold first) tenant.is_active _ _ (deactivate-IsTold tenant reason)
        (λ s h. update_reason-IsTold tenant reason s h)

  set_firm_active-Keeps :
      (id : String) (is_active : Bool) (reason : Option String)
      → Keeps (IsTold first) (set_firm_active sv call id is_active reason)
  unfolding set_firm_active
  set_firm_active-Keeps id is_active reason s h =
      continue-Keeps (IsTold first) (firm_by_id sv id s) _ (firm_by_id-Keeps id s h) (λ tenant u k.
        continue-Keeps (IsTold first) (change_firm sv call tenant is_active reason u) _
          (change_firm-Keeps tenant is_active reason u k) (λ done. get_firm-Keeps id))

  firm_sign_out-Keeps : (id : String) → Keeps (IsTold first) (invalidate_firm_sessions sv call id)
  unfolding invalidate_firm_sessions
  firm_sign_out-Keeps id s h =
      continue-Keeps (IsTold first) (firm_by_id sv id s) _ (firm_by_id-Keeps id s h) (λ tenant u k.
        get_firm-Keeps id _ (sign_out-IsTold (user_ids id u) _ u (λ i before. refl) k))

  user_sign_out-Keeps :
      (id user_id : String) → Keeps (IsTold first) (invalidate_user_sessions sv call id user_id)
  unfolding invalidate_user_sessions
  user_sign_out-Keeps id user_id s h =
      continue-Keeps (IsTold first) (firm_by_id sv id s) _ (firm_by_id-Keeps id s h) (λ tenant u k.
        continue-Keeps (IsTold first) (require (user_of id user_id u) no_user u) _
          (Keeps-require (IsTold first) (user_of id user_id u) no_user u k)
          (λ user v l.
            get_firm-Keeps id _ (sign_out-IsTold (user.id ∷ []) _ v (λ i before. refl) l)))

  update_enquiry-Keeps :
      (id : String) (patch : EnquiryPatch) → Keeps (IsTold first) (update_enquiry sv call id patch)
  unfolding update_enquiry
  update_enquiry-Keeps id patch s h =
      continue-Keeps (IsTold first) (require (find_enquiry id s) no_enquiry s) _
        (Keeps-require (IsTold first) (find_enquiry id s) no_enquiry s h)
        (λ enquiry u k.
          continue-Keeps (IsTold first) (throw_if (is_empty patch) nothing_to_update u) _
            (Keeps-throw_if (IsTold first) (is_empty patch) nothing_to_update u k)
            (λ done v l. quiet-IsTold first v.auth.accounts.tenants v.audit _ (λ i before. refl) l))

  run_request-IsTold :
      (request : AdminRequest) (s : AdminDb)
      → IsTold first s
      → IsTold first (run_request sv call request s)
  unfolding run_request
  run_request-IsTold (activity_request id is_active reason) =
      set_firm_active-Keeps id is_active reason
  run_request-IsTold (firm_sign_out id) = firm_sign_out-Keeps id
  run_request-IsTold (user_sign_out id user_id) = user_sign_out-Keeps id user_id
  run_request-IsTold (enquiry_request id patch) = update_enquiry-Keeps id patch

-- Whatever requests administrators send, in whatever order, answered or refused: each firm is active
-- or not as the audit log tells it, read from its first row on. The log tells it of the firms before
-- the requests.
pub run_requests-IsTold :
    (sv : AdminServices) (first : String → Bool) (requests : List (Call × AdminRequest))
    (s : AdminDb)
    → IsTold first s
    → IsTold first (run_requests sv requests s)
unfolding run_requests
run_requests-IsTold sv first [] s h = h
run_requests-IsTold sv first ((call, request) ∷ rest) s h =
    run_requests-IsTold sv first rest (run_request sv call request s)
      (run_request-IsTold first sv call request s h)
