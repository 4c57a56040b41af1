-- ===== src/Billing/Lock/Once.antt =====
-- A corporate domain has one trial, and a trial lasts as many days as are set.
use mtd_backend.Common.{
  ℕ, ◌+◌, ◌*◌, ◌≤◌, ◌<◌, min, String, true, some, [], ◌∷◌, ◌++◌, ◌≡◌, ◌↔◌, inl, inr, arith, ◌===◌,
  find, update, Option-cases, ok,
}
use mtd_backend.Tenants.{Tenant}
use mtd_backend.Billing.Access.{evaluate_billing_access, is_allowed}
use mtd_backend.Billing.Lock.{
  TrialDb, Texts, email_domain, locked_domain, days_of, get_trial_days, set_trial_days, lock_free,
  assert_trial_domain_available, consume, on_trial_from, save_trial, start_trial_for_new_tenant,
}

module _ (js : Texts) (now : ℕ) (tenant_id email : String) (s u : TrialDb) (tenant : Tenant) where
  -- What a start that succeeded has read and written.
  record IsStarted : Type 0 where
    old : Tenant
    row : tenant ≡ on_trial_from js now (get_trial_days js s) (email_domain js email) old
    domains :
        (domain : String)
        → locked_domain js email ≡ some domain
        → u.domains
          ≡ s.domains ++ record { domain = domain; tenant_id = some old.id; consumed_at = now } ∷ []

  start-IsStarted : start_trial_for_new_tenant js now tenant_id email s ≡ (ok tenant, u) → IsStarted
  unfolding start_trial_for_new_tenant consume save_trial
  start-IsStarted h = elim (Option-cases (find (λ t. t.id === tenant_id) s.tenants)) [
    | inl missing ↦ absurd (ground arith)
    | inr (old, found) ↦ record {
      old = old;
      row = ground arith;
      domains = λ domain locks. ground arith;
    }
  ]

  pub assert-state : (assert_trial_domain_available js email s).1 ≡ s
  unfolding assert_trial_domain_available lock_free
  assert-state = ground arith

  -- The firm whose trial has started.
  pub start-tenants :
      (old : Tenant)
      → find (λ t. t.id === tenant_id) s.tenants ≡ some old
      → start_trial_for_new_tenant js now tenant_id email s ≡ (ok tenant, u)
      → (tenant ≡ on_trial_from js now (get_trial_days js s) (email_domain js email) old)
        × (u.tenants ≡ update (λ t. t.id === tenant.id) (λ _. tenant) s.tenants)
  unfolding start_trial_for_new_tenant consume save_trial
  start-tenants old found h = (ground arith, ground arith)

  -- A firm whose trial has started has access exactly until the set number of days has passed, and
  -- that number is at most 365.
  pub start_trial-allowed :
      (at : ℕ)
      → start_trial_for_new_tenant js now tenant_id email s ≡ (ok tenant, u)
      → ((is_allowed (evaluate_billing_access tenant at) ≡ true)
          ↔ (at < now + get_trial_days js s * 86400000))
        × (get_trial_days js s ≤ 365)
  unfolding evaluate_billing_access on_trial_from get_trial_days days_of
  start_trial-allowed at h =
      let started = start-IsStarted h in
      let row = started.row in (rw row (ground arith), ground arith)

-- Where `parseInt` reads back what `String` writes, the number of days that is set is the number
-- that later trials get, up to 365.
pub get-set_trial_days :
    (js : Texts) (days : ℕ) (s : TrialDb)
    → ((n : ℕ) → js.parse_int (js.print n) ≡ some n)
    → get_trial_days js (set_trial_days js days s) ≡ min 365 days
unfolding get_trial_days set_trial_days days_of
get-set_trial_days js days s reads = rw (reads (min 365 days)) (ground arith)
