-- ===== src/Billing/Access/Laws.antt =====
-- Exactly when a firm may use the app.
use mtd_backend.Common.{ℕ, ◌<◌, ◌≡◌, ◌↔◌, ◌⊎◌, true, some, arith}
use mtd_backend.Tenants.{Tenant, BillingStatus}
use mtd_backend.Billing.Access.{evaluate_billing_access, is_allowed}

-- A paid subscription, one whose payment is late, or a trial that ends after `now`.
abbrev pub HasAccess : Tenant → ℕ → Type 0
HasAccess tenant now =
    (tenant.billing_status ≡ BillingStatus.active)
    ⊎ (tenant.billing_status ≡ BillingStatus.past_due)
    ⊎ ((tenant.billing_status ≡ BillingStatus.trial)
        × ((ends_at : ℕ) × (tenant.trial_ends_at ≡ some ends_at) × (now < ends_at)))

-- Access is allowed exactly to a firm whose status is active or past due, or that is on a trial
-- with an end date after `now`.
pub evaluate_billing_access_iff :
    (tenant : Tenant) (now : ℕ)
    → (is_allowed (evaluate_billing_access tenant now) ≡ true) ↔ HasAccess tenant now
unfolding evaluate_billing_access
evaluate_billing_access_iff tenant now = ground arith
