-- ===== src/Billing/Access.antt =====
-- src/modules/billing/billing-access.util.ts: whether a firm may use the app.
pub mod Laws
use mtd_backend.Common.{ℕ, String, Bool, true, false, Option, none, some, ltb, if◌then◌else◌}
use mtd_backend.Tenants.{Tenant, BillingStatus}

-- `BillingAccessResult`: allowed, or the code and the message of the refusal.
pub data BillingAccess : Type 0 where
  allowed : BillingAccess
  trial_expired subscription_required : String → BillingAccess

-- A missing end date counts as passed.
abbrev pub ends_after : Option ℕ → ℕ → Bool
ends_after none now = false
ends_after (some ends_at) now = ltb now ends_at

access_of_status : BillingStatus → Option ℕ → ℕ → BillingAccess
access_of_status BillingStatus.active ends_at now = allowed
access_of_status BillingStatus.past_due ends_at now = allowed
access_of_status BillingStatus.trial ends_at now =
    if ends_after ends_at now
    then allowed
    else trial_expired
        "Your free trial has ended. Please subscribe to continue using My Tax Diary. [TRIAL_EXPIRED]"
access_of_status _ ends_at now =
    subscription_required
      "A paid subscription is required to continue. Please subscribe from Plan & billing. [SUBSCRIPTION_REQUIRED]"

unfoldable pub evaluate_billing_access : Tenant → ℕ → BillingAccess
unfolding access_of_status
evaluate_billing_access tenant now = access_of_status tenant.billing_status tenant.trial_ends_at now

abbrev pub is_allowed : BillingAccess → Bool
is_allowed allowed = true
is_allowed _ = false

abbrev pub message_of : BillingAccess → String
message_of allowed = "Subscription required"
message_of (trial_expired message) = message
message_of (subscription_required message) = message
