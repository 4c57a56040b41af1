-- ===== src/Tenants.antt =====
-- src/modules/tenants/entities/tenant.entity.ts: the row of an accounting firm.
use mtd_backend.Common.{ℕ, String, Bool, Option}

-- `billing_status` holds one of the five words of `TenantBillingStatus`, or any other text. The
-- column is not nullable.
pub data BillingStatus : Type 0 where
  trial active past_due cancelled expired : BillingStatus
  other : String → BillingStatus

-- Times are milliseconds since the epoch.
pub record Tenant : Type 0 where
  pub id : String
  pub firm_name : String
  pub contact_name : Option String
  pub contact_email : Option String
  pub phone : Option String
  pub address : Option String
  pub postcode : Option String
  pub is_active : Bool
  pub deactivation_reason : Option String
  pub deactivated_at : Option ℕ
  pub billing_status : BillingStatus
  pub trial_starts_at : Option ℕ
  pub trial_ends_at : Option ℕ
  pub trial_email_domain : Option String
  pub stripe_customer_id : Option String
  pub stripe_subscription_id : Option String
  pub billing_period_ends_at : Option ℕ
  pub billing_cancels_at : Option ℕ
  pub included_client_allowance : ℕ
  pub trial_ending_email_sent_at : Option ℕ
  pub trial_expired_email_sent_at : Option ℕ
