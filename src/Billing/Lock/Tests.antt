-- ===== src/Billing/Lock/Tests.antt =====
-- Trials of a firm with an address of its own domain.
use mtd_backend.Common.{ℕ, zero, suc, String, true, none, some, [], ◌∷◌, ◌≡◌, refl, ap}
use mtd_backend.Tenants.{Tenant, BillingStatus}
use mtd_backend.Billing.Lock.{TrialDb, Texts}

-- Numbers written in ones.
ones : ℕ → String
ones zero = String.[]
ones (suc n) = String.◌∷◌ "1" (ones n)

count_ones : String → ℕ
count_ones String.[] = 0
count_ones (String.◌∷◌ c s) = suc (count_ones s)

count_ones-ones : (n : ℕ) → count_ones (ones n) ≡ n
unfolding ones count_ones
count_ones-ones zero = refl
count_ones-ones (suc n) = ap suc (count_ones-ones n)

abbrev in_ones : Texts
in_ones = record { normal = λ s. s; parse_int = λ s. some (count_ones s); print = ones }

abbrev new_firm : Tenant
new_firm = record {
  id = "firm";
  firm_name = "Ledger Ltd";
  contact_name = none;
  contact_email = none;
  is_active = true;
  billing_status = BillingStatus.active;
  trial_starts_at = none;
  trial_ends_at = none;
  trial_email_domain = none;
  stripe_customer_id = none;
  stripe_subscription_id = none;
  billing_period_ends_at = none;
  billing_cancels_at = none;
  included_client_allowance = 50;
  trial_ending_email_sent_at = none;
  trial_expired_email_sent_at = none;
  phone = none;
  address = none;
  postcode = none;
  deactivation_reason = none;
  deactivated_at = none;
}

abbrev before : TrialDb
before = record { tenants = new_firm ∷ []; domains = []; trial_days = none }

abbrev started : Tenant
started = record new_firm {
  billing_status = BillingStatus.trial;
  trial_starts_at = some 1000;
  trial_ends_at = some 604801000;
  trial_email_domain = some "ledger.example";
}

abbrev after : TrialDb
after = record {
  tenants = started ∷ [];
  domains = record { domain = "ledger.example"; tenant_id = some "firm"; consumed_at = 1000 } ∷ [];
  trial_days = none;
}

reads_back : (n : ℕ) → in_ones.parse_int (in_ones.print n) ≡ some n
reads_back n = ap some (count_ones-ones n)
