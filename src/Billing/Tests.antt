-- ===== src/Billing/Tests.antt =====
-- The price, the trial mails and the Stripe events at concrete firms.
use mtd_backend.Common.{
  ℕ, ◌+◌, ◌*◌, ◌-◌, ◌≤◌, ◌≡◌, String, Bool, true, false, Option, none, some, [], ◌∷◌, refl, arith,
  not, find,
}
use mtd_backend.Tenants.{Tenant, BillingStatus}
use mtd_backend.Billing.Access.{evaluate_billing_access, is_allowed}
use mtd_backend.Billing.Pricing.{MonthlyFeeQuote, calc_monthly_fee}
use mtd_backend.Billing.Pricing.Fee.{IsQuote, calc_monthly_fee-IsQuote, total_ex_vat_bounds}
use mtd_backend.Billing.Firms.{BillingDb, BillingMail, find_firm}
use mtd_backend.Billing.Stripe.{
  Subscription, StripeEvent, subscription_deleted, subscription_refs, find_tenant_for_stripe,
  handle_event, handle_webhook,
}
use mtd_backend.Billing.Stripe.Events.{firm_of, refs_of}
use mtd_backend.Billing.Stripe.Statuses.{ends_subscription, handle_event-allowed}

abbrev firm_of_id : String → BillingStatus → ℕ → Tenant
firm_of_id id status ends = record {
  id = id;
  firm_name = "Ledger Ltd";
  contact_name = none;
  contact_email = some "office@ledger.example";
  is_active = true;
  billing_status = status;
  trial_starts_at = some 0;
  trial_ends_at = some ends;
  trial_email_domain = none;
  stripe_customer_id = some "cus_1";
  stripe_subscription_id = some "sub_1";
  billing_period_ends_at = none;
  billing_cancels_at = none;
  included_client_allowance = 50;
  trial_ending_email_sent_at = none;
  trial_expired_email_sent_at = none;
  phone = none;
  address = none;
  postcode = none;
  deactivation_reason = none;
  deactivated_at = none;
}

-- A trial of seven days.
abbrev on_trial : Tenant
on_trial = firm_of_id "firm" BillingStatus.trial 604800000

abbrev firms : BillingDb
firms = record {
  tenants = on_trial ∷ firm_of_id "other" BillingStatus.active 604800000 ∷ [];
  users = [];
  sent = [];
}

abbrev ended : Subscription
ended = record {
  id = "sub_1";
  customer = some "cus_1";
  tenant_id = some "firm";
  status = "canceled";
  item_period_end = some 604800;
  period_end = none;
  cancel_at = none;
  cancel_at_period_end = false;
}

abbrev no_subscription : String → Option Subscription
no_subscription id = none

abbrev mail_always : BillingMail → Bool
mail_always mail = true

abbrev construct_ended : String → String → Option StripeEvent
construct_ended body signature = some (subscription_deleted ended)

calc_monthly_fee-IsQuote_example :
    (q : MonthlyFeeQuote) × (calc_monthly_fee 137 ≡ some q) × IsQuote 137 q
calc_monthly_fee-IsQuote_example = calc_monthly_fee-IsQuote 137

abbrev quote_60 : MonthlyFeeQuote
quote_60 = (calc_monthly_fee-IsQuote 60).0

abbrev quote_70 : MonthlyFeeQuote
quote_70 = (calc_monthly_fee-IsQuote 70).0

total_ex_vat_bounds_example :
    (quote_60.total_ex_vat + 50 * (70 - 60) ≤ quote_70.total_ex_vat)
    × (quote_70.total_ex_vat ≤ quote_60.total_ex_vat + 90 * (70 - 60))
total_ex_vat_bounds_example =
    total_ex_vat_bounds 60 70 quote_60 quote_70 (omega arith) (omega arith)
      (calc_monthly_fee-IsQuote 60).1 (calc_monthly_fee-IsQuote 70).1

abbrev after_webhook : BillingDb
after_webhook =
    (handle_webhook no_subscription mail_always construct_ended "body" (some "t=1") firms).1

handle_event-allowed_example :
    (row : Tenant) × (find_firm "firm"
        (handle_event no_subscription mail_always (subscription_deleted ended) firms).1.tenants
      ≡ some row)
    × ((now : ℕ)
        → is_allowed (evaluate_billing_access row now)
          ≡ not (ends_subscription (subscription_deleted ended)))
unfolding firm_of refs_of subscription_refs find_tenant_for_stripe find
handle_event-allowed_example =
    handle_event-allowed no_subscription mail_always (subscription_deleted ended) firms on_trial
      refl
