-- ===== src/Billing/Stripe.antt =====
-- src/modules/billing/billing-stripe.service.ts: what Stripe's events do to the row of a firm. A
-- Stripe object is the record of the fields that the service reads, with a reference (a text or an
-- object with an `id`) as its id; the Stripe API and its signature check are parameters.
pub mod Events
pub mod Statuses
use mtd_backend.Common.{
  ℕ, ◌*◌, String, Bool, true, false, Option, none, some, List, not, ◌&&◌, ◌||◌, ◌==◌, ◌===◌,
  is_text, present, get_or, or_else, if◌then◌else◌, find, HttpError, Result, ok, err, Exec, pure,
  gets, require, modify, throw, ◌>>=◌, ◌>>◌,
}
use mtd_backend.Tenants.{Tenant, BillingStatus}
use mtd_backend.Billing.Firms.{
  BillingDb, BillingMail, find_firm, save_tenant, notify_owner_payment_failed,
  notify_owner_payment_succeeded,
}

-- `Stripe.Subscription`. `item_period_end` is that of the first item.
pub record Subscription : Type 0 where
  pub id : String
  pub customer : Option String
  pub tenant_id : Option String
  pub status : String
  pub item_period_end : Option ℕ
  pub period_end : Option ℕ
  pub cancel_at : Option ℕ
  pub cancel_at_period_end : Bool

pub record CheckoutSession : Type 0 where
  pub tenant_id : Option String
  pub client_reference_id : Option String
  pub customer : Option String
  pub subscription : Option String

pub record Invoice : Type 0 where
  pub customer : Option String
  pub subscription : Option String
  pub parent_subscription : Option String
  pub parent_tenant_id : Option String
  pub tenant_id : Option String
  pub amount_paid : Option ℕ

pub data StripeEvent : Type 0 where
  checkout_completed : CheckoutSession → StripeEvent
  subscription_updated subscription_deleted : Subscription → StripeEvent
  invoice_paid invoice_payment_failed : Invoice → StripeEvent
  other_event : String → StripeEvent

-- `tenantId`, `customerId` and `subscriptionId`.
pub record StripeRefs : Type 0 where
  pub tenant_id : Option String
  pub customer_id : Option String
  pub subscription_id : Option String

-- A lookup that is made only for a text that is not empty.
abbrev pub look_up : (Tenant → String → Bool) → Option String → List Tenant → Option Tenant
look_up test none tenants = none
look_up test (some text) tenants =
    if not (text === "") then find (λ t. test t text) tenants else none

unfoldable pub find_tenant_for_stripe : StripeRefs → List Tenant → Option Tenant
find_tenant_for_stripe refs tenants =
    or_else (look_up (λ t id. t.id === id) refs.tenant_id tenants) (
      or_else (look_up (λ t id. is_text t.stripe_subscription_id id) refs.subscription_id tenants)
        (look_up (λ t id. is_text t.stripe_customer_id id) refs.customer_id tenants))

-- Seconds to milliseconds; 0 is falsy.
abbrev date_of : Option ℕ → Option ℕ
date_of none = none
date_of (some seconds) = if seconds == 0 then none else some (seconds * 1000)

pub period_end_from_subscription : Subscription → Option ℕ
period_end_from_subscription sub = date_of (or_else sub.item_period_end sub.period_end)

pub cancels_at_from_subscription : Subscription → Option ℕ
unfolding period_end_from_subscription
cancels_at_from_subscription sub =
    if sub.status === "canceled"
    then none
    else or_else (date_of sub.cancel_at)
        (if sub.cancel_at_period_end then period_end_from_subscription sub else none)

pub apply_subscription_dates : Tenant → Subscription → Tenant
apply_subscription_dates tenant sub = record tenant {
  billing_period_ends_at = period_end_from_subscription sub;
  billing_cancels_at = cancels_at_from_subscription sub;
}

pub billing_status_from_subscription : Subscription → BillingStatus
billing_status_from_subscription sub =
    if (sub.status === "active") || (sub.status === "trialing")
    then BillingStatus.active
    else if (sub.status === "past_due") || (sub.status === "unpaid")
    then BillingStatus.past_due
    else if (sub.status === "canceled") || (sub.status === "incomplete_expired")
    then BillingStatus.cancelled
    else BillingStatus.past_due

-- `if (id) tenant.x = id`
abbrev assign : Option String → Option String → Option String
assign none old = old
assign (some id) old = if not (id === "") then some id else old

pub with_refs : StripeRefs → Tenant → Tenant
with_refs refs tenant = record tenant {
  stripe_customer_id = assign refs.customer_id tenant.stripe_customer_id;
  stripe_subscription_id = assign refs.subscription_id tenant.stripe_subscription_id;
}

abbrev dates_from : Option Subscription → Tenant → Tenant
dates_from none tenant = tenant
dates_from (some sub) tenant = apply_subscription_dates tenant sub

pub checkout_refs : CheckoutSession → StripeRefs
checkout_refs session = record {
  tenant_id = or_else session.tenant_id session.client_reference_id;
  customer_id = session.customer;
  subscription_id = session.subscription;
}

-- `tenantIdFromInvoice`
pub invoice_refs : Invoice → StripeRefs
invoice_refs invoice = record {
  tenant_id = or_else invoice.parent_tenant_id invoice.tenant_id;
  customer_id = invoice.customer;
  subscription_id = or_else invoice.parent_subscription invoice.subscription;
}

unfoldable pub subscription_refs : Subscription → StripeRefs
subscription_refs sub = record {
  tenant_id = sub.tenant_id;
  customer_id = sub.customer;
  subscription_id = some sub.id;
}

-- The row that `onSubscriptionChanged` saves.
pub subscribed : Subscription → Tenant → Tenant
unfolding billing_status_from_subscription apply_subscription_dates cancels_at_from_subscription
    period_end_from_subscription
subscribed sub tenant =
    let dated =
      apply_subscription_dates
        (record tenant {
          stripe_subscription_id = some sub.id;
          stripe_customer_id = assign sub.customer tenant.stripe_customer_id;
          billing_status = billing_status_from_subscription sub;
        })
        sub in
    if sub.status === "canceled"
    then record dated { billing_status = BillingStatus.cancelled; billing_cancels_at = none }
    else dated

-- The row that `onInvoicePaymentFailed` saves.
pub past_due_row : Tenant → Tenant
past_due_row tenant = record tenant { billing_status = BillingStatus.past_due }

abbrev pub save_row : (Tenant → Tenant) → Tenant → Exec BillingDb Unit
save_row row tenant = modify (save_tenant (row tenant))

-- `retrieve` answers none where the call to Stripe fails.
module _ (retrieve : String → Option Subscription) (mail_works : BillingMail → Bool) where
  retrieved : Option String → Option Subscription
  retrieved none = none
  retrieved (some id) = if not (id === "") then retrieve id else none

  -- The row that `onCheckoutCompleted` saves.
  pub activated : StripeRefs → Tenant → Tenant
  unfolding retrieved with_refs
  activated refs tenant =
      dates_from (retrieved refs.subscription_id) (record (with_refs refs tenant) {
        billing_status = BillingStatus.active;
        billing_cancels_at = none;
      })

  -- The row that `onInvoicePaid` saves.
  pub paid : StripeRefs → Tenant → Tenant
  unfolding retrieved with_refs
  paid refs tenant =
      dates_from (retrieved refs.subscription_id)
        (record (with_refs refs tenant) { billing_status = BillingStatus.active })

  -- No firm: a warning is logged.
  for_tenant : StripeRefs → (Tenant → Exec BillingDb Unit) → Exec BillingDb Unit
  unfolding find_tenant_for_stripe
  for_tenant refs handler s = elim (find_tenant_for_stripe refs s.tenants) [
    | none ↦ (ok tt, s)
    | some tenant ↦ handler tenant s
  ]

  pub on_checkout_completed : CheckoutSession → Exec BillingDb Unit
  unfolding for_tenant
  on_checkout_completed session =
      for_tenant (checkout_refs session) (save_row (activated (checkout_refs session)))

  pub on_subscription_changed : Subscription → Exec BillingDb Unit
  unfolding for_tenant
  on_subscription_changed sub = for_tenant (subscription_refs sub) (save_row (subscribed sub))

  -- The handlers of an invoice, once the firm is found.
  abbrev pub settle : Invoice → Tenant → Exec BillingDb Unit
  settle invoice tenant =
      modify (save_tenant (paid (invoice_refs invoice) tenant))
      >> notify_owner_payment_succeeded mail_works tenant.id invoice.amount_paid

  abbrev pub mark_past_due : Tenant → Exec BillingDb Unit
  mark_past_due tenant =
      modify (save_tenant (past_due_row tenant)) >> notify_owner_payment_failed mail_works tenant.id

  pub on_invoice_paid : Invoice → Exec BillingDb Unit
  unfolding for_tenant
  on_invoice_paid invoice = for_tenant (invoice_refs invoice) (settle invoice)

  pub on_invoice_payment_failed : Invoice → Exec BillingDb Unit
  unfolding for_tenant
  on_invoice_payment_failed invoice = for_tenant (invoice_refs invoice) mark_past_due

  pub handle_event : StripeEvent → Exec BillingDb Unit
  handle_event (checkout_completed session) = on_checkout_completed session
  handle_event (subscription_updated sub) = on_subscription_changed sub
  handle_event (subscription_deleted sub) = on_subscription_changed sub
  handle_event (invoice_paid invoice) = on_invoice_paid invoice
  handle_event (invoice_payment_failed invoice) = on_invoice_payment_failed invoice
  handle_event (other_event type) = pure tt

  -- `construct` is `StripeService.constructEvent`: none where the signature does not verify.
  pub handle_webhook :
      (String → String → Option StripeEvent) → String → Option String → Exec BillingDb Unit
  unfolding handle_event
  handle_webhook construct body none =
      throw (HttpError.bad_request "Missing stripe-signature header")
  handle_webhook construct body (some signature) =
      if signature === ""
      then throw (HttpError.bad_request "Missing stripe-signature header")
      else require (construct body signature)
          (HttpError.bad_request "Invalid Stripe webhook signature")
        >>= handle_event
