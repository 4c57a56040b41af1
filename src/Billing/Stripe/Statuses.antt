-- ===== src/Billing/Stripe/Statuses.antt =====
-- The access that a firm has after a Stripe event.
use mtd_backend.Common.{
  or_else, ℕ, String, Bool, true, false, Option, none, some, List, ◌≡◌, ◌⊎◌, inl, inr, refl, ◌∙◌,
  arith, not, ◌||◌, ◌===◌, eq_iff, eq_refl, find, update, find-update_self, Option-cases,
  Bool-cases,
}
use mtd_backend.Tenants.{Tenant, BillingStatus}
use mtd_backend.Billing.Access.{evaluate_billing_access, is_allowed}
use mtd_backend.Billing.Firms.{BillingDb, BillingMail, find_firm, save_tenant}
use mtd_backend.Billing.Stripe.{
  Subscription, StripeEvent, StripeRefs, checkout_completed, subscription_updated,
  subscription_deleted, invoice_paid, invoice_payment_failed, other_event, find_tenant_for_stripe,
  billing_status_from_subscription, apply_subscription_dates, subscribed, retrieved, with_refs,
  look_up, activated, paid, past_due_row, handle_event,
}
use mtd_backend.Billing.Stripe.Events.{firm_of, refs_of, row_of, row_of-id, handle_event-Effect}

-- The subscription of the event has ended.
abbrev pub is_over : Subscription → Bool
is_over sub = (sub.status === "canceled") || (sub.status === "incomplete_expired")

abbrev pub ends_subscription : StripeEvent → Bool
ends_subscription (subscription_updated sub) = is_over sub
ends_subscription (subscription_deleted sub) = is_over sub
ends_subscription _ = false

-- The status that an event of a subscription leaves.
from_subscription-cases :
    (sub : Subscription)
    → ((billing_status_from_subscription sub ≡ BillingStatus.cancelled) × (is_over sub ≡ true))
      ⊎ ((billing_status_from_subscription sub ≡ BillingStatus.active) × (is_over sub ≡ false))
      ⊎ ((billing_status_from_subscription sub ≡ BillingStatus.past_due) × (is_over sub ≡ false))
unfolding billing_status_from_subscription
from_subscription-cases sub = elim (Bool-cases (sub.status === "active")) [
  | inl e ↦ rw ((eq_iff sub.status "active").0 e) (inr (inl (refl, refl)))
  | inr not_active ↦ elim (Bool-cases (sub.status === "trialing")) [
    | inl e ↦ rw ((eq_iff sub.status "trialing").0 e) (inr (inl (refl, refl)))
    | inr not_trialing ↦ elim (Bool-cases (sub.status === "past_due")) [
      | inl e ↦ rw ((eq_iff sub.status "past_due").0 e) (inr (inr (refl, refl)))
      | inr not_due ↦ elim (Bool-cases (sub.status === "unpaid")) [
        | inl e ↦ rw ((eq_iff sub.status "unpaid").0 e) (inr (inr (refl, refl)))
        | inr not_unpaid ↦ ground (arith, not_active, not_trialing, not_due, not_unpaid)
      ]
    ]
  ]
]

subscribed-status :
    (sub : Subscription) (tenant : Tenant)
    → (subscribed sub tenant).billing_status ≡ billing_status_from_subscription sub
unfolding subscribed billing_status_from_subscription apply_subscription_dates
subscribed-status sub tenant = elim (Bool-cases (sub.status === "canceled")) [
  | inl e ↦ rw ((eq_iff sub.status "canceled").0 e) refl
  | inr e ↦ ground (arith, e)
]

access-status :
    (tenant : Tenant) (now : ℕ)
    → ((tenant.billing_status ≡ BillingStatus.cancelled)
        → is_allowed (evaluate_billing_access tenant now) ≡ false)
      × ((tenant.billing_status ≡ BillingStatus.active)
          → is_allowed (evaluate_billing_access tenant now) ≡ true)
      × ((tenant.billing_status ≡ BillingStatus.past_due)
          → is_allowed (evaluate_billing_access tenant now) ≡ true)
unfolding evaluate_billing_access
access-status tenant now = (λ h. ground arith, λ h. ground arith, λ h. ground arith)

subscribed-allowed :
    (sub : Subscription) (tenant : Tenant) (now : ℕ)
    → is_allowed (evaluate_billing_access (subscribed sub tenant) now) ≡ not (is_over sub)
subscribed-allowed sub tenant now =
    let status = subscribed-status sub tenant in
    let (cancelled, active, past_due) = access-status (subscribed sub tenant) now in
    elim (from_subscription-cases sub) [
      | inl (h, over) ↦ rw over (cancelled (status ∙ h))
      | inr (inl (h, over)) ↦ rw over (active (status ∙ h))
      | inr (inr (h, over)) ↦ rw over (past_due (status ∙ h))
    ]

module _ (retrieve : String → Option Subscription) (mail_works : BillingMail → Bool) where
  row_of-allowed :
      (event : StripeEvent) (tenant : Tenant) (tenants : List Tenant) (now : ℕ)
      → firm_of event tenants ≡ some tenant
      → is_allowed (evaluate_billing_access (row_of retrieve mail_works event tenant) now)
        ≡ not (ends_subscription event)
  unfolding row_of activated paid past_due_row retrieved with_refs apply_subscription_dates
      evaluate_billing_access firm_of refs_of
  row_of-allowed (checkout_completed session) tenant tenants now found = ground arith
  row_of-allowed (subscription_updated sub) tenant tenants now found =
      subscribed-allowed sub tenant now
  row_of-allowed (subscription_deleted sub) tenant tenants now found =
      subscribed-allowed sub tenant now
  row_of-allowed (invoice_paid invoice) tenant tenants now found = ground arith
  row_of-allowed (invoice_payment_failed invoice) tenant tenants now found = ground arith
  row_of-allowed (other_event type) tenant tenants now found = ground arith

-- A lookup's answer is one of the rows.
Stored : List Tenant → Tenant → Type 0
Stored tenants tenant = (p : Tenant → Bool) × (find p tenants ≡ some tenant)

look_up-Stored :
    (test : Tenant → String → Bool) (text : Option String) (tenants : List Tenant) (tenant : Tenant)
    → look_up test text tenants ≡ some tenant
    → Stored tenants tenant
unfolding Stored
look_up-Stored test none tenants tenant h = absurd (ground arith)
look_up-Stored test (some text) tenants tenant h = elim (Bool-cases (text === "")) [
  | inl empty ↦ absurd (ground arith)
  | inr full ↦ (λ t. test t text, rw full at h)
]

or_else-Stored :
    (tenants : List Tenant) (tenant : Tenant) (a b : Option Tenant)
    → (a ≡ some tenant → Stored tenants tenant)
    → (b ≡ some tenant → Stored tenants tenant)
    → or_else a b ≡ some tenant
    → Stored tenants tenant
or_else-Stored tenants tenant none b f g h = g h
or_else-Stored tenants tenant (some a) b f g h = f h

find_tenant-Stored :
    (refs : StripeRefs) (tenants : List Tenant) (tenant : Tenant)
    → find_tenant_for_stripe refs tenants ≡ some tenant
    → Stored tenants tenant
unfolding find_tenant_for_stripe
find_tenant-Stored refs tenants tenant =
    or_else-Stored tenants tenant _ _ (look_up-Stored _ refs.tenant_id tenants tenant) (
      or_else-Stored tenants tenant _ _ (look_up-Stored _ refs.subscription_id tenants tenant)
        (look_up-Stored _ refs.customer_id tenants tenant))

firm_of-Stored :
    (event : StripeEvent) (tenants : List Tenant) (tenant : Tenant)
    → firm_of event tenants ≡ some tenant
    → Stored tenants tenant
unfolding firm_of
firm_of-Stored event tenants tenant h = elim (Option-cases (refs_of event)) [
  | inl missing ↦ absurd (ground arith)
  | inr (refs, found) ↦ find_tenant-Stored refs tenants tenant (rw (found, firm_of) at h)
]

find_firm-update :
    (tenants : List Tenant) (tenant new : Tenant)
    → Stored tenants tenant
    → new.id ≡ tenant.id
    → find_firm tenant.id (update (λ t. t.id === new.id) (λ _. new) tenants) ≡ some new
unfolding Stored find_firm
find_firm-update tenants tenant new (p, found) same = rw (← same) (
    find-update_self p (λ t. t.id === new.id) new tenant tenants found
      (rw (← same) (eq_refl new.id)) (eq_refl new.id))

-- After an event for a stored firm, the firm's row is found again under its id, and it has access at
-- any time exactly if the event is not one of a subscription that is canceled or
-- incomplete_expired: a checkout, a payment and a failed payment give access, also to a firm whose
-- trial is over.
pub handle_event-allowed :
    (retrieve : String → Option Subscription) (mail_works : BillingMail → Bool)
    (event : StripeEvent) (s : BillingDb) (tenant : Tenant)
    → firm_of event s.tenants ≡ some tenant
    → (row : Tenant) × (find_firm tenant.id (handle_event retrieve mail_works event s).1.tenants
        ≡ some row)
      × ((now : ℕ) → is_allowed (evaluate_billing_access row now) ≡ not (ends_subscription event))
unfolding save_tenant
handle_event-allowed retrieve mail_works event s tenant found =
    let row = row_of retrieve mail_works event tenant in
    let tables = (handle_event-Effect retrieve mail_works event s).1 in
    let saved : (handle_event retrieve mail_works event s).1.tenants
        ≡ update (λ t. t.id === row.id) (λ _. row) s.tenants =
      rw found at tables in
    (
      row,
      rw saved (
          find_firm-update s.tenants tenant row (firm_of-Stored event s.tenants tenant found)
            (row_of-id retrieve mail_works event tenant)),
      λ now. row_of-allowed retrieve mail_works event tenant s.tenants now found,
    )
