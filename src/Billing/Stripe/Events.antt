-- ===== src/Billing/Stripe/Events.antt =====
-- A Stripe event touches one firm at most.
use mtd_backend.Common.{
  String, Bool, Option, none, some, List, ◌≡◌, ◌⊎◌, inl, inr, refl, arith, Option-cases, Exec,
}
use mtd_backend.Tenants.{Tenant}
use mtd_backend.Billing.Firms.{
  BillingDb, BillingMail, payment_failed, payment_succeeded, save_tenant, send, mail_owner,
  notify_owner_payment_failed, notify_owner_payment_succeeded,
}
use mtd_backend.Billing.Stripe.{
  Subscription, Invoice, StripeEvent, StripeRefs, checkout_completed, subscription_updated,
  subscription_deleted, invoice_paid, invoice_payment_failed, other_event, find_tenant_for_stripe,
  apply_subscription_dates, subscribed, retrieved, with_refs, activated, paid, past_due_row,
  for_tenant, checkout_refs, invoice_refs, subscription_refs, on_checkout_completed,
  on_subscription_changed, on_invoice_paid, on_invoice_payment_failed, save_row, settle,
  mark_past_due, handle_event,
}

-- A firm's row before and after an event for the firm `id`: the id stays, and only that firm's row
-- may change.
abbrev pub KeptBut : String → Tenant → Tenant → Type 0
KeptBut id x y = (y.id ≡ x.id) × ((y ≡ x) ⊎ (x.id ≡ id))

-- The firm that an event is for.
unfoldable pub refs_of : StripeEvent → Option StripeRefs
refs_of (checkout_completed session) = some (checkout_refs session)
refs_of (subscription_updated sub) = some (subscription_refs sub)
refs_of (subscription_deleted sub) = some (subscription_refs sub)
refs_of (invoice_paid invoice) = some (invoice_refs invoice)
refs_of (invoice_payment_failed invoice) = some (invoice_refs invoice)
refs_of (other_event type) = none

-- `refs_of` with the lookup in the table.
unfoldable pub firm_of : StripeEvent → List Tenant → Option Tenant
unfolding refs_of
firm_of event tenants = elim (refs_of event) [
  | none ↦ none
  | some refs ↦ find_tenant_for_stripe refs tenants
]

module _ (retrieve : String → Option Subscription) (mail_works : BillingMail → Bool) where
  -- The row that an event saves.
  unfoldable pub row_of : StripeEvent → Tenant → Tenant
  row_of (checkout_completed session) tenant =
      activated retrieve mail_works (checkout_refs session) tenant
  row_of (subscription_updated sub) tenant = subscribed sub tenant
  row_of (subscription_deleted sub) tenant = subscribed sub tenant
  row_of (invoice_paid invoice) tenant = paid retrieve mail_works (invoice_refs invoice) tenant
  row_of (invoice_payment_failed invoice) tenant = past_due_row tenant
  row_of (other_event type) tenant = tenant

  pub row_of-id : (event : StripeEvent) (tenant : Tenant) → (row_of event tenant).id ≡ tenant.id
  unfolding row_of activated paid past_due_row subscribed retrieved with_refs
      apply_subscription_dates
  row_of-id (checkout_completed session) tenant = ground arith
  row_of-id (subscription_updated sub) tenant = ground arith
  row_of-id (subscription_deleted sub) tenant = ground arith
  row_of-id (invoice_paid invoice) tenant = ground arith
  row_of-id (invoice_payment_failed invoice) tenant = ground arith
  row_of-id (other_event type) tenant = refl

  send-tables :
      (mail : BillingMail) (s : BillingDb)
      → ((send mail_works mail s).1.tenants ≡ s.tenants)
        × ((send mail_works mail s).1.users ≡ s.users)
  unfolding send
  send-tables mail s = ground arith

  mail_owner-tables :
      (mail : String → String → String → BillingMail) (to : Option (String × String × String))
      (s : BillingDb)
      → ((mail_owner mail_works mail to s).1.tenants ≡ s.tenants)
        × ((mail_owner mail_works mail to s).1.users ≡ s.users)
  unfolding mail_owner
  mail_owner-tables mail none s = (refl, refl)
  mail_owner-tables mail (some (email, name, firm)) s = send-tables (mail email name firm) s

  -- What an event does to the tables, mails left aside.
  abbrev pub Effect : StripeEvent → BillingDb → BillingDb → Type 0
  Effect event s u =
      (u.users ≡ s.users)
      × (u.tenants ≡ elim (firm_of event s.tenants) [
        | none ↦ s.tenants
        | some tenant ↦ (save_tenant (row_of event tenant) s).tenants
      ])

  -- A handler that saves the row and then at most sends mail.
  for_tenant-tables :
      (refs : StripeRefs) (handler : Tenant → Exec BillingDb Unit) (row : Tenant → Tenant)
      (s : BillingDb)
      → ((t : Tenant)
          → ((handler t s).1.users ≡ s.users)
            × ((handler t s).1.tenants ≡ (save_tenant (row t) s).tenants))
      → ((for_tenant retrieve mail_works refs handler s).1.users ≡ s.users)
        × ((for_tenant retrieve mail_works refs handler s).1.tenants
            ≡ elim (find_tenant_for_stripe refs s.tenants) [
              | none ↦ s.tenants
              | some tenant ↦ (save_tenant (row tenant) s).tenants
            ])
  unfolding for_tenant
  for_tenant-tables refs handler row s h =
      elim (Option-cases (find_tenant_for_stripe refs s.tenants)) [
        | inl missing ↦ rw (missing, for_tenant) (refl, refl)
        | inr (tenant, found) ↦ rw (found, for_tenant) (h tenant)
      ]

  settle-tables :
      (invoice : Invoice) (s : BillingDb) (t : Tenant)
      → ((settle retrieve mail_works invoice t s).1.users ≡ s.users)
        × ((settle retrieve mail_works invoice t s).1.tenants
            ≡ (save_tenant (paid retrieve mail_works (invoice_refs invoice) t) s).tenants)
  unfolding notify_owner_payment_succeeded save_tenant
  settle-tables invoice s t =
      let h =
        mail_owner-tables (λ e n f. payment_succeeded e n f invoice.amount_paid) _
          (save_tenant (paid retrieve mail_works (invoice_refs invoice) t) s) in
      (h.1, h.0)

  mark_past_due-tables :
      (s : BillingDb) (t : Tenant)
      → ((mark_past_due retrieve mail_works t s).1.users ≡ s.users)
        × ((mark_past_due retrieve mail_works t s).1.tenants
            ≡ (save_tenant (past_due_row t) s).tenants)
  unfolding notify_owner_payment_failed save_tenant
  mark_past_due-tables s t =
      let h = mail_owner-tables payment_failed _ (save_tenant (past_due_row t) s) in (h.1, h.0)

  pub handle_event-Effect :
      (event : StripeEvent) (s : BillingDb)
      → Effect event s (handle_event retrieve mail_works event s).1
  unfolding handle_event firm_of refs_of row_of on_checkout_completed on_subscription_changed
      on_invoice_paid on_invoice_payment_failed save_tenant
  handle_event-Effect (checkout_completed session) s =
      for_tenant-tables (checkout_refs session)
        (save_row (activated retrieve mail_works (checkout_refs session)))
        (activated retrieve mail_works (checkout_refs session)) s (λ t. (refl, refl))
  handle_event-Effect (subscription_updated sub) s =
      for_tenant-tables (subscription_refs sub) (save_row (subscribed sub)) (subscribed sub) s
        (λ t. (refl, refl))
  handle_event-Effect (subscription_deleted sub) s =
      for_tenant-tables (subscription_refs sub) (save_row (subscribed sub)) (subscribed sub) s
        (λ t. (refl, refl))
  handle_event-Effect (invoice_paid invoice) s =
      for_tenant-tables (invoice_refs invoice) (settle retrieve mail_works invoice)
        (paid retrieve mail_works (invoice_refs invoice)) s (settle-tables invoice s)
  handle_event-Effect (invoice_payment_failed invoice) s =
      for_tenant-tables (invoice_refs invoice) (mark_past_due retrieve mail_works) past_due_row s
        (mark_past_due-tables s)
  handle_event-Effect (other_event type) s = (refl, refl)
