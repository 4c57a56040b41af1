-- ===== src/Billing/Firms.antt =====
-- src/modules/billing: the rows and the mails that the trial cron and the Stripe events share
-- (`ownerMailContext`, `notifyOwner*`, `ownersForTenants`).
use mtd_backend.Common.{
  ℕ, String, Bool, Option, none, some, List, [], ◌∷◌, ◌++◌, ◌&&◌, ◌===◌, is_text, present, get_or,
  if◌then◌else◌, find, update, HttpError, ok, err, Exec, pure,
}
use mtd_backend.Users.{User}
use mtd_backend.Tenants.{Tenant}

-- The mails of `MailService`: address, first name and firm, and the amount in pence or the end of
-- the trial.
pub data BillingMail : Type 0 where
  trial_ending : String → String → String → Option ℕ → BillingMail
  trial_expired payment_failed : String → String → String → BillingMail
  payment_succeeded : String → String → String → Option ℕ → BillingMail

-- `users` is in the order of `created_at`, by which the queries for a firm's owner sort.
pub record BillingDb : Type 0 where
  pub tenants : List Tenant
  pub users : List User
  pub sent : List BillingMail

unfoldable pub find_firm : String → List Tenant → Option Tenant
find_firm id tenants = find (λ t. t.id === id) tenants

-- `tenantRepo.save` of a row that was read before.
unfoldable pub save_tenant : Tenant → BillingDb → BillingDb
save_tenant tenant s = record s {
  tenants = update (λ t. t.id === tenant.id) (λ _. tenant) s.tenants;
}

-- An active user of the firm with the role `owner`.
pub is_owner_of : String → User → Bool
is_owner_of tenant_id u =
    is_text u.tenant_id tenant_id && (is_text u.role_name "owner" && u.is_active)

unfoldable pub owner_of : String → BillingDb → Option User
unfolding is_owner_of
owner_of tenant_id s = find (is_owner_of tenant_id) s.users

unfoldable pub send : (BillingMail → Bool) → BillingMail → Exec BillingDb Unit
send mail_works mail s =
    if mail_works mail
    then (ok tt, record s { sent = s.sent ++ mail ∷ [] })
    else (err (HttpError.internal "The mail could not be sent"), s)

abbrev pub email_of : Option User → Option String → Option String
email_of none contact = contact
email_of (some owner) contact = some owner.email

abbrev pub first_name_of : Option User → String
first_name_of none = "there"
first_name_of (some owner) = owner.first_name

-- The address, the first name and the firm's name; none without a firm or an address.
pub owner_mail_context : String → BillingDb → Option (String × String × String)
unfolding find_firm
owner_mail_context tenant_id s = elim (find_firm tenant_id s.tenants) [
  | none ↦ none
  | some tenant ↦
      let owner = owner_of tenant_id s in
      let email = email_of owner tenant.contact_email in
      if present email then some (get_or email "", first_name_of owner, tenant.firm_name) else none
]

module _ (mail_works : BillingMail → Bool) where
  unfoldable pub mail_owner :
      (String → String → String → BillingMail)
      → Option (String × String × String)
      → Exec BillingDb Unit
  mail_owner mail none = pure tt
  mail_owner mail (some (email, name, firm)) = send mail_works (mail email name firm)

  unfoldable pub notify_owner_payment_failed : String → Exec BillingDb Unit
  unfolding mail_owner
  notify_owner_payment_failed tenant_id s =
      mail_owner payment_failed (owner_mail_context tenant_id s) s

  unfoldable pub notify_owner_payment_succeeded : String → Option ℕ → Exec BillingDb Unit
  unfolding mail_owner
  notify_owner_payment_succeeded tenant_id amount s =
      mail_owner (λ e n f. payment_succeeded e n f amount) (owner_mail_context tenant_id s) s
