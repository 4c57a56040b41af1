-- ===== src/Billing/Trials/Windows.antt =====
-- When the two mails of a trial are due.
use mtd_backend.Common.{ℕ, ◌+◌, ◌*◌, ◌<◌, true, false, none, some, ◌≡◌, ◌↔◌, ◌⊎◌, arith, is_some}
use mtd_backend.Tenants.{Tenant, BillingStatus}
use mtd_backend.Billing.Access.{evaluate_billing_access, is_allowed}
use mtd_backend.Billing.Trials.{
  day_ms, ending_due, expired_due, should_send_trial_ending, should_send_trial_expired,
}

-- The notice of expiry is due for a firm exactly if it is on a trial with an end date, the notice
-- was not sent, and the firm has no access any more.
pub expired_due_iff :
    (tenant : Tenant) (now : ℕ)
    → (expired_due tenant now ≡ true) ↔ (
        (tenant.billing_status ≡ BillingStatus.trial)
        × (is_some tenant.trial_ends_at ≡ true)
        × (tenant.trial_expired_email_sent_at ≡ none)
        × (is_allowed (evaluate_billing_access tenant now) ≡ false))
unfolding should_send_trial_expired evaluate_billing_access
expired_due_iff tenant now = ground arith

-- The reminder is due only while the firm still has access, so never together with the notice of
-- expiry.
pub ending_due-allowed :
    (tenant : Tenant) (now : ℕ)
    → ending_due tenant now ≡ true
    → (is_allowed (evaluate_billing_access tenant now) ≡ true) × (expired_due tenant now ≡ false)
unfolding should_send_trial_ending should_send_trial_expired evaluate_billing_access
ending_due-allowed tenant now due = (ground arith, ground arith)

-- With one run a day no trial passes the reminder's window by: if it was not sent for a trial that
-- ends more than two days ahead, then a day later it is due, or the end is still more than two days
-- ahead.
pub ending_due-daily :
    (tenant : Tenant) (now ends : ℕ)
    → tenant.billing_status ≡ BillingStatus.trial
    → tenant.trial_ends_at ≡ some ends
    → tenant.trial_ending_email_sent_at ≡ none
    → now + 2 * day_ms < ends
    → (ending_due tenant (now + day_ms) ≡ true) ⊎ ((now + day_ms) + 2 * day_ms < ends)
unfolding should_send_trial_ending
ending_due-daily tenant now ends status at sent ahead = ground arith
