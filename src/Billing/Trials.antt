-- ===== src/Billing/Trials.antt =====
-- src/modules/billing/billing-mail-window.util.ts and billing-mail.scheduler.ts: the daily mails of
-- firms on a trial. `msUntil` is signed in the source; the tests compare `now` plus the bound with
-- the end of the trial instead.
pub mod Windows
pub mod Daily
use mtd_backend.Common.{
  ℕ, ◌+◌, ◌*◌, String, Bool, true, false, Option, none, some, List, [], ◌∷◌, not, ◌&&◌, ltb, leb,
  is_some, find_all, Exec, pure, modify, attempt, if◌then◌else◌, ◌>>=◌, ◌>>◌,
}
use mtd_backend.Users.{User}
use mtd_backend.Tenants.{Tenant, BillingStatus}
use mtd_backend.Billing.Firms.{
  BillingDb, BillingMail, trial_ending, trial_expired, owner_of, save_tenant, send,
}

abbrev pub day_ms : ℕ
day_ms = 86400000

abbrev pub is_trial : BillingStatus → Bool
is_trial BillingStatus.trial = true
is_trial _ = false

-- More than one day and at most two days are left.
abbrev in_ending_window : Option ℕ → ℕ → Bool
in_ending_window none now = false
in_ending_window (some ends) now = ltb (now + day_ms) ends && leb ends (now + 2 * day_ms)

abbrev has_ended : Option ℕ → ℕ → Bool
has_ended none now = false
has_ended (some ends) now = leb ends now

unfoldable pub should_send_trial_ending : BillingStatus → Option ℕ → Bool → ℕ → Bool
should_send_trial_ending status ends already now =
    is_trial status && (not already && in_ending_window ends now)

pub should_send_trial_expired : BillingStatus → Option ℕ → Bool → ℕ → Bool
should_send_trial_expired status ends already now =
    is_trial status && (not already && has_ended ends now)

abbrev pub ending_due : Tenant → ℕ → Bool
ending_due tenant now =
    should_send_trial_ending tenant.billing_status tenant.trial_ends_at
      (is_some tenant.trial_ending_email_sent_at) now

abbrev pub expired_due : Tenant → ℕ → Bool
expired_due tenant now =
    should_send_trial_expired tenant.billing_status tenant.trial_ends_at
      (is_some tenant.trial_expired_email_sent_at) now

abbrev pub reminded : Tenant → ℕ → Tenant
reminded tenant now = record tenant { trial_ending_email_sent_at = some now }

abbrev pub expired : Tenant → ℕ → Tenant
expired tenant now = record tenant {
  billing_status = BillingStatus.expired;
  trial_expired_email_sent_at = some now;
}

module _ (mail_works : BillingMail → Bool) (now : ℕ) where
  send_reminder : User → Tenant → Exec BillingDb Tenant
  send_reminder owner tenant = do
    send mail_works
        (trial_ending owner.email owner.first_name tenant.firm_name tenant.trial_ends_at)
    modify (save_tenant (reminded tenant now))
    pure (reminded tenant now)

  -- The first `if` of the loop's body; the row that it may have changed is returned.
  remind : User → Tenant → Exec BillingDb Tenant
  unfolding send_reminder
  remind owner tenant = if ending_due tenant now then send_reminder owner tenant else pure tenant

  send_notice : User → Tenant → Exec BillingDb Unit
  send_notice owner tenant = do
    send mail_works (trial_expired owner.email owner.first_name tenant.firm_name)
    modify (save_tenant (expired tenant now))

  -- The second one.
  expire : User → Tenant → Exec BillingDb Unit
  unfolding send_notice
  expire owner tenant = if expired_due tenant now then send_notice owner tenant else pure tt

  mail_trial : Option User → Tenant → Exec BillingDb Unit
  unfolding remind expire
  mail_trial none tenant = pure tt
  mail_trial (some owner) tenant = attempt (remind owner tenant >>= expire owner)

  -- The owners are read once, before the loop, which does not change them.
  mail_trials : List Tenant → Exec BillingDb Unit
  unfolding mail_trial
  mail_trials [] s = pure tt s
  mail_trials (tenant ∷ rest) s = (mail_trial (owner_of tenant.id s) tenant >> mail_trials rest) s

  pub run_daily_trial_emails : Exec BillingDb Unit
  unfolding mail_trials
  run_daily_trial_emails s = mail_trials (find_all (λ t. is_trial t.billing_status) s.tenants) s
