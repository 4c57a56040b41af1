-- ===== src/Billing/Lock.antt =====
-- src/modules/billing/email-domain.util.ts and the free trial in billing.service.ts: how long it
-- is, and the lock of a corporate mail domain that has used it.
pub mod Once
mod Tests
use Prim.Native.Char.{code}
use Prim.Native.String
use mtd_backend.Common.{
  ℕ, ◌+◌, ◌*◌, min, String, Bool, true, false, Option, none, some, List, [], ◌∷◌, ◌++◌, not, ◌&&◌,
  ◌||◌, leb, ◌==◌, ◌===◌, is_some, any, find, update, delete, if◌then◌else◌, HttpError, Result, ok,
  err, Exec, pure, throw, gets, require, modify, throw_if, ◌>>=◌, ◌>>◌,
}
use mtd_backend.Tenants.{Tenant, BillingStatus}

abbrev pub public_mail_domains : List String
public_mail_domains =
    "gmail.com" ∷ "googlemail.com" ∷ "outlook.com" ∷ "hotmail.com" ∷ "live.com" ∷ "msn.com"
    ∷ "yahoo.com" ∷ "yahoo.co.uk" ∷ "ymail.com" ∷ "icloud.com" ∷ "me.com" ∷ "mac.com" ∷ "aol.com"
    ∷ "protonmail.com" ∷ "proton.me" ∷ "mail.com" ∷ "gmx.com" ∷ "gmx.co.uk" ∷ "yandex.com"
    ∷ "yandex.ru" ∷ "zoho.com" ∷ "fastmail.com" ∷ "pm.me" ∷ []

-- What follows the last `@`; none without one.
unfoldable pub after_last_at : String → Option String
after_last_at String.[] = none
after_last_at (String.◌∷◌ c s) =
    let later = after_last_at s in
    if is_some later then later else if code c == b'@' then some s else none

abbrev non_empty : Option String → Option String
non_empty none = none
non_empty (some s) = if s === "" then none else some s

-- The `@` must not be the first character, and something must follow it.
unfoldable pub domain_of : String → Option String
unfolding after_last_at
domain_of String.[] = none
domain_of (String.◌∷◌ c s) = non_empty (after_last_at s)

unfoldable pub includes_dot : String → Bool
includes_dot String.[] = false
includes_dot (String.◌∷◌ c s) = code c == b'.' || includes_dot s

-- A row of `trial_email_domains`, whose `domain` is unique.
pub record TrialEmailDomain : Type 0 where
  pub domain : String
  pub tenant_id : Option String
  pub consumed_at : ℕ

-- `trial_days` is the value of the platform setting of that key.
pub record TrialDb : Type 0 where
  pub tenants : List Tenant
  pub domains : List TrialEmailDomain
  pub trial_days : Option String

-- JavaScript's `trim().toLowerCase()`, `parseInt(_, 10)` (none for a text that is no number or a
-- negative one) and `String(n)`.
pub record Texts : Type 0 where
  pub normal : String → String
  pub parse_int : String → Option ℕ
  pub print : ℕ → String

abbrev pub trial_used : String → HttpError
trial_used domain = HttpError.conflict (
    String.◌++◌ "A free trial has already been used for the email domain "
      (String.◌++◌ domain ". Please subscribe or contact support. [TRIAL_DOMAIN_USED]"))

module _ (js : Texts) where
  unfoldable pub email_domain : String → Option String
  unfolding domain_of
  email_domain email = domain_of (js.normal email)

  unfoldable pub is_public_mail_domain : String → Bool
  is_public_mail_domain domain = any (λ d. d === js.normal domain) public_mail_domains

  unfoldable pub is_corporate_trial_domain : String → Bool
  unfolding is_public_mail_domain includes_dot
  is_corporate_trial_domain domain =
      not (js.normal domain === "")
      && (includes_dot (js.normal domain) && not (is_public_mail_domain (js.normal domain)))

  -- The domain that a trial of this address locks.
  unfoldable pub locked_domain : String → Option String
  unfolding is_corporate_trial_domain email_domain
  locked_domain email = elim (email_domain email) [
    | none ↦ none
    | some domain ↦ if is_corporate_trial_domain domain then some domain else none
  ]

  unfoldable pub days_of : Option String → ℕ
  days_of none = 7
  days_of (some value) = elim (js.parse_int value) [
    | none ↦ 7
    | some n ↦ if leb n 365 then n else 7
  ]

  unfoldable pub get_trial_days : TrialDb → ℕ
  unfolding days_of
  get_trial_days s = days_of s.trial_days

  -- `days` after `Math.floor` and `Math.max(0, _)`.
  unfoldable pub set_trial_days : ℕ → TrialDb → TrialDb
  set_trial_days days s = record s { trial_days = some (js.print (min 365 days)) }

  abbrev pub find_domain : String → TrialDb → Option TrialEmailDomain
  find_domain domain s = find (λ r. r.domain === domain) s.domains

  unfoldable pub lock_free : Option String → Exec TrialDb Unit
  lock_free none s = (ok tt, s)
  lock_free (some domain) s = throw_if (is_some (find_domain domain s)) (trial_used domain) s

  unfoldable pub assert_trial_domain_available : String → Exec TrialDb Unit
  unfolding locked_domain lock_free
  assert_trial_domain_available email = lock_free (locked_domain email)

  -- The unique index refuses a second row for a domain.
  unfoldable pub consume : ℕ → String → Option String → Exec TrialDb Unit
  consume now tenant_id none s = (ok tt, s)
  consume now tenant_id (some domain) s =
      if is_some (find_domain domain s) then (err (trial_used domain), s) else (
        ok tt,
        record s {
          domains =
              s.domains
              ++ record { domain = domain; tenant_id = some tenant_id; consumed_at = now } ∷ [];
        },
      )

  unfoldable pub on_trial_from : ℕ → ℕ → Option String → Tenant → Tenant
  on_trial_from now days domain tenant = record tenant {
    billing_status = BillingStatus.trial;
    trial_starts_at = some now;
    trial_ends_at = some (now + days * 86400000);
    trial_email_domain = domain;
    included_client_allowance = 50;
  }

  unfoldable pub save_trial : Tenant → Exec TrialDb Tenant
  save_trial tenant s =
      (ok tenant, record s { tenants = update (λ t. t.id === tenant.id) (λ _. tenant) s.tenants })

  unfoldable pub start_trial_for_new_tenant : ℕ → String → String → Exec TrialDb Tenant
  unfolding consume on_trial_from save_trial locked_domain
  start_trial_for_new_tenant now tenant_id owner_email = do
    found ← gets (λ s. find (λ t. t.id === tenant_id) s.tenants)
    tenant ← require found (HttpError.conflict "Tenant not found when starting trial")
    days ← gets get_trial_days
    consume now tenant.id (locked_domain owner_email)
    save_trial (on_trial_from now days (email_domain owner_email) tenant)

  pub clear_trial_domain : String → Exec TrialDb String
  clear_trial_domain domain_raw = do
    throw_if (js.normal domain_raw === "") (HttpError.not_found "Domain is required")
    found ← gets (find_domain (js.normal domain_raw))
    existing ←
        require found (
          HttpError.not_found
            (String.◌++◌ "No trial lock found for domain " (js.normal domain_raw)))
    modify (λ s. record s { domains = delete (λ r. r.domain === existing.domain) s.domains })
    pure (js.normal domain_raw)
