-- ===== src/Billing/Trials/Daily.antt =====
-- What a run of the daily mails does to the table of firms.
use mtd_backend.Common.{ℕ, true, ◌≡◌, ◌⊎◌, ◌===◌, update}
use mtd_backend.Tenants.{Tenant}
use mtd_backend.Billing.Firms.{BillingDb}
use mtd_backend.Billing.Trials.{ending_due, expired_due, reminded, expired}

-- A row before and after the run: left alone, reminded or expired, each only when it is due.
abbrev pub Mailed : ℕ → Tenant → Tenant → Type 0
Mailed now x y =
    (y ≡ x)
    ⊎ ((ending_due x now ≡ true) × (y ≡ reminded x now))
    ⊎ ((expired_due x now ≡ true) × (y ≡ expired x now))

-- What one firm's turn leaves: the tables, or the firm's row replaced.
Turn : ℕ → Tenant → BillingDb → BillingDb → Type 0
Turn now tenant s u =
    (u.users ≡ s.users)
    × ((u.tenants ≡ s.tenants)
        ⊎ ((y : Tenant) × Mailed now tenant y
            × (u.tenants ≡ update (λ t. t.id === tenant.id) (λ _. y) s.tenants)))
