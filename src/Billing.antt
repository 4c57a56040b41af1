-- ===== src/Billing.antt =====
-- src/modules/billing: access, exempt paths, the price, trials and their mails, Stripe events.
pub mod Access
pub mod Paths
pub mod Pricing
pub mod Firms
pub mod Lock
pub mod Trials
pub mod Stripe
mod Tests
