-- ===== src/Chase.antt =====
-- src/modules/chase: which quarter of which client is chased, and by which template.
pub mod Calendar
pub mod Quarters
pub mod Templates
pub mod Logs
pub mod Scheduler
mod Tests
