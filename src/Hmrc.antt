-- ===== src/Hmrc.antt =====
-- src/modules/hmrc: how calls of HMRC's API are repeated.
pub mod Retry
pub mod Connections
mod Tests
