-- ===== src/Pipeline.antt =====
-- src/modules/dashboard/pipeline-status.ts and src/modules/clients/client-pipeline.service.ts: the
-- status of a client in the firm's pipeline.
pub mod Status
pub mod Service
mod Tests
