-- ===== src/Lib.antt =====
-- A model of the backend of My Tax Diary, a NestJS service for accounting firms, and proofs about
-- it. Paths are those of the repository.
--
-- A request carries a JWT, which src/modules/auth/strategies/jwt.strategy.ts turns into a request
-- user and the guards of src/common/guards and src/modules/auth/guards admit or refuse.
-- Sessions, resets and MFA are the work of src/modules/auth/auth.service.ts. A firm's access hangs
-- on its billing status, which the trial mails (a daily run) and the Stripe events write. A
-- client of a firm has a status in a pipeline, which agents and the system move on, with a row of
-- history for each move. The team service of a firm invites staff, changes its rights and removes
-- it. Each night a job deletes the tokens that no longer work. The platform's administrators
-- deactivate firms, sign users out and answer enquiries, with a row of the audit log for each change.
--
-- Files:
--   Common, Common/*: tests, lists, tables (`find`, `update`, …), keys, and handlers.
--   Users, Users/Permissions: src/modules/users/entities/user.entity.ts and permissions.ts.
--   Tenants, Clients: the rows of firms and clients, with the columns that the model uses.
--   Auth/Jwt: jwt.strategy.ts (`validate`).
--   Auth/Guards: permissions.guard.ts, tenant.guard.ts, jwt-auth.guard.ts.
--   Auth/Database, Auth/Tokens, Auth/Password, Auth/Login: auth.service.ts. `refresh_tokens` is
--     `refreshTokens`, `issue_tokens` is `issueTokens`, `forgot_password` is `forgotPassword`, and
--     so on; `rotate` and `finish_login` are the second halves of `refreshTokens` and `login`.
--   Auth/Session, Auth/Register: the profile, `restoreSession`, `setupMfa` and `register`, with
--     `create` of src/modules/tenants/tenants.service.ts.
--   Admin/Details, Admin/Firms, Admin/Enquiries, Admin/Listing: src/modules/admin/admin.service.ts
--     (`recordAudit` is `record_audit`). Enquiries: src/modules/enquiries/enquiries.service.ts.
--   Auth/Cleanup: token-cleanup.service.ts.
--   Users/Accounts: the reads and writes of users.service.ts that others make.
--   Team, Team/Invitations, Team/Members: src/modules/team/team.service.ts.
--   Billing/Access, Billing/Paths, Billing/Pricing: billing-access.util.ts,
--     billing-access-paths.util.ts, pricing.util.ts of src/modules/billing.
--   Billing/Firms: the mails to a firm's owner, of billing.service.ts.
--   Billing/Lock: email-domain.util.ts and the trial of billing.service.ts
--     (`startTrialForNewTenant` is `start_trial_for_new_tenant`).
--   Billing/Trials: billing-mail-window.util.ts and billing-mail.scheduler.ts.
--   Billing/Stripe: the webhook and its handlers, of billing-stripe.service.ts.
--   Pipeline/Status: src/modules/dashboard/pipeline-status.ts.
--   Pipeline/Service: src/modules/clients/client-pipeline.service.ts.
--   Chase/Calendar, Chase/Quarters: the quarters of src/modules/chase/chase-template-vars.util.ts,
--     on days that are counted from the year 0.
--   Chase/Templates: src/modules/chase-templates/chase-templates.service.ts.
--   Chase/Logs: src/modules/chase-logs/chase-logs.service.ts.
--   Chase/Scheduler: `processTenant` and `pickTemplate` of
--     src/modules/chase/chase-scheduler.service.ts.
--   Clients/Scope, Clients/Records, Clients/Customers, Clients/Agents, Clients/Invitations,
--     Clients/Listing: src/modules/clients/clients.service.ts (`findAll` is `find_all_clients`) and
--     staff-client-scope.util.ts. Clients/Import: `bulkImport` and bulk-import.util.ts.
--   Hmrc/Connections: src/modules/hmrc/hmrc.service.ts.
--   Hmrc/Retry: src/modules/hmrc/hmrc-retry.util.ts.
--   Portal, Portal/Accounts, Portal/Messages, Portal/Files:
--     src/modules/client-portal/portal.service.ts.
--   Tests.antt of each part: concrete runs.
--
-- Conventions. A handler is a function from the tables to a result and the tables after it. A throw
-- does not undo what was written before it, as in the source, which opens no transaction but in the bulk
-- import.
-- Handlers run one after the other. Times are milliseconds since the epoch, amounts are pence, and
-- texts are compared exactly. Hashing, signing, TOTP, mail, Stripe's API and JavaScript's
-- `toLowerCase` are parameters, as are the ids and the raw tokens drawn at random. Where a theorem
-- needs the stored hashes or ids to differ, it says so.
--
-- The loop over price bands in `calcMonthlyFee` runs on fuel: one more than the number of clients,
-- since each turn passes one client at least. The retry loop runs on one more than the repetitions
-- allowed, since each turn uses one up.
--
-- Not modelled: the overview, the list of firms and the purge of a firm of the administrators,
-- controllers, validation of input, configuration, migrations, mail templates, the
-- calls of HMRC in the client portal, the list of the rows to chase, the texts of the
-- chase mails, the calls of HMRC that read or write figures and business details, and the checkout
-- and portal sessions of Stripe.
pub mod Common
pub mod Users
pub mod Tenants
pub mod Clients
pub mod Admin
pub mod Enquiries
pub mod Billing
pub mod Auth
pub mod Pipeline
pub mod Team
pub mod Chase
pub mod Hmrc
pub mod Portal
