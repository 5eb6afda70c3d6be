-- ===== src/Lib.antt =====
-- The core of the marketing backend: sign-in and sessions, who may see and change a client, the plan board,
-- the queue of intelligence builds, the approval of changes that the assistant proposes, and the services
-- around them: rate limits, uploads, support tickets, notifications, KPI alerts, the connections to providers,
-- daily report e-mails and the guarded fetch of pages.
--
-- How the parts interact. Services share one SQLAlchemy session; its tables are the record `Db` of
-- Model/Tables (app/models), rows in insertion order. A call that writes takes the tables and
-- returns them with its result, or an exception of Errors (app/core/exceptions.py). `Env` is what a
-- call takes from outside: the clock, the UUID of a new row, the setting that enables the build
-- pipeline, the database's verdict at a flush (`violates`), and `str.isspace`. Ids, dates and times
-- of day are numbers, texts are code points. The functions named `apply_*` are the source's
-- `_apply_*`: they flush but do not commit.
--
-- - Access.antt: app/services/client_service.py and app/services/assignment_service.py. `get_client`,
--   `effective_capabilities`, `require_capability`, the three assignment writes, and
--   `apply_update_client`, which also enqueues a build. Access/Capability, Assignment, Update: proofs.
-- - Plan.antt: app/services/plan_service.py, with the request and audit columns of
--   app/schemas/plan.py in Plan/Columns and the filter of app/repositories/plan_repository.py in
--   Plan/Board. Plan/Ranges, Window, Writes: proofs, `Write` being one successful call of the board.
-- - JobQueue.antt: app/services/intelligence/job_queue.py. `claim_next` takes what other workers commit
--   while it waits for the advisory lock as a function, `IsHonest` of JobQueue/Claim being what the lock
--   and their own claims leave of it. JobQueue/Choice, Coalesce, Steps: the choice, the coalescing, and all
--   sequences of calls.
-- - Audit.antt: the diffs of app/services/audit_service.py; Audit/Laws: proofs.
-- - Accounts.antt: the writes of app/services/user_service.py and
--   app/services/onboarding_service.py that a proposal may execute.
-- - Proposal.antt: app/services/proposal_service.py and app/repositories/proposal_repository.py.
--   `approve` claims a proposal and commits, checks it, and replays its operations (Proposal/Execute)
--   in one transaction, `execute_all`; a call returns what is committed. Proposal/Stage has the
--   `stage_*` calls that check a request by a dry run. Proposal/Checks, Guards, Approve, Once, Failure,
--   Trail: proofs.
-- - RateLimit.antt: app/core/rate_limit.py. `allow` and `forget` are those of the memory store, its nested
--   dicts being a list of buckets; `redis_admit` is the script of the shared store on one sorted set.
--   Times are microseconds of the store's own clock. RateLimit/Rows, Window, Shared: proofs.
-- - Auth.antt: app/services/auth_service.py, app/core/security.py, app/repositories/session_repository.py
--   and `get_current_user` of app/api/deps.py. `AuthState` holds the users, the sessions and the limiter
--   that `login` shares with RateLimit. PyJWT, bcrypt and hashlib are the record `Libraries` of
--   Auth/Packages, with the documented behaviour that is used. Auth/Current, Login, Revocation: proofs.
-- - Uploads.antt: app/services/upload_service.py, app/utils/download_link.py, the allow-list of
--   app/core/config/storage.py and the redirect of app/api/v1/routers/uploads.py. The object storage,
--   HMAC and the string methods are the records of Uploads/Packages. Uploads/Names, Links, Objects: proofs.
-- - Tickets.antt: app/services/support_ticket_service.py and its repository; attachments are checked by
--   `load_owned` of Uploads. Tickets/Access, Status: proofs.
-- - Notifications.antt: app/services/notification_service.py and app/services/notification_email_service.py;
--   whether the mail provider accepts a digest is a function of its recipient. Notifications/Unread,
--   Digest: proofs.
-- - Chunking.antt: app/services/intelligence/chunking_service.py. Chunking/Total: proof.
-- - Alerts.antt: app/services/alert_service.py and its repository; `float` is the record `Floats`.
--   `evaluated` is the table that `evaluate` commits. Alerts/Table, Findings, Reconcile,
--   Again: proofs.
-- - Web.antt: the fetch of a page by app/utils/web.py, a connection being a `Request` in the `Trace`.
--   urllib, ipaddress, the resolver and httpx are the record `Network` of Web/Packages, whose answers may
--   differ at every lookup. Web/Guard, Candidates: proofs.
-- - Analytics.antt: `bulk_upsert` of app/repositories/analytics_repository.py, which the connections
--   call to store daily facts. Analytics/Cells: proof.
-- - Integrations.antt: app/services/integration_service.py, with the signed state in
--   Integrations/OauthState, the choice of an account in Integrations/Binding, the renewal of tokens in
--   Integrations/Tokens, and the calls of providers in Integrations/Sync. The provider clients and the
--   token cipher are the record `Providers`, any of whose calls may raise. Integrations/Outcome,
--   Completion: proofs.
-- - Reports.antt: app/services/report_email/service.py and timing.py, and what
--   `send_daily_reports_sweep` of app/services/scheduler_service.py does for one client. The answers of the
--   mail provider, which may accept a mail and answer with an error, failing commits and what other
--   processes insert are in the record `Surroundings` of a call. Reports/Delivery, Stays, Sweep,
--   Recipients: proofs.
-- - Examples: the data at which the theorems are applied.
--
-- Bounds and fuel: a claim makes at most `max_claim_attempts` rounds, the source's own bound, so no fuel
-- is added. The loop of `chunk` takes one unit of fuel for each character and one more, which
-- Chunking/Total shows to be enough. A fetch follows at most `max_redirects` redirects and a report is
-- tried three times, the source's own bounds. All other loops run over a list.
--
-- Not modelled: routers, response schemas, storage and the clients of third parties; the assistant that
-- stages operations; the JSON text of a stored payload, which is the request itself here; what is read out of a fetched page or written into a report; the agency connection of
-- GHL; the breakdowns that follow a sync; the calendar, compliance, campaigns and budgets;
-- floating-point dashboards; the order and paging of lists; columns that no modelled call reads. A payload
-- that a `stage_*` call does not store raises.
pub mod Base
pub mod Errors
pub mod Model
pub mod Audit
pub mod JobQueue
pub mod Access
pub mod Plan
pub mod Accounts
pub mod Proposal
pub mod RateLimit
pub mod Auth
pub mod Uploads
pub mod Tickets
pub mod Notifications
pub mod Chunking
pub mod Alerts
pub mod Web
pub mod Analytics
pub mod Integrations
pub mod Reports
pub mod Examples
