-- ===== src/Lib.antt =====
-- The server of the print gateway: a queue of print jobs between the systems that submit them and
-- the agents that print them.
--
-- The parts, and the files that model them:
-- - Job: the table `print_jobs` and all that writes it. Status is lib/job-status.ts; Row has the
--   columns of db/schema.ts that are read, SQL statements as a row test with a row update, and the
--   predicates of lib/job-fencing.ts (fencedJobWrite, fencedDeliveryWrite). Delivery is
--   lib/job-delivery.ts (claimJobForDelivery, markJobDelivered, recordJobAck,
--   releaseUndeliveredClaim). Sweep is sweepPrintJobs of lib/job-maintenance.ts. Poll and Report are
--   GET and PATCH of app/api/agent/jobs/route.ts. KeepAlive is the lease refresh of POST in
--   app/api/agent/heartbeat/route.ts. Insert is the row that a new job gets.
-- - Job/History has every write that these handlers issue, on one row, with the tests under which it
--   reaches the row. Refinement, Handlers and Claims prove that the handlers do nothing else to a row;
--   Invariant, HandOffs and Terminal prove of all histories what then holds of all rows; System puts
--   the handlers together. Fencing, SweepLaws, Ceiling and LateReports are about single handlers.
-- - Submit: createPrintJobForPrinter of lib/print-job-service.ts, which checks the printer and its
--   agent (Printer) and the payload (Payload, validatePrintJobPayload of lib/payload.ts), admits the job
--   (Admission: insertQueuedJobAtomically with lib/entitlements.ts) and pushes it (Socket).
-- - Payload/TestPage and Payload/TestDocument: buildTestPrintPayloadForPrinter and buildTestPdfPayload of
--   lib/payload.ts; Submit/TestPages sets the test page against the routing table.
-- - Socket: the sockets, limiter and push (claimAndPushJobToAgent) of server/ws.ts, which calls
--   Job/Delivery.
-- - AuthLimit: lib/auth-rate-limit.ts. UpgradeLimit: lib/ws-rate-limit.ts, on the same table.
-- - Agents: lib/lifecycle.ts, lib/agent-lifecycle.ts and lib/agent-auth.ts; Agents/Register is POST of
--   app/api/agent/register/route.ts, which asks AuthLimit.
-- - Managers: the sessions of lib/manager-auth.ts (verify, validateManager, createManagerSession,
--   revokeManagerSession). Guard: server/request-guard.ts.
-- - Printer: lib/agent-availability.ts, lib/routing.ts and lib/printer-virtual.ts.
-- - Inventory: the printers that POST of app/api/agent/heartbeat/route.ts takes: its tests of a reported
--   printer, the row that it keeps of it (Record) and the handler (Heartbeat). Json has the values of a
--   body and JavaScript's operations on them, Prelude/Decimal its printed numbers.
-- - Console: the manager's side. Roles is lib/authorization.ts; Listing and Cleanup are GET and DELETE of
--   app/api/jobs/route.ts with getDashboardJobs; Actions is app/actions.ts (createAgent, deleteAgent,
--   setPrinterLifecycle, setAgentLifecycle, reprintJob), which calls Agents, Admission and Submit;
--   TestPrints is createPrintJob and createTestPrintJob of the same file.
-- - Keys: lib/odoo-auth.ts with the routes below app/api/odoo/keys; Keys/Jobs is app/api/print/jobs/route.ts
--   and its batch-status route, which call Submit.
-- - Vocabulary: shared/job-vocabulary.ts, and desktop/lib/printers.ts in Vocabulary/Desktop: what the clients
--   say of what Job/Status and Printer derive.
-- All paths are below src/ of the repository.
--
-- How the code is read:
-- - A table is a list of rows. A handler takes the tables and the clocks it reads and gives the new
--   tables and its answer. `Clock` holds the database's `now()` and the server's `Date.now()`; times
--   are milliseconds. A handler that reads in one statement and writes in another takes two tables,
--   so that any other writer may come between (Report, Socket); the sweep has a clock per statement.
-- - A claim, a poll and an admission hold advisory locks and row locks, so each is one step; the rows
--   that other transactions hold are a parameter (`lockable`). The two updates of one release, and the
--   five of one sweep, run after one another on the table.
-- - A poll is one step although its statement tests the candidates on its snapshot: a row that a statement
--   outside the agent's lock, such as the sweep, changes before the poll locks it is not modelled.
-- - A query with a limit that is negative or not a number has no LIMIT clause, as the query builder writes
--   one for a number that is at least 0 only.
-- - Tokens, digests and the test for an address are parameters: `gen_random_uuid()` (`mint`, `token`),
--   SHA-256 (`hash`), `isIP` (`is_ip`), base64 (`decode`, `encode`), JSON (`json`), the HMAC
--   and the encodings of a session token (`Codec`). Bodies have the
--   types of their schemas: the schema library tests those, the modelled code the rest.
-- - Texts are lists of UTF-16 code units. Lower case folds the ASCII letters and the Kelvin
--   sign, upper case the ASCII letters and the long s.
-- - A token of the message limiter is counted in thousandths, which makes its refill exact.
-- - A number of a JSON body is held by the text that JavaScript prints for it.
-- - A printer that another request inserts between the look-up and the insert of a heartbeat, or a code
--   that another agent holds, is a parameter or a row of the table, so that the second try is modelled.
-- - Every loop is a recursion on a list, but the digits of a printed number: as many rounds as the
--   number, and one more, are given, since each round takes a digit off.
--
-- Left out: the `encoding` field of a payload, which is always "base64"; rows of equal age come in
-- table order; the upgrade handler and the NOTIFY listener of server/ws.ts, the passwords and the
-- hosts of lib/manager-auth.ts, getDashboardState of app/actions.ts, the management routes of
-- printers and agents, network discovery, request limits, proxy trust and CORS; logging, metrics
-- but for the sweep's counts, the audit trail, the connection to the database, request parsing by
-- third-party code, the dashboard, the desktop client but for its helpers, the agent (Go) and the
-- Odoo add-on (Python).
pub mod Prelude
pub mod Payload
pub mod Job
pub mod Printer
pub mod Socket
pub mod AuthLimit
pub mod Agents
pub mod Guard
pub mod Admission
pub mod Submit
pub mod Managers
pub mod UpgradeLimit
pub mod Json
pub mod Inventory
pub mod Console
pub mod Vocabulary
pub mod Keys
