-- ===== src/Lib.antt =====
-- Verification of ArcPass, a service that gives a wallet its first gas: an API takes sponsorship
-- requests into a database, and a worker takes each request to a transfer on the chain.
--
-- The parts and the files that model them.
--
-- - packages/shared/src/sponsorship-types.ts, the statuses and their transition tables:
--   SponsorshipTypes, with the reachable statuses in SponsorshipTypes/Reach.
-- - packages/shared/prisma/schema.prisma, the tables: Store, with the reads and writes by primary
--   key in Store/Table. Identifiers are numbers, since they are only compared; a time is a number of
--   milliseconds; a string is the list of its UTF-16 code units (Prelude/Texts).
-- - apps/worker/src/lifecycle.ts, the guarded status updates: Worker/Lifecycle. Its effects are those
--   of a transaction: Worker/Tx has the state (database, readings of the clock, calls of the relay
--   executor), the errors that are thrown, and the rules for what holds at the end of a run.
-- - apps/worker/src/processor.ts: Worker/Processor. `processRequest` is `process_request`; the body of
--   its transaction is `process_body`, step by step, and `close_transaction` is the commit or the
--   rollback. Worker/Processor/Rows has the single reads and writes. Worker/Steps names the writes as
--   a relation between databases, and Worker/Processor/Traces relates a run to them; Settling, Flights
--   and Liveness beside it follow a request to its end.
-- - apps/worker/src/relay-executor.ts and contract-client.ts: Worker/RelayExecutor and
--   Worker/ContractClient. Worker/Relay is the interface between them and the processor.
-- - apps/worker/src/poller.ts: Worker/Poller, the query and the machine of timers and cycles.
-- - apps/worker/src/config.ts: Worker/Config; the checks of one variable are in Worker/Config/Variables.
--   The environment is a function, and a JavaScript number is an argument.
-- - apps/worker/src/logger.ts: Worker/Logger. An object is the list of its properties in the order of
--   `Object.entries`, each name once; `JSON.stringify` is an argument.
-- - apps/worker/src/viem-client.ts and worker.ts: Worker/ViemClient and Worker/Service. A start takes
--   the variables of the modules to those after it; viem, `new URL` and `===` on numbers are arguments.
-- - apps/api/src/lib/errors.js: Api/Errors. What a service does, with what it throws, is an action of
--   Api/Actions on the store: the database of the worker and the table of the limiter.
-- - apps/api/src/services/rate-limit.service.js: Api/RateLimits, with the hooks of server.js and
--   routes/sponsorship.js that call it (`limit_ip`, `limit_wallet`).
-- - apps/api/src/services/wallet.service.js and lib/wallet-validation.js: Api/Wallets.
-- - apps/api/src/services/sponsorship.service.js and lib/sponsorship-validation.js: Api/Sponsorship.
--   System puts its calls and the worker's runs on one database, each call as a whole.
-- - apps/api/src/services/relay.service.js: Api/Relays.
-- - apps/api/src/plugins/replay-protection.js and error-handler.js: Api/Replay and Api/Responses.
-- - apps/web/src/lib/api-client.ts: Web/ApiClient. apps/web/src/components/features/request-form.tsx:
--   Web/RequestForm, the form's state with the intervals that run in the browser, event by event.
-- - apps/api/src/routes/sponsorship.js and server.js, a POST of /sponsorship/request with its hooks in
--   the order of their registration, and plugins/content-type-check.js: Api/Routes. Its child Requests
--   has the ways in which the request may end (Requests/Answers) and how each step leads there. A hook
--   that replies is taken to end the request; the hooks do not return the reply, as Fastify asks.
-- - apps/web/src/app/api/backend/[...path]/route.ts, the proxy before the API: Web/Proxy.
--
-- What stands outside. The database's lock on a row, whether a transaction commits, the identifier of
-- a new row, the order of rows, the clock, and what viem and the timers answer are arguments of the
-- definitions. A failing commit and a timeout of the transaction are one: both undo the writes. Text
-- of the worker's messages that nothing reads (of thrown errors, of skipped requests) is a constructor
-- for each message. `maxRetries` and the other limits are natural numbers here; a fractional setting
-- acts as the next larger number. The database refuses a sponsorship request whose `ipAddress` has more
-- than 45 characters or whose `userAgent` has more than 1024; a header has one character for each code
-- unit. The other texts are taken to fit their columns, the identifiers of the limits among them.
-- Every loop of the program runs over a list. Fuel is in one place, the client that takes page after
-- page of a history: one call for each row, and one more, are enough.
--
-- Not modelled: the calls that write log lines, the signal handlers (apps/worker/src/main.ts), the
-- database client (packages/shared/src/db.ts), the other routes, the configuration
-- and the remaining plugins of the API (apps/api), the other pages of apps/web, the contracts in
-- Solidity, and the generated ABIs.
pub mod Api
pub mod Prelude
pub mod SponsorshipTypes
pub mod Store
pub mod System
pub mod Tests
pub mod Web
pub mod Worker
