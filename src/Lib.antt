-- ===== src/Lib.antt =====
-- A model of PayFlowMock, a payment service in Go that takes payments over HTTP, charges them at a
-- mock provider, refunds them, and tells merchants by webhooks from a transactional outbox.
--
-- How the parts work together. The handlers decode a request and call the service. CreatePayment
-- validates the request, stores the payment as initiated, moves it to processing, asks the router
-- for a provider, charges with retries, and stores the end, success or failed, with an event in the
-- outbox in one transaction. RefundPayment checks the stored payment and stores a refund, the status
-- refunded and an event in one transaction. The worker claims events, posts them, and marks them as
-- delivered, to be tried again, or dead.
--
-- Which file models which part:
--   Prelude       lists, integers, Go strings and maps: what the source uses of the language
--   Domain        internal/domain: payments, statuses and their transitions, outbox events
--   Errors        internal/repository/errors.go and the errors of the other packages as values
--   Psp           internal/psp: adapter.go, router.go, circuit_breaker.go and the two mocks
--   Floats        float64 as an interface of operations and laws
--   Retry         internal/retry/retry.go
--   Repository    internal/repository: the tables, and each method as a function of them
--   Ledger        the calls of the repository as steps on the tables, in any order
--   Service       internal/service/payment_service.go
--   Handler       internal/handler/payment_handler.go
--   Worker        internal/worker/webhook_worker.go
--   Merchant      internal/merchant/registry.go
--   Idempotency   internal/middleware/idempotency.go
--   System        the methods of the service and the polls of the worker on one database
--   Server        cmd/server/main.go: what starts, in which order, the parts put together, and the
--                 routes, with Register of the handlers
--   Metrics       pkg/metrics/metrics.go
--   Observe       internal/middleware/logging.go and metrics.go
--   Telemetry     pkg/tracer/tracer.go, pkg/logger/logger.go and internal/cache/redis.go
-- Names are those of the source in snake case: CreatePayment of the repository is create_payment,
-- that of the service create_payment_service, that of the handlers handle_create.
--
-- State. The three tables payments, refunds and outbox_events of migrations/up are lists of rows
-- (Repository.Db), and an SQL statement is a function of them that honours primary keys, unique
-- columns and foreign keys. A transaction works on its own copy, which takes the tables' place on
-- commit. A statement may fail for reasons outside the tables: Repository.Env says which ones do,
-- whether a COMMIT, or a change outside a transaction, whose answer is lost is done all the same, what
-- the clock shows and which ids are drawn. A column keeps the whole microseconds of a time, as
-- TIMESTAMPTZ does. What concurrent requests and the worker do between two calls is an argument of
-- Service, Worker and Idempotency.Serve (`before`), of which the theorems suppose in the first two
-- that it is made of steps of Ledger. A call of the idempotency stores that fails has done nothing.
--
-- Bounds and fuel. Loops are structural recursion over lists, or over the number of rounds left,
-- which is MaxAttempts in the retry loop, as in the source; Worker.run has the number of polls as an
-- argument, since Run ends only with its context, and Idempotency.Serve takes from its world how
-- many polls fit in the wait for a response. Amounts are integers with the int64 test of the
-- source; times and durations are natural numbers of nanoseconds, with 0 for the zero time, and ids
-- are natural numbers with 0 for uuid.Nil. `decimal` has fuel above the number that it prints, which
-- has fewer digits than that. The bounds on pauses are for caps of at most 2^53 ns, 104 days, up to
-- which a float64 holds each nanosecond.
--
-- What is a parameter: uuid generation and parsing, the HTTP client, SHA-256 and HMAC, the clock, and
-- the texts of errors from other packages. gobreaker's Execute is one too: Psp.Breaker.IsBreaker has
-- what it documents, that a call is let through and its result kept, or refused with one of its two
-- errors. Psp.Chance stands for math/rand and the timer, with the ranges of the draws; Server.Boot.Host
-- for the environment, the files and the databases that main meets; Telemetry.Ratio64 for the float64
-- that ParseFloat reads; Server.Routes.Web for chi, encoding/json and uuid.Parse.
--
-- Not modelled: the JSON encoding of bodies and of webhook payloads, RawResponse of the providers, the
-- logs but the line of each request, traces, the metrics of the service and the worker, the values of
-- histograms, and in main the goroutines and the shutdown. Texts are ASCII: beyond it TrimSpace and
-- ToUpper follow Unicode tables.
pub mod Prelude
pub mod Domain
pub mod Errors
pub mod Psp
pub mod Floats
pub mod Retry
pub mod Repository
pub mod Ledger
pub mod Service
pub mod Handler
pub mod Worker
pub mod Merchant
pub mod Idempotency
pub mod System
pub mod Server
pub mod Metrics
pub mod Observe
pub mod Telemetry
