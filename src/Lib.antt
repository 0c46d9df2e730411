-- ===== src/Lib.antt =====
-- nestjs-ddd: a NestJS service template. This library models the logic that the template adds to the
-- framework, one module for each part of the program.
--
-- The parts and how they interact:
--   Shared        src/shared (result.ts, helpers.ts, problem.ts, correlation.ts, trace-context.util.ts):
--                 results (Outcome), guards on unknown values (Values), correlation ids (Correlation)
--                 and the trace header (Trace), which the other parts use.
--   Http          src/infrastructure/http: the circuit breaker (Breaker: class CircuitBreaker), the retry
--                 policy (Retry: retryDelayMs, parseRetryAfter) and the client that uses both (Client:
--                 FetchHttpClient.request, with one `turn` for each round of its loop).
--   Idempotency   src/infrastructure/database/idempotency, src/application/ports and
--                 src/interface/http/interceptors: the store that an idempotent handler claims its key in (Memory:
--                 InMemoryIdempotencyStore; Oracle: OracleIdempotencyStore; Port: the interface), and
--                 the interceptor that runs the handler (Interceptor: IdempotencyInterceptor).
--   Database      src/infrastructure/database: the limiter (Semaphore), the Oracle client with its context
--                 user, its errors and its queries (Oracle: OracleClient, mapOracleError), the pools of all the
--                 sources and the transactions that joined calls share (Pools: PoolManager,
--                 DatabaseUnitOfWork).
--   Cluster       src/infrastructure/cluster: the checks before the fork (Boot), the cap on respawns
--                 (Respawn) and the primary process (Primary: the closures of startPrimary).
--   Scheduler     src/interface/scheduler: one job (JobRunner) and the registration of all (JobScheduler),
--                 which only the worker that Cluster marks as the leader does.
--   Errors        src/interface/http: from a thrown value to an answer (Presenter: ErrorPresenter.present;
--                 Filter: GlobalExceptionFilter.catch), from what a handler returns to an answer
--                 (Formatter: ResponseFormatterInterceptor.intercept), the line of the project that an
--                 error comes from (Origin: resolveErrorOrigin of src/common/utils), and the errors of
--                 src/application/errors and src/interface/http/errors (Raised).
--   Requests      src/interface/http: the middleware that opens the context of a request (Context),
--                 the guards (Guards), the headers of deprecated routes (Deprecation), the
--                 validation of the input (Validation), and a request through all that
--                 interface.module.ts registers, in its order: guards, deprecation headers,
--                 validation, formatter, idempotency and exception filter (Pipeline).
--   Events        src/application/events and src/domain/base: the events that an aggregate records and
--                 their publication.
--   Config        src/infrastructure/config: the reading of the environment (Env), the schema of the
--                 database sources (Fields, Database), the sections of load-config.ts that other
--                 parts read (Sections), and src/infrastructure/tls, which reads one of them (Tls).
--   Lifecycle     src/infrastructure/lifecycle: the shutdown of a worker (runGracefulShutdown).
--   Legacy        src/infrastructure/legacy: the paths, the headers and the answers of the forwarder.
--   Prelude       Boolean tests, lists and maps that the parts share.
--
-- How code becomes definitions: a class is a record of its fields, and a method is a function of that
-- record with what it returns; closures over shared variables share a record in the same way. What an
-- awaited call does (the driver, `fetch`, the clock, the cron library, `node:cluster`) is an argument,
-- one for each call. Log lines, metrics and calls on other objects are events in a list, in order.
-- Where calls interleave at an await, the code is cut there and the order is a relation on states:
-- Database.Semaphore, Cluster.Primary.Steps. Errors are values of `Result`.
--
-- Numbers are natural numbers: milliseconds, counts and statuses; where the source subtracts, the
-- comment at the definition says why nothing goes below zero. `Http.Client.Loop.rounds` takes fuel, one
-- unit for each round, and is started with as many as the loop can use, so that it never runs out; the
-- digits of an error number take as many units as the number itself. Every other loop is structural.
--
-- Not modelled: the modules, tokens and decorators of the framework, the other configuration schemas,
-- and the logging and metrics adapters, which are declarations or calls of libraries; the texts of
-- the dates in deprecation headers; and the hash that makes the fingerprint of a request, which is part
-- of the request here.
pub mod Prelude
pub mod Shared
pub mod Cluster
pub mod Database
pub mod Errors
pub mod Http
pub mod Idempotency
pub mod Legacy
pub mod Requests
pub mod Events
pub mod Config
pub mod Lifecycle
pub mod Scheduler
