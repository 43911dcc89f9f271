-- ===== src/Lib.antt =====
-- Embeddable widgets that capture leads: a multi-tenant backend. A customer (tenant) configures
-- widgets; a widget's script, embedded in any page, fetches its configuration and posts
-- submissions; each stored submission queues side effects, which a worker delivers.
--
-- The parts, and the files that model them:
-- - app/config.py: Config. The record `Settings`; every definition that reads a setting takes it.
-- - app/models.py: Models. A record for each table, and `Tables`, the five lists of rows.
-- - app/db.py: Session. `Session` keeps what other sessions see, what the transaction sees and what
--   is pending; an `Action` is a call that changes a session and returns or raises. The answer of
--   the database to a write is an `Engine`, a parameter, so that every theorem covers every refusal.
-- - app/errors.py: Errors. `AppError`, which the handlers turn into an answer, and the exceptions
--   that nothing catches.
-- - app/ratelimit.py: Ratelimit (`SubmissionRateLimiter`, the two buckets) and Ratelimit/Window
--   (`SlidingWindowLimiter`: `prune`, `decide`, `check`, `reset`). Ratelimit/Window/Reference is an
--   independent description, a log that is never pruned.
-- - app/spam.py: Spam.
-- - app/enrichment/providers.py and chain.py: Enrichment.
-- - app/schemas.py: Schemas, the payloads and the validators that they declare.
-- - app/services/submission_service.py: Submissions/Validate and Submissions/Create.
-- - app/outbox/handlers.py and worker.py: Outbox/Handlers, Outbox/Worker and Outbox/Worker/Loop.
--   Outbox/Worker/Rounds has what a batch makes of each event, Outbox/Worker/Batches a sequence
--   of batches.
--   History puts the submissions and the worker's batches together, in any order.
--   History/Delivered follows one lead from its submission to the webhook.
-- - app/services/widget_service.py: Widgets, and Widgets/Serving for what the public sees.
--   app/routers/widgets.py: Widgets/Routes.
-- - app/services/dashboard_service.py and app/routers/dashboard.py: Dashboard.
-- - app/security.py, app/routers/auth.py and `current_tenant` of app/deps.py: Auth.
-- - app/main.py: App, the middleware that limits a request's body; with app/routers/health.py,
--   App/Process, the life of the process and the answers about it.
-- - app/routers/public.py, and `client_ip` of app/deps.py: Public and Public/Submit.
-- - migrations/versions/0001_initial_schema.py: Migrations, the declarations as data;
--   Migrations/Running, its bodies on a database; Migrations/Rows and
--   Migrations/Constraints, what the declarations require of rows. Integrity has the constraints on
--   all tables and on each write.
-- - Invariant is about the whole application: what an invariant of the tables asks of the writes, and
--   the operations one by one. Invariant/Reachable is the database over time: every request
--   that writes, the worker and the seed script, in any order, from the tables that the migration
--   makes. Integrity/Reachable says that the
--   constraints that the engine enforces hold of them, Integrity/Owners what no constraint
--   says, and Integrity/Summary what the dashboard shows by both.
-- - scripts/seed.py: Seed.
-- Python has what is used of Python's texts (`str` of a number, `float`, `int`), and Prelude the
-- operations on lists, texts and dicts.
--
-- How they interact: `Public.Submit.submit` identifies the widget (Widgets), asks the limiter
-- (Ratelimit), classifies (Spam) and calls `Submissions.Create.create_submission`, which validates,
-- looks up the idempotency key, waits for Enrichment and writes the row with its outbox events.
-- `Outbox.Worker.process_due_events` claims due events, runs the handlers and writes the outcome.
--
-- Numbers: all are natural numbers; UUIDs and dates are numbers, since they are only compared, and a
-- float of seconds is a whole number of microseconds or of clock ticks, so that rounding of floats is
-- not modelled. `show` prints a number with fuel one above the number, and each digit divides it by
-- ten, so the fuel is never used up; nothing else uses fuel.
--
-- Parameters, for code that is not here: the `Engine` (PostgreSQL's refusals), `Network` (the HTTP
-- client of the providers and `ipaddress`), `Outbound` (the SMTP and HTTP clients of the
-- handlers), `Claiming` (ORDER BY and SKIP LOCKED), `Sorting` (the dashboard's ORDER BY), `Crypto`
-- (bcrypt, PyJWT and the Unicode table of `str.lower`), the clock and the fresh UUIDs. The named
-- hypotheses on them are `Performs`, that a migration's operations do what is documented,
-- `Enforces`, that a write which breaks a declared constraint is refused, and `EnforcesKeys`, the
-- part of it that is the unique constraint of submissions; `OnlyOrders` and `OnlySorts`, that
-- ORDER BY returns the selected rows, `IsNewestFirst`, that it sorts by the time, where the order of
-- equal times may differ from page to page; `IsAlone` and `TakesOutcomes`, that no other worker holds
-- a lock and that an outcome is not refused; and `Honest`, what the libraries of `Crypto` promise.
--
-- Interleaving: the routes that use the database run in one transaction. The one wait inside a
-- request, for the providers, is a step in which others may commit anything (`others`), and the
-- session sees what they committed, as READ COMMITTED gives. A check of the limiter holds its lock,
-- and is one step. What follows the last commit of a request, `db.refresh`, is not modelled, so a deletion
-- between the two is not either; and the selects of one summary see the same rows.
--
-- `ON DELETE CASCADE` is written out in `Session.apply`, for the deletion of a widget, the only one of
-- the program.
--
-- Dates are not bounded: a `timedelta` or a `datetime` out of Python's range, which raises
-- OverflowError, is not modelled. A worker's delays leave that range only for a base and a number of
-- attempts far from the defaults (2 and 5: at most 16 seconds); the theorems on sequences of batches
-- ask that the times of all retries are in it (`InRange`, `last_time`).
--
-- Constraints: a text column counts code points, an integer has 32 bits, and null agrees with
-- nothing in a unique key. A row of a table is a dict of cells; the content of a JSONB column is
-- left open.
--
-- Not modelled: logging, the registration of routers and CORS, pydantic's reading of JSON, and
-- migrations/env.py. The dashboard's success rate is the fraction that the source divides and
-- rounds.
pub mod Prelude
pub mod Config
pub mod Errors
pub mod Python
pub mod Models
pub mod Session
pub mod Ratelimit
pub mod Spam
pub mod Enrichment
pub mod Schemas
pub mod Submissions
pub mod Outbox
pub mod History
pub mod Widgets
pub mod Public
pub mod Dashboard
pub mod Auth
pub mod Migrations
pub mod Seed
pub mod Invariant
pub mod Integrity
pub mod App
pub mod Tests
