-- ===== src/Lib.antt =====
-- PingGuard: a FastAPI service stores monitors in PostgreSQL, Celery Beat sweeps them for due work,
-- Celery workers probe the targets over HTTP and write the results back.
--
-- The files follow the program's parts:
--   Prelude           shared names, list and text helpers
--   Enums             app/enums.py
--   Status            app/status.py
--   Models            app/models.py, the rows that a session reads and writes, and in Models.Columns the
--                     columns that an UPDATE of the session writes
--   Tasks.Sweep       `sweep_due_monitors` of app/tasks.py
--   Tasks.Probe       `_run_probe_task`, `execute_ping`, `execute_keep_alive` of app/tasks.py, and
--                     `get_sync_db` of app/db.py in Tasks.Probe.Session
--   Tasks.Engine      the health check over the probe engine of Net.Probe
--   Tasks.Prune       `prune_ping_results` of app/tasks.py
--   Ssrf              app/ssrf.py
--   Urls              app/urls.py
--   Net.Resolve       `resolve_and_validate_target` and its asynchronous twin of app/net.py
--   Net.Probe         `perform_http_probe`, `robust_ping`, `robust_keep_alive` of app/net.py, with
--                     what they see of httpx in Net.Http
--   Schemas           the validators and request contracts of app/schemas.py
--   Api               the handlers under /monitors of app/main.py; in Api.Overlap those that write, with
--                     other commits between their read and their own. `create_monitor`, `update_monitor`
--                     and `delete_monitor` of Api are what these come to where no other commit does come
--                     between (Api.Overlap.Serial), and serve as lemmas' vocabulary only
--   Ratelimit         app/ratelimit.py and app/security.py, and the order of a route's dependencies
--   Config            the validators of app/config.py, with the CORS origins in Config.Origins, and the
--                     URLs of the two engines in Config.Drivers
--   Logging           app/logging_config.py, with json.dumps in Logging.Json and a reader of its own in
--                     Logging.Reader
--   Migrations        the revisions under alembic/versions, and the tables of app/models.py
--   Service           the request ID's middleware, the startup and the health and readiness checks of
--                     app/main.py
--   Routes            the routes of app/main.py, and the response contracts of app/schemas.py
--   Server            the HTTP interface: the routes' dependencies, validation and handlers, over the
--                     handlers that overlap; in Server.Throttle with the limiter over Redis
--   Worker            app/worker.py, and the scheduled tasks with validated settings; in Worker.Cycle the
--                     messages of a sweep are worked off by their tasks
--   System            the handlers and the tasks' transactions on one database, in any order; in
--                     System.Overlap the handlers overlap, within the connections of the API's pool, and
--                     in System.Overlap.Single that pool has one
-- A child module named for what it proves holds the theorems; the modules Examples and Runs hold
-- tests and the theorems at concrete inputs.
--
-- Correspondence. A table is the list of its rows. A session's body yields what it wrote, or an
-- exception; `get_sync_db` commits the one and rolls back the other. What other transactions commit
-- meanwhile, the locks that SKIP LOCKED passes over, the broker's answers, the prober and the clock
-- are arguments, so each theorem holds for every behaviour of theirs that its hypotheses allow.
-- Rows with equal sort keys keep the order of the table; PostgreSQL may return them in any order.
-- Timestamps count microseconds; latencies count hundredths of a millisecond. `subtraction` of the
-- retention period stops at the epoch, where Python's would go on to year 1.
-- `urllib.parse`, `ipaddress.ip_address` and `str.lower` enter as the record UrlLibrary; httpx, the name
-- server and the clock as the record World, whose answers may change from hop to hop. The flags of an
-- address are those of Python 3.12.
-- System runs a list of transactions. A sweep's claims and a pruning run's batches are transactions
-- of their own, so others may come between; the state that a probe task reads is any earlier one.
-- There, no handler of the API is overlapped: each reads the database that it commits to.
-- System.Overlap drops that: a handler begins, which is its first SELECT, without a lock, and
-- finishes later, which is its commit, and others' commits come between. An UPDATE, of a handler or
-- of a task, writes the columns whose value is not the one that was loaded. A commit itself is
-- atomic, as row locks make those that write a common row, and the handler's refresh is part of it.
-- Server adds what runs before a handler: a call of the limiter has no other between its read and
-- its write, as the pipeline of Redis and the event loop make it. The number of connections is an
-- argument; `pool_connections` is that of one process.
-- The redirect loop takes `max_redirects` + 1 units of fuel, and they are enough.
-- The sweep's loop runs at most `max_batches` rounds, so it needs no fuel. Pruning takes fuel, and one
-- unit more than there are expired rows is enough.
--
-- Not modelled: SQLAlchemy, Celery, Redis and httpx themselves, where the program logs and what, the
-- other settings of engines and pools, alembic/env.py, which wires Alembic to the engine, the parsing of
-- requests by pydantic, FastAPI's own answers to requests that it cannot read, and a wait for a
-- connection that times out other than as a response 500.
pub mod Prelude
pub mod Enums
pub mod Status
pub mod Logging
pub mod Models
pub mod Tasks
pub mod Ssrf
pub mod Net
pub mod Urls
pub mod Schemas
pub mod Api
pub mod Ratelimit
pub mod Config
pub mod Routes
pub mod Server
pub mod Service
pub mod Migrations
pub mod System
pub mod Worker
