-- ===== src/Lib.antt =====
-- DistribuQ: a distributed task queue. An API (api/) accepts jobs, Postgres (db/schema.sql) keeps
-- them, Redis carries their keys, workers (worker/) run them, a scheduler (scheduler/) and a reaper
-- (worker/reaper.py) bring back what waits or was lost. The processes share Postgres and Redis and
-- nothing else.
--
-- Which file models what:
-- - Schema.antt: the three tables of db/schema.sql and the rows of api/models.py; Json.antt: JSON
--   values; Result.antt: what a Python function returns or raises; Config.antt: api/config.py.
-- - Jobs.antt, Workers.antt, DeadLetters.antt: the statements of worker/db.py and api/db.py, one
--   function for each Python function, with its name. A function takes NOW() and the keys that
--   gen_random_uuid() gives as arguments, and is one committed transaction. Jobs/Lookup.antt and
--   Jobs/Locking.antt read a table by its primary key.
-- - Written.antt: the rows that the statements leave, written out column by column, for what theorems say.
-- - History.antt: any sequence of these transactions, whichever process sends them. This is where
--   interleavings are treated: History/Steps.antt has the relation of one row before and after a
--   transaction, the files beside it the invariants.
-- - Redis.antt: the Redis commands; Redis/Client.antt: api/redis_client.py; Redis/Lists.antt,
--   Redis/Tiers.antt, Redis/Schedule.antt: queues, the three priorities, the sorted set.
-- - World.antt: what one process sees (both stores, the clock, published events, whether Redis
--   answers), and actions on it that may raise, with try, except and finally. World/Loops.antt:
--   loops over Redis commands.
-- - Events.antt: api/events.py. Handlers.antt: worker/handlers/registry.py; Handlers/Defaults.antt:
--   worker/handlers/default_handlers.py.
-- - Recurrence.antt: worker/recurrence.py. Retry.antt: worker/retry.py.
-- - Worker.antt: worker/worker.py; Worker/Guard.antt is about the lock of `process_job`,
--   Worker/Settle.antt and Worker/Outcomes.antt about its outcomes, Worker/Recur.antt about
--   recurring jobs, Worker/Lifetime.antt about `start`.
-- - Heartbeat.antt, Reaper.antt, Scheduler.antt: worker/heartbeat.py, worker/reaper.py,
--   scheduler/scheduler.py.
-- - Api.antt, Api/Listing.antt, Api/Counts.antt, Api/Dashboard.antt: the routes of api/main.py and
--   their queries. Sockets.antt: api/ws_manager.py.
-- - Connections.antt: the pools of api/db.py and worker/db.py, the client of api/redis_client.py, the
--   lifespan of api/main.py, and the ends of worker/worker.py and scheduler/scheduler.py.
-- - Lifecycle.antt: one job through worker and scheduler, try after try. Delivery.antt: all processes
--   together, as a list of calls on one Postgres and one Redis; its calls are the functions of the
--   files above, one call at a time. Delivery/Held.antt says where Redis may hold a key;
--   Delivery/Refinement.antt joins the calls to the histories of History.antt, Delivery/Final.antt is
--   about finished jobs, Delivery/Served.antt about one job from its submission to its result.
-- - Base.antt: shared names, lists and rows of tables.
--
-- How values correspond: a UUID is a number, a timestamp the microseconds since the epoch, NULL and
-- None are `none`, an exception is a value of `Exn`. A condition of a statement is the set of rows
-- at which it is TRUE. There is no fuel: every loop is a recursion on its list or text, and the
-- endless loops of the processes are modelled by their bodies, or by the list of their rounds.
-- Lifecycle.antt counts its cycles, and as many as the job has tries left are enough.
--
-- Parameters, for code outside the repository: Python's numbers and random generator (`Number`, with
-- the laws `IsNumber`), its conversions and dict keys (`Builtins`), datetime arithmetic, what timestamp() gives for a datetime of a request (`Datetime`), croniter, the
-- texts of exceptions, UUIDs and times, handlers other than the default ones, what a server answers to
-- the opening of a connection, whether a WebSocket accepts a message, and what other clients do while a worker waits in
-- BRPOP. Postgres and Redis are modelled by their documented behaviour, Postgres as always
-- answering, Redis as answering or not for the length of an action.
--
-- Not modelled: signals, event loops and logging; the dashboard, scripts, benchmarks and tests, which
-- drive the program over HTTP; the INT range of attempts; environment overrides of the settings;
-- characters other than ASCII in recurrence rules. Where Delivery.antt is about keys in Redis, it
-- takes Redis as answering and handlers as leaving Postgres and Redis alone; a call is one step: a worker that dies between its
-- reservation and its lock is a sequence without the second of them.
mod Base
pub mod Json
pub mod Result
pub mod Schema
pub mod Jobs
pub mod Workers
pub mod Written
pub mod DeadLetters
pub mod History
pub mod Config
pub mod Redis
pub mod Recurrence
pub mod Retry
pub mod World
pub mod Events
pub mod Handlers
pub mod Worker
pub mod Reaper
pub mod Scheduler
pub mod Heartbeat
pub mod Api
pub mod Sockets
pub mod Lifecycle
pub mod Delivery
pub mod Connections
