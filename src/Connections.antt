-- ===== src/Connections.antt =====
-- The connections that a process holds: the pools of api/db.py and worker/db.py, the client of
-- api/redis_client.py, and the background tasks of the API's process. What a server or a task
-- answers is an argument.
pub mod Lifespan
-- A pool or a client, and whether it has been opened or has answered a PING.
use distribu_q.Base.{String, Bool, true, false, Option, none, some, List, [], ◌∷◌}
use distribu_q.Result.{runtime_error, err, ok, Result}

pub record Connection : Type 0 where
  pub opened : Bool

-- The globals of the modules.
pub record Process : Type 0 where
  pub db_pool : Option Connection
  pub worker_db_pool : Option Connection
  pub redis_client : Option Connection
  pub tasks : List String

abbrev pub no_connections : Process
no_connections = record { db_pool = none; worker_db_pool = none; redis_client = none; tasks = [] }

abbrev pub Setup {ℓ} : Type ℓ → Type ℓ
Setup A = Process → Result A × Process

abbrev pub proceed {ℓ κ} : {A : Type ℓ} {B : Type κ} → (A → Setup B) → Result A → Setup B
proceed next (err x) p = (err x, p)
proceed next (ok a) p = next a p

infixl 5 ◌>>=◌
abbrev pub ◌>>=◌ {ℓ κ} : {A : Type ℓ} {B : Type κ} → Setup A → (A → Setup B) → Setup B
(m >>= next) p = proceed next (m p).0 (m p).1

infixl 5 ◌>>◌
abbrev pub ◌>>◌ {ℓ κ} : {A : Type ℓ} {B : Type κ} → Setup A → Setup B → Setup B
m >> next = m >>= λ _. next

-- The answer of a server to `open`, `ping` or `close`.
abbrev pub Answer : Type 0
Answer = Result (Unit {0})

-- A global is set before its connection is opened: where `open` raises it stays set.
abbrev pub open_with : Answer → Option Connection → Result Connection × Option Connection
open_with answer (some c) = (ok c, some c)
open_with (ok _) none = (ok (record { opened = true }), some (record { opened = true }))
open_with (err x) none = (err x, some (record { opened = false }))

-- A global is cleared after its connection is closed.
abbrev pub close_with : Answer → Option Connection → Answer × Option Connection
close_with answer none = (ok tt, none)
close_with (ok _) (some c) = (ok tt, none)
close_with (err x) (some c) = (err x, some c)

abbrev pub required : String → Option Connection → Result Connection
required message none = err (runtime_error message)
required message (some c) = ok c

unfoldable pub init_db_pool : Answer → Setup Connection
init_db_pool answer p =
    let (r, pool) = open_with answer p.db_pool in (r, record p { db_pool = pool })

unfoldable pub close_db_pool : Answer → Setup (Unit {0})
close_db_pool answer p =
    let (r, pool) = close_with answer p.db_pool in (r, record p { db_pool = pool })

unfoldable pub get_db_pool : Setup Connection
get_db_pool p = (required "Database connection pool is not initialized." p.db_pool, p)

unfoldable pub init_worker_db_pool : Answer → Setup Connection
init_worker_db_pool answer p =
    let (r, pool) = open_with answer p.worker_db_pool in (r, record p { worker_db_pool = pool })

unfoldable pub close_worker_db_pool : Answer → Setup (Unit {0})
close_worker_db_pool answer p =
    let (r, pool) = close_with answer p.worker_db_pool in (r, record p { worker_db_pool = pool })

unfoldable pub get_worker_db_pool : Setup Connection
get_worker_db_pool p =
    (required "Worker database connection pool is not initialized." p.worker_db_pool, p)

unfoldable pub init_redis : Answer → Setup Connection
init_redis answer p =
    let (r, client) = open_with answer p.redis_client in (r, record p { redis_client = client })

unfoldable pub close_redis : Answer → Setup (Unit {0})
close_redis answer p =
    let (r, client) = close_with answer p.redis_client in (r, record p { redis_client = client })

unfoldable pub get_redis : Setup Connection
get_redis p = (required "Redis client is not initialized." p.redis_client, p)

-- What the servers and the two tasks answer. The `await` of a task that was cancelled passes; of
-- one that had raised before, it raises the same.
pub record Answers : Type 0 where
  pub open_db : Answer
  pub ping : Answer
  pub end_subscriber : Answer
  pub end_stats : Answer
  pub aclose : Answer
  pub close_db : Answer

abbrev pub spawn : String → Setup (Unit {0})
spawn name p = (ok tt, record p { tasks = name ∷ p.tasks })

abbrev pub cancel_tasks : Setup (Unit {0})
cancel_tasks p = (ok tt, record p { tasks = [] })

abbrev pub await : Answer → Setup (Unit {0})
await answer p = (answer, p)

-- `lifespan` up to its `yield`, and from there.
unfoldable pub lifespan_start : Answers → Setup (Unit {0})
unfolding init_db_pool init_redis
lifespan_start a = do
  init_db_pool a.open_db
  init_redis a.ping
  spawn "redis-ws-subscriber"
  spawn "stats-broadcaster"

unfoldable pub lifespan_end : Answers → Setup (Unit {0})
unfolding close_redis close_db_pool
lifespan_end a = do
  cancel_tasks
  await a.end_subscriber
  await a.end_stats
  close_redis a.aclose
  close_db_pool a.close_db

-- `try: … finally: await close_worker_db_pool()`.
abbrev pub with_close : Answer → Result (Unit {0}) × Process → Result (Unit {0}) × Process
with_close answer (r, p) =
    let (closed, p') = close_worker_db_pool answer p in
    (elim closed [ err x ↦ err x | ok _ ↦ r ], p')

-- `run_worker` of worker/worker.py, around the worker's `start`.
unfoldable pub run_worker : Setup (Unit {0}) → Answer → Setup (Unit {0})
unfolding close_worker_db_pool
run_worker start close p = with_close close (start p)

-- `main` of scheduler/scheduler.py, around the scheduler's `start`.
unfoldable pub scheduler_main : Answer → Setup (Unit {0}) → Answer → Setup (Unit {0})
unfolding init_worker_db_pool close_worker_db_pool
scheduler_main open_db start close =
    init_worker_db_pool open_db >> (λ p. with_close close (start p))
