-- ===== src/Workers.antt =====
-- The statements on the workers table: worker/db.py and api/db.py.
use distribu_q.Base.{
  ℕ, ◌+◌, Bool, ◌&&◌, String, none, some, List, [], ◌∷◌, ◌++◌, map, str_eq, ltb, update_where,
  select, find_row, order_desc, length,
}
use distribu_q.Schema.{WorkerRow, Db, alive, dead, is_alive, seconds}

abbrev pub is_worker : String → WorkerRow → Bool
is_worker id w = str_eq w.id id

-- INSERT … ON CONFLICT (id) DO UPDATE: `started_at` stays that of the first heartbeat.
unfoldable pub upsert_worker_heartbeat : String → ℕ → ℕ → Db → Db
upsert_worker_heartbeat id jobs_processed now db = elim (find_row (is_worker id) db.workers) [
  | none ↦ record db {
    workers =
        db.workers
        ++ record {
          id = id;
          status = alive;
          last_heartbeat = now;
          jobs_processed = jobs_processed;
          started_at = now;
        }
          ∷ [];
  }
  | some _ ↦ record db {
    workers =
        update_where (is_worker id)
          (λ w. record w { status = alive; last_heartbeat = now; jobs_processed = jobs_processed })
          db.workers;
  }
]

abbrev pub bury : WorkerRow → WorkerRow
bury w = record w { status = dead }

unfoldable pub mark_worker_dead : String → Db → Db
mark_worker_dead id db = record db { workers = update_where (is_worker id) bury db.workers }

-- status = 'ALIVE' AND last_heartbeat < NOW() - make_interval(secs => timeout).
abbrev pub is_expired : ℕ → ℕ → WorkerRow → Bool
is_expired timeout now w = is_alive w.status && ltb (w.last_heartbeat + seconds timeout) now

unfoldable pub mark_expired_workers_dead : ℕ → ℕ → Db → Db × List String
mark_expired_workers_dead timeout now db = (
  record db { workers = update_where (is_expired timeout now) bury db.workers },
  map (λ w. w.id) (select (is_expired timeout now) db.workers),
)

-- ORDER BY started_at DESC; `get_workers` of api/db.py is the same query.
unfoldable pub list_all_workers : Db → List WorkerRow
list_all_workers db = order_desc (λ w. w.started_at) db.workers

-- SELECT COUNT(*) … WHERE status = 'ALIVE'.
unfoldable pub get_active_worker_count : Db → ℕ
get_active_worker_count db = length (select (λ w. is_alive w.status) db.workers)
