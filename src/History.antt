-- ===== src/History.antt =====
-- The database as its clients change it: one constructor for each transaction that api/db.py and
-- worker/db.py commit, and the state after any sequence of them. API requests, workers, reapers
-- and schedulers meet in Postgres only, so their interleavings are these sequences.
pub mod Steps
pub mod Validity
pub mod Submission
pub mod Exclusion
pub mod Archive
pub mod Filing
pub mod Late
pub mod Independence
pub mod Final
mod Tests
use distribu_q.Base.{ℕ, String, List, [], ◌∷◌}
use distribu_q.Json.{Json}
use distribu_q.Result.{Result, ok, err}
use distribu_q.Schema.{Job, Db}
use distribu_q.Jobs.{
  NewJob, fetch_and_lock_job, mark_job_success, mark_job_failed, mark_job_retrying,
  reclaim_stale_jobs, reclaim_due_retry_jobs, create_job, cancel_job,
}
use distribu_q.Workers.{upsert_worker_heartbeat, mark_worker_dead, mark_expired_workers_dead}
use distribu_q.DeadLetters.{move_to_dead_letter, replay_dead_letter}

pub data Tx : Type 0 where
  creates : ℕ → NewJob → Tx
  locks : ℕ → String → Tx
  succeeds : ℕ → Json → Tx
  fails : ℕ → String → Tx
  retries : ℕ → String → ℕ → Tx
  archives : ℕ → ℕ → String → ℕ → Tx
  reclaims_stale : ℕ → Tx
  reclaims_due : Tx
  cancels : ℕ → Tx
  replays : ℕ → Tx
  beats : String → ℕ → Tx
  stops : String → Tx
  expires : ℕ → Tx

-- A transaction that raises is rolled back.
abbrev pub after : Db → Result Db → Db
after db (ok db') = db'
after db (err e) = db

abbrev pub after_insert : Db → Result (Db × Job) → Db
after_insert db (ok (db', j)) = db'
after_insert db (err e) = db

-- The state that a transaction at the time `now` leaves.
unfoldable pub commit : ℕ × Tx → Db → Db
commit (now, creates id n) db = after_insert db (create_job id n now db)
commit (now, locks id w) db = (fetch_and_lock_job id w now db).0
commit (now, succeeds id v) db = mark_job_success id v now db
commit (now, fails id m) db = mark_job_failed id m now db
commit (now, retries id m t) db = mark_job_retrying id m t now db
commit (now, archives dl id m n) db = after db (move_to_dead_letter dl id m n now db)
commit (now, reclaims_stale t) db = (reclaim_stale_jobs t now db).0
commit (now, reclaims_due) db = (reclaim_due_retry_jobs now db).0
commit (now, cancels id) db = (cancel_job id now db).0
commit (now, replays id) db = (replay_dead_letter id now db).0
commit (now, beats w n) db = upsert_worker_heartbeat w n now db
commit (now, stops w) db = mark_worker_dead w db
commit (now, expires t) db = (mark_expired_workers_dead t now db).0

unfoldable pub run : List (ℕ × Tx) → Db → Db
run [] db = db
run (t ∷ ts) db = run ts (commit t db)
