-- ===== src/Jobs.antt =====
-- The statements on the jobs table: worker/db.py, api/db.py and the listing query of api/main.py.
-- Each function is one committed transaction; `now` is its NOW().
pub mod Lookup
pub mod Locking
use distribu_q.Base.{
  ℕ, ◌+◌, Bool, true, false, ◌&&◌, ◌||◌, String, Option, none, some, List, [], ◌∷◌, ◌++◌, map,
  str_eq, if◌then◌else◌, ltb, leb, select, find_row,
}
use distribu_q.Base.Int.{ℤ, pos, negsuc}
use distribu_q.Json.{Json, null}
use distribu_q.Result.{Result, ok, err, unique_violation, numeric_out_of_range}
use distribu_q.Schema.{
  JobStatus, Job, WorkerRow, Db, pending, running, success, failed, retrying, is_status, is_alive,
  update_jobs, has_id, job_of, seconds,
}

-- The columns that `fetch_and_lock_job` returns.
pub record LockedJob : Type 0 where
  pub id : ℕ
  pub type : String
  pub payload : Json
  pub priority : ℤ
  pub attempts : ℕ
  pub max_attempts : ℕ
  pub recurrence_rule : Option String

abbrev pub locked_columns : Job → LockedJob
locked_columns j = record {
  id = j.id;
  type = j.type;
  payload = j.payload;
  priority = j.priority;
  attempts = j.attempts;
  max_attempts = j.max_attempts;
  recurrence_rule = j.recurrence_rule;
}

-- WHERE id = … AND status IN ('PENDING', 'RETRYING').
abbrev pub can_lock : ℕ → Job → Bool
can_lock id j = has_id id j && (is_status j.status pending || is_status j.status retrying)

abbrev pub lock : String → ℕ → Job → Job
lock worker_id now j = record j {
  status = running;
  locked_by = some worker_id;
  locked_at = some now;
  attempts = j.attempts + 1;
}

unfoldable pub fetch_and_lock_job : ℕ → String → ℕ → Db → Db × Option LockedJob
fetch_and_lock_job id worker_id now db = (
  update_jobs now (can_lock id) (lock worker_id now) db,
  elim (find_row (can_lock id) db.jobs) [
    | none ↦ none
    | some j ↦ some (locked_columns (lock worker_id now j))
  ],
)

-- `Jsonb(result) if result is not None else None`.
abbrev pub result_column : Json → Option Json
result_column null = none
result_column v = some v

abbrev pub succeed : Json → Job → Job
succeed v j = record j {
  status = success;
  result = result_column v;
  error = none;
  locked_by = none;
  locked_at = none;
}

unfoldable pub mark_job_success : ℕ → Json → ℕ → Db → Db
mark_job_success id result now = update_jobs now (has_id id) (succeed result)

abbrev pub fail : String → Job → Job
fail message j = record j {
  status = failed;
  error = some message;
  locked_by = none;
  locked_at = none;
}

unfoldable pub mark_job_failed : ℕ → String → ℕ → Db → Db
mark_job_failed id message now = update_jobs now (has_id id) (fail message)

abbrev pub postpone_to : String → ℕ → Job → Job
postpone_to message retry_at j = record j {
  status = retrying;
  error = some message;
  next_retry_at = some retry_at;
  locked_by = none;
  locked_at = none;
}

unfoldable pub mark_job_retrying : ℕ → String → ℕ → ℕ → Db → Db
mark_job_retrying id message retry_at now =
    update_jobs now (has_id id) (postpone_to message retry_at)

abbrev pub release : JobStatus → Job → Job
release s j = record j { status = s; locked_by = none; locked_at = none }

-- locked_at < NOW() - make_interval(secs => timeout); a NULL is no such time.
abbrev pub older_than : ℕ → ℕ → Option ℕ → Bool
older_than timeout now none = false
older_than timeout now (some t) = ltb (t + seconds timeout) now

abbrev pub is_gone : ℕ → ℕ → WorkerRow → Bool
is_gone timeout now w =
    (if is_alive w.status then false else true) || ltb (w.last_heartbeat + seconds timeout) now

-- locked_by IN (SELECT id FROM workers WHERE …).
unfoldable pub held_by_gone : ℕ → ℕ → List WorkerRow → Option String → Bool
held_by_gone timeout now ws none = false
held_by_gone timeout now [] (some w) = false
held_by_gone timeout now (r ∷ ws) (some w) =
    (is_gone timeout now r && str_eq r.id w) || held_by_gone timeout now ws (some w)

abbrev pub is_stale : ℕ → ℕ → List WorkerRow → Job → Bool
is_stale timeout now ws j =
    is_status j.status running
    && (older_than timeout now j.locked_at || held_by_gone timeout now ws j.locked_by)

-- RETURNING id, type, priority, locked_by, of the rows as the update leaves them.
pub record ReclaimedJob : Type 0 where
  pub id : ℕ
  pub type : String
  pub priority : ℤ
  pub locked_by : Option String

abbrev pub reclaimed_columns : Job → ReclaimedJob
reclaimed_columns j = record {
  id = j.id;
  type = j.type;
  priority = j.priority;
  locked_by = j.locked_by;
}

unfoldable pub reclaim_stale_jobs : ℕ → ℕ → Db → Db × List ReclaimedJob
reclaim_stale_jobs timeout now db = (
  update_jobs now (is_stale timeout now db.workers) (release pending) db,
  map (λ j. reclaimed_columns (release pending j))
      (select (is_stale timeout now db.workers) db.jobs),
)

-- next_retry_at <= NOW().
abbrev pub is_due : ℕ → Option ℕ → Bool
is_due now none = false
is_due now (some t) = leb t now

abbrev pub is_due_retry : ℕ → Job → Bool
is_due_retry now j = is_status j.status retrying && is_due now j.next_retry_at

pub record DueRetry : Type 0 where
  pub id : ℕ
  pub type : String
  pub priority : ℤ
  pub attempts : ℕ
  pub max_attempts : ℕ

abbrev pub due_columns : Job → DueRetry
due_columns j = record {
  id = j.id;
  type = j.type;
  priority = j.priority;
  attempts = j.attempts;
  max_attempts = j.max_attempts;
}

unfoldable pub reclaim_due_retry_jobs : ℕ → Db → Db × List DueRetry
reclaim_due_retry_jobs now db = (
  update_jobs now (is_due_retry now) (release pending) db,
  map (λ j. due_columns (release pending j)) (select (is_due_retry now) db.jobs),
)

-- The columns that an INSERT of a job gives; the schema's defaults fill the others.
pub record NewJob : Type 0 where
  pub type : String
  pub payload : Json
  pub priority : ℤ
  pub max_attempts : ℕ
  pub scheduled_for : Option ℕ
  pub recurrence_rule : Option String

abbrev pub job_row : ℕ → ℕ → NewJob → Job
job_row id now n = record {
  id = id;
  type = n.type;
  payload = n.payload;
  status = pending;
  priority = n.priority;
  attempts = 0;
  max_attempts = n.max_attempts;
  next_retry_at = none;
  scheduled_for = n.scheduled_for;
  recurrence_rule = n.recurrence_rule;
  result = none;
  error = none;
  locked_by = none;
  locked_at = none;
  created_at = now;
  updated_at = now;
}

-- The range of a SMALLINT column.
abbrev pub is_smallint : ℤ → Bool
is_smallint (pos n) = ltb n 32768
is_smallint (negsuc n) = ltb n 32768

-- INSERT INTO jobs … RETURNING …; `id` is what gen_random_uuid() gave.
unfoldable pub create_job : ℕ → NewJob → ℕ → Db → Result (Db × Job)
create_job id n now db =
    if is_smallint n.priority
    then elim (job_of id db) [
      | none ↦ ok (record db { jobs = db.jobs ++ job_row id now n ∷ [] }, job_row id now n)
      | some _ ↦ err unique_violation
    ]
    else err numeric_out_of_range

-- `schedule_next_occurrence` of worker/db.py sends the same statement as `create_job`.
unfoldable pub schedule_next_occurrence :
    ℕ → String → Json → String → ℕ → ℕ → ℤ → ℕ → Db → Result (Db × Job)
unfolding create_job
schedule_next_occurrence id job_type payload rule scheduled_for max_attempts priority =
    create_job id (record {
      type = job_type;
      payload = payload;
      priority = priority;
      max_attempts = max_attempts;
      scheduled_for = some scheduled_for;
      recurrence_rule = some rule;
    })

abbrev pub is_scheduled : Job → Bool
is_scheduled j = is_status j.status pending && elim j.scheduled_for [ none ↦ false | some _ ↦ true ]

-- SELECT … WHERE status = 'PENDING' AND scheduled_for IS NOT NULL.
unfoldable pub get_pending_scheduled_jobs : Db → List Job
get_pending_scheduled_jobs db = select is_scheduled db.jobs

unfoldable pub get_job : ℕ → Db → Option Job
get_job id db = job_of id db

-- The answer of `cancel_job`: id, status, type, priority.
pub record CancelRecord : Type 0 where
  pub id : ℕ
  pub status : JobStatus
  pub type : String
  pub priority : ℤ

abbrev pub cancel_columns : Job → CancelRecord
cancel_columns j = record { id = j.id; status = j.status; type = j.type; priority = j.priority }

abbrev pub cancelled : Job → Job
cancelled j = record j {
  status = failed;
  error = some "Job cancelled by user";
  locked_by = none;
  locked_at = none;
}

abbrev pub can_cancel : ℕ → Job → Bool
can_cancel id j = has_id id j && is_status j.status pending

-- `updated or job`, where the row was read as pending.
abbrev pub updated_or : Job → Option Job → CancelRecord
updated_or j none = cancel_columns j
updated_or j (some u) = cancel_columns (cancelled u)

unfoldable pub cancel_job : ℕ → ℕ → Db → Db × Option CancelRecord
cancel_job id now db = elim (job_of id db) [
  | none ↦ (db, none)
  | some j ↦
      if is_status j.status pending
      then (
        update_jobs now (can_cancel id) cancelled db,
        some (updated_or j (find_row (can_cancel id) db.jobs)),
      )
      else (db, some (cancel_columns j))
]
