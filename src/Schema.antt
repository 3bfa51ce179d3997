-- ===== src/Schema.antt =====
-- db/schema.sql and api/models.py: the rows of the three tables, and the database that holds them.
-- A UUID is a number, a TIMESTAMPTZ the microseconds since the epoch, NULL is `none`.
use distribu_q.Base.{ℕ, ◌*◌, Bool, String, Option, List, [], ◌==◌, update_where, find_row}
use distribu_q.Base.Int.{ℤ}
use distribu_q.Json.{Json}

pub data JobStatus : Type 0 where
  pending running success failed retrying dead_letter : JobStatus

pub data WorkerStatus : Type 0 where
  alive dead : WorkerStatus

-- The test `status = …` of a statement.
abbrev pub is_status : JobStatus → JobStatus → Bool
is_status pending pending = Bool.true
is_status running running = Bool.true
is_status success success = Bool.true
is_status failed failed = Bool.true
is_status retrying retrying = Bool.true
is_status dead_letter dead_letter = Bool.true
is_status _ _ = Bool.false

-- The value of a status in the database and in events.
abbrev pub status_text : JobStatus → String
status_text pending = "PENDING"
status_text running = "RUNNING"
status_text success = "SUCCESS"
status_text failed = "FAILED"
status_text retrying = "RETRYING"
status_text dead_letter = "DEAD_LETTER"

abbrev pub is_alive : WorkerStatus → Bool
is_alive alive = Bool.true
is_alive dead = Bool.false

pub record Job : Type 0 where
  pub id : ℕ
  pub type : String
  pub payload : Json
  pub status : JobStatus
  pub priority : ℤ
  pub attempts : ℕ
  pub max_attempts : ℕ
  pub next_retry_at : Option ℕ
  pub scheduled_for : Option ℕ
  pub recurrence_rule : Option String
  pub result : Option Json
  pub error : Option String
  pub locked_by : Option String
  pub locked_at : Option ℕ
  pub created_at : ℕ
  pub updated_at : ℕ

pub record WorkerRow : Type 0 where
  pub id : String
  pub status : WorkerStatus
  pub last_heartbeat : ℕ
  pub jobs_processed : ℕ
  pub started_at : ℕ

pub record DeadLetter : Type 0 where
  pub id : ℕ
  pub job_id : ℕ
  pub final_error : String
  pub attempts_made : ℕ
  pub moved_at : ℕ

pub record Db : Type 0 where
  pub jobs : List Job
  pub workers : List WorkerRow
  pub dead_letters : List DeadLetter

abbrev pub empty : Db
empty = record { jobs = []; workers = []; dead_letters = [] }

-- The trigger `set_jobs_updated_at`: NOW() goes into every row that an UPDATE of jobs writes.
abbrev pub update_updated_at_column : ℕ → Job → Job
update_updated_at_column now j = record j { updated_at = now }

-- An UPDATE of jobs, with its trigger.
abbrev pub update_jobs : ℕ → (Job → Bool) → (Job → Job) → Db → Db
update_jobs now p f db = record db {
  jobs = update_where p (λ j. update_updated_at_column now (f j)) db.jobs;
}

abbrev pub has_id : ℕ → Job → Bool
has_id id j = j.id == id

-- The job with a given primary key.
abbrev pub job_of : ℕ → Db → Option Job
job_of id db = find_row (has_id id) db.jobs

-- make_interval(secs => n).
abbrev pub seconds : ℕ → ℕ
seconds n = n * 1000000
