-- ===== src/Written.antt =====
-- Rows of jobs, column by column, as the documentation of the statements in worker/db.py and
-- api/db.py has them. What a theorem says of a row is said in these words, so that it does not
-- repeat the SET clause or the RETURNING clause that it is about.
use distribu_q.Base.{ℕ, ◌+◌, String, Option, none, some, ◌≡◌, refl, update_where}
use distribu_q.Json.{null, bool, int, dec, str, arr, obj, Json}
use distribu_q.Jobs.{succeed, NewJob, mark_job_success}
use distribu_q.Schema.{
  Job, pending, running, success, failed, retrying, dead_letter, update_updated_at_column, Db,
  has_id,
}

-- A value of a JSONB column; a result of None is NULL.
abbrev pub stored_value : Json → Option Json
stored_value null = none
stored_value v = some v

-- A job that a worker has.
abbrev pub held : ℕ → String → Job → Job
held now worker j = record j {
  status = running;
  locked_by = some worker;
  locked_at = some now;
  attempts = j.attempts + 1;
  updated_at = now;
}

abbrev pub finished : ℕ → Json → Job → Job
finished now v j = record j {
  status = success;
  result = stored_value v;
  error = none;
  locked_by = none;
  locked_at = none;
  updated_at = now;
}

-- A job that waits for the time `at` of its next try; a result stays as it is.
abbrev pub delayed : ℕ → String → ℕ → Job → Job
delayed now message at j = record j {
  status = retrying;
  error = some message;
  next_retry_at = some at;
  locked_by = none;
  locked_at = none;
  updated_at = now;
}

abbrev pub buried : ℕ → String → Job → Job
buried now message j = record j {
  status = dead_letter;
  error = some message;
  locked_by = none;
  locked_at = none;
  updated_at = now;
}

-- A job that a pass has made PENDING.
abbrev pub freed : ℕ → Job → Job
freed now j = record j { status = pending; locked_by = none; locked_at = none; updated_at = now }

abbrev pub called_off : ℕ → Job → Job
called_off now j = record j {
  status = failed;
  error = some "Job cancelled by user";
  locked_by = none;
  locked_at = none;
  updated_at = now;
}

-- A replayed job.
abbrev pub renewed : ℕ → Job → Job
renewed now j = record j {
  status = pending;
  attempts = 0;
  error = none;
  result = none;
  next_retry_at = none;
  locked_by = none;
  locked_at = none;
  updated_at = now;
}

-- A new job.
abbrev pub submitted : ℕ → ℕ → NewJob → Job
submitted id now n = record {
  id = id;
  type = n.type;
  payload = n.payload;
  status = pending;
  priority = n.priority;
  attempts = 0;
  max_attempts = n.max_attempts;
  next_retry_at = none;
  scheduled_for = n.scheduled_for;
  recurrence_rule = n.recurrence_rule;
  result = none;
  error = none;
  locked_by = none;
  locked_at = none;
  created_at = now;
  updated_at = now;
}

pub succeed-finished :
    (now : ℕ) (v : Json) (j : Job) → update_updated_at_column now (succeed v j) ≡ finished now v j
succeed-finished now null j = refl
succeed-finished now (bool b) j = refl
succeed-finished now (int i) j = refl
succeed-finished now (dec d) j = refl
succeed-finished now (str s) j = refl
succeed-finished now (arr vs) j = refl
succeed-finished now (obj fs) j = refl

-- What a success leaves of the table.
pub jobs-mark_job_success :
    (id now : ℕ) (v : Json) (db : Db)
    → (mark_job_success id v now db).jobs ≡ update_where (has_id id) (finished now v) db.jobs
unfolding mark_job_success
jobs-mark_job_success id now null db = refl
jobs-mark_job_success id now (bool b) db = refl
jobs-mark_job_success id now (int i) db = refl
jobs-mark_job_success id now (dec d) db = refl
jobs-mark_job_success id now (str s) db = refl
jobs-mark_job_success id now (arr vs) db = refl
jobs-mark_job_success id now (obj fs) db = refl
