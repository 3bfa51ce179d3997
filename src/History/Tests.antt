-- ===== src/History/Tests.antt =====
-- Histories at concrete inputs.
use distribu_q.History.Final.{run-finished}
use distribu_q.Written.{delayed}
use distribu_q.History.Independence.{neither, left, right, Merge, interleaving-run}
use distribu_q.History.Late.{retries-succeeds}
use distribu_q.History.Filing.{run-IsArchived}
use distribu_q.History.Archive.{IsArchived}
use distribu_q.History.Exclusion.{lock_excludes}
use distribu_q.Jobs.{
  fetch_and_lock_job, NewJob, locked_columns, create_job, lock, job_row, mark_job_retrying,
  reclaim_due_retry_jobs, mark_job_success, succeed,
}
use distribu_q.Schema.{Db, empty, job_of, Job}
use distribu_q.Jobs.Lookup.{HasKeys}
use distribu_q.History.Validity.{IsValidDb, run-IsValid}
use distribu_q.Base.Int.{pos}
use distribu_q.Base.{update_where, find_row, ℕ, ◌≡◌, refl, none, some, List, [], ◌∷◌, map, String}
use distribu_q.Json.{null, obj, end}
use distribu_q.History.{
  creates, locks, succeeds, fails, retries, reclaims_due, cancels, run, Tx, commit, archives,
  replays, reclaims_stale,
}

abbrev echo_job : NewJob
echo_job = record {
  type = "test_echo";
  payload = obj end;
  priority = pos 0;
  max_attempts = 3;
  scheduled_for = none;
  recurrence_rule = none;
}

-- A job is created, locked, fails, waits, is woken, and succeeds in the hands of another worker.
abbrev retry_history : List (ℕ × Tx)
retry_history =
    (10, creates 1 echo_job)
    ∷ (20, locks 1 "worker-a")
    ∷ (30, retries 1 "boom" 50)
    ∷ (60, reclaims_due)
    ∷ (70, locks 1 "worker-b")
    ∷ (80, succeeds 1 null)
    ∷ []

abbrev created : Db
created = record empty { jobs = job_row 1 10 echo_job ∷ [] }

abbrev interference : List (ℕ × Tx)
interference =
    (25, cancels 1) ∷ (26, reclaims_due) ∷ (27, locks 1 "worker-c") ∷ (28, fails 2 "x") ∷ []

run-IsValid_example : IsValidDb (run retry_history empty)
run-IsValid_example = run-IsValid retry_history empty tt

created-HasKeys : HasKeys created.jobs
unfolding find_row
created-HasKeys = (refl, tt)

first_lock :
    (fetch_and_lock_job 1 "worker-a" 20 created).1
    ≡ some (locked_columns (lock "worker-a" 20 (job_row 1 10 echo_job)))
unfolding fetch_and_lock_job find_row
first_lock = refl

lock_excludes_example :
    (fetch_and_lock_job 1 "worker-b" 30
      (run interference (fetch_and_lock_job 1 "worker-a" 20 created).0)).1
    ≡ none
lock_excludes_example =
    lock_excludes 1 20 30 "worker-a" "worker-b" interference created
      (locked_columns (lock "worker-a" 20 (job_row 1 10 echo_job))) created-HasKeys first_lock
      (refl, (refl, (refl, (refl, tt))))

-- The history ends with the job in SUCCESS, after two attempts.
retry_history_ends : map (λ j. j.attempts) (run retry_history empty).jobs ≡ 2 ∷ []
unfolding run commit create_job fetch_and_lock_job mark_job_retrying reclaim_due_retry_jobs
    mark_job_success find_row update_where
retry_history_ends = refl

-- The job fails for good, is replayed and locked again.
abbrev archive_history : List (ℕ × Tx)
archive_history =
    (10, creates 1 echo_job)
    ∷ (20, locks 1 "worker-a")
    ∷ (30, archives 9 1 "boom" 1)
    ∷ (35, archives 10 1 "boom" 1)
    ∷ (40, replays 10)
    ∷ (50, locks 1 "worker-b")
    ∷ []

run-IsArchived_example : IsArchived (run archive_history empty)
run-IsArchived_example = run-IsArchived archive_history empty (tt, tt)

created_found : job_of 1 created ≡ some (job_row 1 10 echo_job)
unfolding find_row
created_found = refl

retries-succeeds_example :
    let db' = run ((30, succeeds 1 (obj end)) ∷ (31, retries 1 "boom" 50) ∷ []) created in
    (job_of 1 db'
      ≡ some (record (delayed 31 "boom" 50 (job_row 1 10 echo_job)) { result = some (obj end) }))
    × ((fetch_and_lock_job 1 "worker-b" 60 db').1
        ≡ some (record (locked_columns (job_row 1 10 echo_job)) { attempts = 1 }))
retries-succeeds_example =
    retries-succeeds 1 30 31 60 50 (obj end) "boom" "worker-b" created (job_row 1 10 echo_job)
      created-HasKeys created_found

-- Two jobs, and the work of two workers on them.
abbrev two_jobs : Db
two_jobs = record empty { jobs = job_row 1 10 echo_job ∷ job_row 2 11 echo_job ∷ [] }

abbrev first_worker : List (ℕ × Tx)
first_worker = (20, locks 1 "worker-a") ∷ (30, succeeds 1 null) ∷ []

abbrev second_worker : List (ℕ × Tx)
second_worker = (22, locks 2 "worker-b") ∷ (29, retries 2 "boom" 50) ∷ []

abbrev both_workers : List (ℕ × Tx)
both_workers =
    (20, locks 1 "worker-a")
    ∷ (22, locks 2 "worker-b")
    ∷ (29, retries 2 "boom" 50)
    ∷ (30, succeeds 1 null)
    ∷ []

merged : Merge first_worker second_worker both_workers
merged =
    left (20, locks 1 "worker-a")
      (right (22, locks 2 "worker-b")
        (right (29, retries 2 "boom" 50) (left (30, succeeds 1 null) neither)))

interleaving-run_example : run both_workers two_jobs ≡ run second_worker (run first_worker two_jobs)
interleaving-run_example =
    interleaving-run 1 2 refl merged two_jobs (refl, (refl, tt)) (refl, (refl, tt))

-- The results of others, a cancellation and the passes go by a job that has succeeded.
abbrev over : Job
over = succeed (obj end) (job_row 1 10 echo_job)

abbrev later_history : List (ℕ × Tx)
later_history =
    (20, locks 1 "worker-a")
    ∷ (21, cancels 1)
    ∷ (22, reclaims_stale 30)
    ∷ (23, fails 2 "boom")
    ∷ (24, reclaims_due)
    ∷ []

over-HasKeys : HasKeys (over ∷ [])
unfolding find_row
over-HasKeys = (refl, tt)

over_found : job_of 1 (record empty { jobs = over ∷ [] }) ≡ some over
unfolding find_row
over_found = refl

run-finished_example :
    let db' = run later_history (record empty { jobs = over ∷ [] }) in
    (job_of 1 db' ≡ some over)
    × ((now : ℕ) (w : String) → (fetch_and_lock_job 1 w now db').1 ≡ none)
run-finished_example =
    run-finished 1 over refl later_history (record empty { jobs = over ∷ [] })
      (refl, (refl, (refl, (refl, (refl, tt))))) over-HasKeys over_found
