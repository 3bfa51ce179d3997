-- ===== src/History/Exclusion.antt =====
-- Who may touch a locked job: `fetch_and_lock_job` against the other transactions.
use distribu_q.Jobs.Locking.{lock-row_of_some, lock-result}
use distribu_q.Workers.{
  upsert_worker_heartbeat, is_worker, mark_worker_dead, mark_expired_workers_dead,
}
use distribu_q.DeadLetters.{move_to_dead_letter, has_dl_id, archive}
use distribu_q.History.Submission.{Submission, submission-Step}
use distribu_q.Jobs.Lookup.{
  HasKeys, find_row-append_none, job_of-update_miss, find_row-append, id-job_of,
}
use distribu_q.Jobs.{
  fetch_and_lock_job, LockedJob, job_row, create_job, cancel_job, lock, NewJob, mark_job_success,
  mark_job_failed, is_smallint, mark_job_retrying, can_cancel, cancelled, reclaim_due_retry_jobs,
  can_lock, succeed, fail, postpone_to, is_due_retry, release,
}
use distribu_q.History.Steps.{done, stay, move, steps, grows, Rows, Evolves, Step, commit-Evolves}
use distribu_q.Base.{
  find_row, ℕ, String, ◌≡◌, refl, ap, ◌∙◌, inl, inr, Bool, true, false, none, some, List, [], ◌∷◌,
  ◌++◌, arith, ◌==◌, Bool-cases, Option-cases, All,
}
use distribu_q.Schema.{
  pending, running, Job, Db, job_of, has_id, update_updated_at_column, is_status,
}
use distribu_q.History.{
  creates, locks, succeeds, fails, retries, archives, reclaims_stale, reclaims_due, cancels,
  replays, beats, stops, expires, run, Tx, commit, after, after_insert,
}

-- Rows keep their keys.
key-Step : {j k : Job} → Step j k → k.id ≡ j.id
key-Step s = ap (λ (x : Submission). x.id) (submission-Step s)

fresh-Rows :
    (id : ℕ) {js ks : List Job}
    → Rows js ks
    → find_row (has_id id) js ≡ none
    → find_row (has_id id) ks ≡ none
unfolding find_row
fresh-Rows id done e = e
fresh-Rows id (stay j r) e = ground (arith, fresh-Rows id r)
fresh-Rows id (move s r) e = ground (arith, fresh-Rows id r, key-Step s)

HasKeys-Rows : {js ks : List Job} → Rows js ks → HasKeys js → HasKeys ks
HasKeys-Rows done h = h
HasKeys-Rows (stay j r) h = (fresh-Rows j.id r h.0, HasKeys-Rows r h.1)
HasKeys-Rows (move {j} {k} s r) h = (rw (key-Step s) (fresh-Rows j.id r h.0), HasKeys-Rows r h.1)

pub HasKeys-snoc :
    (js : List Job) (j : Job)
    → HasKeys js
    → find_row (has_id j.id) js ≡ none
    → HasKeys (js ++ j ∷ [])
unfolding find_row
HasKeys-snoc [] j h e = (refl, tt)
HasKeys-snoc (k ∷ js) j h e = (
  find_row-append_none (has_id k.id) js (j ∷ []) h.0 ∙ ground arith,
  HasKeys-snoc js j h.1 (ground arith),
)

pub HasKeys-Evolves : {js ks : List Job} → Evolves js ks → HasKeys js → HasKeys ks
HasKeys-Evolves (steps r) h = HasKeys-Rows r h
HasKeys-Evolves {js} (grows id now n fresh e) h = rw e (HasKeys-snoc js (job_row id now n) h fresh)

-- From a table without such jobs, no sequence of transactions puts two jobs under one key.
pub run-HasKeys : (ts : List (ℕ × Tx)) (db : Db) → HasKeys db.jobs → HasKeys (run ts db).jobs
unfolding run
run-HasKeys [] db h = h
run-HasKeys (t ∷ ts) db h = run-HasKeys ts (commit t db) (HasKeys-Evolves (commit-Evolves t db) h)

-- The transactions that may take a lock on the job `id` away: the four results that a worker
-- records for it, a replay, and a reaper's pass over stale locks.
abbrev pub may_free : ℕ → Tx → Bool
may_free id (succeeds i v) = i == id
may_free id (fails i m) = i == id
may_free id (retries i m t) = i == id
may_free id (archives dl i m n) = i == id
may_free id (replays i) = true
may_free id (reclaims_stale t) = true
may_free id _ = false

module _ (now id : ℕ) (db : Db) (j : Job) (found : job_of id db ≡ some j)
    (held : j.status ≡ running) where
  create_job-keeps :
      (i : ℕ) (n : NewJob) → job_of id (after_insert db (create_job i n now db)) ≡ some j
  unfolding create_job
  create_job-keeps i n = elim (Bool-cases (is_smallint n.priority)) [
    | inr e ↦ rw (e, create_job) found
    | inl e ↦ elim (Option-cases (job_of i db)) [
      | inl fresh ↦
          rw (e, fresh, create_job)
            (find_row-append (has_id id) db.jobs (job_row i now n ∷ []) j found)
      | inr (k, used) ↦ rw (e, used, create_job) found
    ]
  ]

  cancel_job-keeps : (i : ℕ) → job_of id (cancel_job i now db).0 ≡ some j
  unfolding cancel_job
  cancel_job-keeps i = elim (Option-cases (job_of i db)) [
    | inl e ↦ rw (e, cancel_job) found
    | inr (k, e) ↦ elim (Bool-cases (is_status k.status pending)) [
      | inr s ↦ rw (e, s, cancel_job) found
      | inl s ↦
          rw (e, s, cancel_job)
            (job_of-update_miss id now (can_cancel i) cancelled db (λ r. refl) j found
              (ground arith))
    ]
  ]

  move_to_dead_letter-keeps :
      (dl i : ℕ) (m : String) (n : ℕ)
      → (i == id) ≡ false
      → job_of id (after db (move_to_dead_letter dl i m n now db)) ≡ some j
  unfolding move_to_dead_letter
  move_to_dead_letter-keeps dl i m n other = elim (Option-cases (job_of i db)) [
    | inl e ↦ rw (e, move_to_dead_letter) found
    | inr (k, e) ↦ elim (Option-cases (find_row (has_dl_id dl) db.dead_letters)) [
      | inr (d, s) ↦ rw (e, s, move_to_dead_letter) found
      | inl s ↦
          rw (e, s, move_to_dead_letter)
            (job_of-update_miss id now (has_id i) (archive m) db (λ r. refl) j found
              (ground (arith, id-job_of id db j found)))
    ]
  ]

  heartbeat-keeps : (w : String) (n : ℕ) → job_of id (upsert_worker_heartbeat w n now db) ≡ some j
  unfolding upsert_worker_heartbeat
  heartbeat-keeps w n = elim (Option-cases (find_row (is_worker w) db.workers)) [
    | inl e ↦ rw (e, upsert_worker_heartbeat) found
    | inr (d, e) ↦ rw (e, upsert_worker_heartbeat) found
  ]

  -- A transaction that may not free a RUNNING job leaves its row as it is.
  commit-keeps : (t : Tx) → may_free id t ≡ false → job_of id (commit (now, t) db) ≡ some j
  unfolding commit fetch_and_lock_job mark_job_success mark_job_failed mark_job_retrying
      reclaim_due_retry_jobs mark_worker_dead mark_expired_workers_dead
  commit-keeps (creates i n) h = create_job-keeps i n
  commit-keeps (locks i w) h =
      job_of-update_miss id now (can_lock i) (lock w now) db (λ r. refl) j found (ground arith)
  commit-keeps (succeeds i v) h =
      job_of-update_miss id now (has_id i) (succeed v) db (λ r. refl) j found
        (ground (arith, id-job_of id db j found))
  commit-keeps (fails i m) h =
      job_of-update_miss id now (has_id i) (fail m) db (λ r. refl) j found
        (ground (arith, id-job_of id db j found))
  commit-keeps (retries i m t) h =
      job_of-update_miss id now (has_id i) (postpone_to m t) db (λ r. refl) j found
        (ground (arith, id-job_of id db j found))
  commit-keeps (archives dl i m n) h = move_to_dead_letter-keeps dl i m n h
  commit-keeps (reclaims_stale t) h = cc
  commit-keeps reclaims_due h =
      job_of-update_miss id now (is_due_retry now) (release pending) db (λ r. refl) j found
        (ground arith)
  commit-keeps (cancels i) h = cancel_job-keeps i
  commit-keeps (replays i) h = cc
  commit-keeps (beats w n) h = heartbeat-keeps w n
  commit-keeps (stops w) h = found
  commit-keeps (expires t) h = found

run-keeps :
    (id : ℕ) (ts : List (ℕ × Tx)) (db : Db) (j : Job)
    → job_of id db ≡ some j
    → j.status ≡ running
    → All (λ t. may_free id t.1 ≡ false) ts
    → job_of id (run ts db) ≡ some j
unfolding run
run-keeps id [] db j found held h = found
run-keeps id ((now, t) ∷ ts) db j found held h =
    run-keeps id ts (commit (now, t) db) j (commit-keeps now id db j found held t h.0) held h.1

-- Where no two jobs share an id: once a worker has locked a job, no call of `fetch_and_lock_job` gets it again, whoever calls and
-- whatever other transactions commit in between, until one of them may free it: a result recorded
-- for this job, a replay, or a reaper's pass over stale locks.
pub lock_excludes :
    (id now now' : ℕ) (w w' : String) (ts : List (ℕ × Tx)) (db : Db) (l : LockedJob)
    → HasKeys db.jobs
    → (fetch_and_lock_job id w now db).1 ≡ some l
    → All (λ t. may_free id t.1 ≡ false) ts
    → (fetch_and_lock_job id w' now' (run ts (fetch_and_lock_job id w now db).0)).1 ≡ none
unfolding commit
lock_excludes id now now' w w' ts db l keys e h =
    let (j, row) = lock-row_of_some id now w db l keys e in
    let after_lock : Db = (fetch_and_lock_job id w now db).0 in
    let kept : job_of id (run ts after_lock) ≡ some (update_updated_at_column now (lock w now j)) =
      run-keeps id ts after_lock (update_updated_at_column now (lock w now j)) row refl h in
    let unique : HasKeys after_lock.jobs =
      HasKeys-Evolves (commit-Evolves (now, locks id w) db) keys in
    lock-result id now' w' (run ts after_lock) (update_updated_at_column now (lock w now j))
      (run-HasKeys ts after_lock unique) kept
