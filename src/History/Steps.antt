-- ===== src/History/Steps.antt =====
-- The life of one job as a step relation, and the transactions of api/db.py and worker/db.py as
-- refinements of it.
use distribu_q.Json.{Json}
use distribu_q.DeadLetters.{
  move_to_dead_letter, replay_dead_letter, matches, has_dl_id, archive, reset,
}
use distribu_q.Workers.{
  upsert_worker_heartbeat, is_worker, mark_worker_dead, mark_expired_workers_dead,
}
use distribu_q.Jobs.{
  mark_job_success, NewJob, fetch_and_lock_job, cancel_job, create_job, mark_job_failed,
  mark_job_retrying, reclaim_stale_jobs, reclaim_due_retry_jobs, is_smallint, job_row, lock,
  succeed, fail, postpone_to, release, is_due_retry, cancelled,
}
use distribu_q.Schema.{
  Job, Db, is_status, has_id, pending, job_of, running, retrying, update_updated_at_column,
}
use distribu_q.Base.{
  update_where, List, ℕ, String, ◌∷◌, [], Bool, find_row, Option-cases, arith, Bool-cases, ◌≡◌,
  refl, inl, inr, true, ◌||◌, none, ◌++◌,
}
use distribu_q.History.{
  Tx, creates, commit, after, after_insert, locks, succeeds, fails, retries, archives,
  reclaims_stale, reclaims_due, cancels, replays, beats, stops, expires,
}

-- What one statement does to one row of jobs.
pub data Step : Job → Job → Type 0 where
  claim :
      (j : Job) (w : String) (now : ℕ)
      → (is_status j.status pending || is_status j.status retrying) ≡ true
      → Step j (update_updated_at_column now (lock w now j))
  finish : (j : Job) (v : Json) (now : ℕ) → Step j (update_updated_at_column now (succeed v j))
  break_off : (j : Job) (m : String) (now : ℕ) → Step j (update_updated_at_column now (fail m j))
  postpone :
      (j : Job) (m : String) (t now : ℕ) → Step j (update_updated_at_column now (postpone_to m t j))
  give_up : (j : Job) (m : String) (now : ℕ) → Step j (update_updated_at_column now (archive m j))
  reclaim :
      (j : Job) (now : ℕ)
      → is_status j.status running ≡ true
      → Step j (update_updated_at_column now (release pending j))
  wake :
      (j : Job) (now : ℕ)
      → is_due_retry now j ≡ true
      → Step j (update_updated_at_column now (release pending j))
  cancel :
      (j : Job) (now : ℕ)
      → is_status j.status pending ≡ true
      → Step j (update_updated_at_column now (cancelled j))
  replay : (j : Job) (now : ℕ) → Step j (update_updated_at_column now (reset j))

-- A table whose rows stay or take one step each.
pub data Rows : List Job → List Job → Type 0 where
  done : Rows [] []
  stay : (j : Job) {js ks : List Job} → Rows js ks → Rows (j ∷ js) (j ∷ ks)
  move : {j k : Job} {js ks : List Job} → Step j k → Rows js ks → Rows (j ∷ js) (k ∷ ks)

-- The table before and after a transaction: a step of some rows, or one new row under a fresh key.
pub data Evolves (js ks : List Job) : Type 0 where
  steps : Rows js ks → Evolves js ks
  grows :
      (id now : ℕ) (n : NewJob)
      → find_row (has_id id) js ≡ none
      → ks ≡ js ++ job_row id now n ∷ []
      → Evolves js ks

Rows-refl : (js : List Job) → Rows js js
Rows-refl [] = done
Rows-refl (j ∷ js) = stay j (Rows-refl js)

update_where-Rows :
    (p : Job → Bool) (f : Job → Job) (js : List Job)
    → ((j : Job) → p j ≡ true → Step j (f j))
    → Rows js (update_where p f js)
unfolding update_where
update_where-Rows p f [] h = done
update_where-Rows p f (j ∷ js) h = elim (Bool-cases (p j)) [
  | inl e ↦ rw e (move (h j e) (update_where-Rows p f js h))
  | inr e ↦ rw e (stay j (update_where-Rows p f js h))
]

unchanged : (js : List Job) → Evolves js js
unchanged js = steps (Rows-refl js)

module _ (now : ℕ) (db : Db) where
  create_job-Evolves :
      (id : ℕ) (n : NewJob) → Evolves db.jobs (after_insert db (create_job id n now db)).jobs
  unfolding create_job
  create_job-Evolves id n = elim (Bool-cases (is_smallint n.priority)) [
    | inr e ↦ rw (e, create_job) (unchanged db.jobs)
    | inl e ↦ elim (Option-cases (job_of id db)) [
      | inl fresh ↦ rw (e, fresh, create_job) (grows id now n fresh refl)
      | inr (j, used) ↦ rw (e, used, create_job) (unchanged db.jobs)
    ]
  ]

  fetch_and_lock_job-Evolves :
      (id : ℕ) (w : String) → Evolves db.jobs (fetch_and_lock_job id w now db).0.jobs
  unfolding fetch_and_lock_job
  fetch_and_lock_job-Evolves id w =
      steps (update_where-Rows _ _ db.jobs (λ j e. claim j w now (ground arith)))

  cancel_job-Evolves : (id : ℕ) → Evolves db.jobs (cancel_job id now db).0.jobs
  unfolding cancel_job
  cancel_job-Evolves id = elim (Option-cases (job_of id db)) [
    | inl e ↦ rw (e, cancel_job) (unchanged db.jobs)
    | inr (j, e) ↦ elim (Bool-cases (is_status j.status pending)) [
      | inr s ↦ rw (e, s, cancel_job) (unchanged db.jobs)
      | inl s ↦
          rw (e, s, cancel_job)
            (steps (update_where-Rows _ _ db.jobs (λ k c. cancel k now (ground arith))))
    ]
  ]

  move_to_dead_letter-Evolves :
      (dl id : ℕ) (m : String) (n : ℕ)
      → Evolves db.jobs (after db (move_to_dead_letter dl id m n now db)).jobs
  unfolding move_to_dead_letter
  move_to_dead_letter-Evolves dl id m n = elim (Option-cases (job_of id db)) [
    | inl e ↦ rw (e, move_to_dead_letter) (unchanged db.jobs)
    | inr (j, e) ↦ elim (Option-cases (find_row (has_dl_id dl) db.dead_letters)) [
      | inr (d, s) ↦ rw (e, s, move_to_dead_letter) (unchanged db.jobs)
      | inl s ↦
          rw (e, s, move_to_dead_letter)
            (steps (update_where-Rows _ _ db.jobs (λ k c. give_up k m now)))
    ]
  ]

  replay_dead_letter-Evolves : (id : ℕ) → Evolves db.jobs (replay_dead_letter id now db).0.jobs
  unfolding replay_dead_letter
  replay_dead_letter-Evolves id = elim (Option-cases (find_row (matches id) db.dead_letters)) [
    | inl e ↦ rw (e, replay_dead_letter) (unchanged db.jobs)
    | inr (d, e) ↦
        rw (e, replay_dead_letter) (steps (update_where-Rows _ _ db.jobs (λ k c. replay k now)))
  ]

  heartbeat-Evolves :
      (w : String) (n : ℕ) → Evolves db.jobs (upsert_worker_heartbeat w n now db).jobs
  unfolding upsert_worker_heartbeat
  heartbeat-Evolves w n = elim (Option-cases (find_row (is_worker w) db.workers)) [
    | inl e ↦ rw (e, upsert_worker_heartbeat) (unchanged db.jobs)
    | inr (d, e) ↦ rw (e, upsert_worker_heartbeat) (unchanged db.jobs)
  ]

-- Whatever a transaction does to the table of jobs is a step of the state machine for each row
-- that it writes, or the insertion of one pending job under a key that no row has.
pub commit-Evolves : (t : ℕ × Tx) (db : Db) → Evolves db.jobs (commit t db).jobs
unfolding commit mark_job_success mark_job_failed mark_job_retrying reclaim_stale_jobs
    reclaim_due_retry_jobs mark_worker_dead mark_expired_workers_dead
commit-Evolves (now, creates id n) db = create_job-Evolves now db id n
commit-Evolves (now, locks id w) db = fetch_and_lock_job-Evolves now db id w
commit-Evolves (now, succeeds id v) db =
    steps (update_where-Rows _ _ db.jobs (λ j e. finish j v now))
commit-Evolves (now, fails id m) db =
    steps (update_where-Rows _ _ db.jobs (λ j e. break_off j m now))
commit-Evolves (now, retries id m t) db =
    steps (update_where-Rows _ _ db.jobs (λ j e. postpone j m t now))
commit-Evolves (now, archives dl id m n) db = move_to_dead_letter-Evolves now db dl id m n
commit-Evolves (now, reclaims_stale t) db =
    steps (update_where-Rows _ _ db.jobs (λ j e. reclaim j now (ground arith)))
commit-Evolves (now, reclaims_due) db = steps (update_where-Rows _ _ db.jobs (λ j e. wake j now e))
commit-Evolves (now, cancels id) db = cancel_job-Evolves now db id
commit-Evolves (now, replays id) db = replay_dead_letter-Evolves now db id
commit-Evolves (now, beats w n) db = heartbeat-Evolves now db w n
commit-Evolves (now, stops w) db = unchanged db.jobs
commit-Evolves (now, expires t) db = unchanged db.jobs
