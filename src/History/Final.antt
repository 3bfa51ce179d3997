-- ===== src/History/Final.antt =====
-- A finished job under the transactions that are not its own.
use distribu_q.History.Exclusion.{run-HasKeys}
use distribu_q.Jobs.Locking.{lock-result}
use distribu_q.Result.{Result-cases}
use distribu_q.Workers.{
  mark_expired_workers_dead, mark_worker_dead, upsert_worker_heartbeat, is_worker,
}
use distribu_q.DeadLetters.{move_to_dead_letter, has_dl_id, archive}
use distribu_q.Jobs.Lookup.{id-job_of, job_of-update_miss, job_of-create_job, HasKeys}
use distribu_q.Schema.{
  pending, running, success, failed, retrying, dead_letter, JobStatus, Job, is_status, Db, job_of,
  has_id, update_jobs,
}
use distribu_q.Base.{
  not, find_row, ℕ, ◌≡◌, refl, ap, inl, inr, Bool, true, false, ◌||◌, some, List, [], ◌∷◌, arith,
  ◌==◌, Bool-cases, Option-cases, All, String, ◌∙◌, none,
}
use distribu_q.Jobs.{
  fail, postpone_to, succeed, fetch_and_lock_job, mark_job_success, mark_job_failed,
  mark_job_retrying, reclaim_stale_jobs, reclaim_due_retry_jobs, cancel_job, create_job, can_lock,
  lock, fail, is_stale, release, is_due_retry, can_cancel, cancelled,
}
use distribu_q.History.{
  Tx, creates, locks, succeeds, fails, retries, archives, reclaims_stale, reclaims_due, cancels,
  replays, beats, stops, expires, commit, run,
}

-- SUCCESS, FAILED (cancelled) and DEAD_LETTER.
abbrev pub is_final : JobStatus → Bool
is_final s = is_status s success || (is_status s failed || is_status s dead_letter)

-- What is not a result that a worker reports for the job, and not a replay.
abbrev pub spares : ℕ → Tx → Bool
spares id (succeeds i v) = not (i == id)
spares id (fails i m) = not (i == id)
spares id (retries i m t) = not (i == id)
spares id (archives d i m n) = not (i == id)
spares id (replays i) = false
spares id _ = true

abbrev pub Sparing : ℕ → Tx → Type 0
Sparing id t = spares id t ≡ true

pub final-not :
    (s : JobStatus)
    → is_final s ≡ true
    → (is_status s pending ≡ false) × (is_status s running ≡ false) × (is_status s retrying ≡ false)
final-not pending e = absurd (ground arith)
final-not running e = absurd (ground arith)
final-not success e = (refl, refl, refl)
final-not failed e = (refl, refl, refl)
final-not retrying e = absurd (ground arith)
final-not dead_letter e = (refl, refl, refl)

module _ (id : ℕ) (j : Job) (final : is_final j.status ≡ true) (now : ℕ) (db : Db)
    (found : job_of id db ≡ some j) where
  -- An update that misses the row.
  missed :
      (q : Job → Bool) (f : Job → Job)
      → ((k : Job) → (f k).id ≡ k.id)
      → q j ≡ false
      → job_of id (update_jobs now q f db) ≡ some j
  missed q f keep miss =
      job_of-update_miss id now q f db (λ k. ap (λ i. i == id) (keep k)) j found miss

  -- An update of another job.
  other : (i : ℕ) → not (i == id) ≡ true → has_id i j ≡ false
  other i ne = let same = id-job_of id db j found in ground arith

  commit-final : (t : Tx) → Sparing id t → job_of id (commit (now, t) db) ≡ some j
  unfolding commit fetch_and_lock_job mark_job_success mark_job_failed mark_job_retrying
      reclaim_stale_jobs reclaim_due_retry_jobs cancel_job move_to_dead_letter
      mark_expired_workers_dead mark_worker_dead upsert_worker_heartbeat
  commit-final (creates i n) h = elim (Result-cases (create_job i n now db)) [
    | inl (x, e) ↦ rw e found
    | inr ((db', k), e) ↦ rw e (job_of-create_job id i now n db db' k j e found)
  ]
  commit-final (locks i w) h =
      missed (can_lock i) (lock w now) (λ k. refl)
        (let (idle, _, resting) = final-not j.status final in ground arith)
  commit-final (succeeds i v) h = missed (has_id i) (succeed v) (λ k. refl) (other i h)
  commit-final (fails i m) h = missed (has_id i) (fail m) (λ k. refl) (other i h)
  commit-final (retries i m t) h = missed (has_id i) (postpone_to m t) (λ k. refl) (other i h)
  commit-final (archives d i m n) h = elim (Option-cases (job_of i db)) [
    | inl none_there ↦ rw (none_there, move_to_dead_letter) found
    | inr (k, there) ↦ elim (Option-cases (find_row (has_dl_id d) db.dead_letters)) [
      | inl new ↦
          rw (there, new, move_to_dead_letter)
            (missed (has_id i) (archive m) (λ r. refl) (other i h))
      | inr (x, taken) ↦ rw (there, taken, move_to_dead_letter) found
    ]
  ]
  commit-final (reclaims_stale t) h =
      missed (is_stale t now db.workers) (release pending) (λ k. refl)
        (rw (final-not j.status final).1 refl)
  commit-final reclaims_due h =
      missed (is_due_retry now) (release pending) (λ k. refl) (rw (final-not j.status final).2 refl)
  commit-final (cancels i) h = elim (Option-cases (job_of i db)) [
    | inl none_there ↦ rw (none_there, commit, cancel_job) found
    | inr (k, there) ↦ elim (Bool-cases (is_status k.status pending)) [
      | inl free ↦
          let ends = (final-not j.status final).0 in
          rw (there, free, commit, cancel_job)
            (missed (can_cancel i) cancelled (λ r. refl) (ground arith))
      | inr busy ↦ rw (there, busy, commit, cancel_job) found
    ]
  ]
  commit-final (replays i) h = absurd (ground arith)
  commit-final (beats w n) h = elim (Option-cases (find_row (is_worker w) db.workers)) [
    | inl e ↦ rw (e, upsert_worker_heartbeat) found
    | inr (k, e) ↦ rw (e, upsert_worker_heartbeat) found
  ]
  commit-final (stops w) h = found
  commit-final (expires t) h = found

module _ (id : ℕ) (j : Job) (final : is_final j.status ≡ true) where
  pub run-final :
      (ts : List (ℕ × Tx)) (db : Db)
      → All (λ t. Sparing id t.1) ts
      → job_of id db ≡ some j
      → job_of id (run ts db) ≡ some j
  unfolding run
  run-final [] db kinds found = found
  run-final ((now, t) ∷ ts) db kinds found =
      run-final ts (commit (now, t) db) kinds.1 (commit-final id j final now db found t kinds.0)

  -- A job that is SUCCESS, FAILED or DEAD_LETTER, where no two jobs share an id: after any sequence
  -- of transactions of all processes, in any order, in which no worker reports a result for this job
  -- (as one could whose lock on it was reclaimed) and nothing is replayed, its row stays exactly as it
  -- is, and no worker can lock it.
  pub run-finished :
      (ts : List (ℕ × Tx)) (db : Db)
      → All (λ t. Sparing id t.1) ts
      → HasKeys db.jobs
      → job_of id db ≡ some j
      → (job_of id (run ts db) ≡ some j)
        × ((now : ℕ) (w : String) → (fetch_and_lock_job id w now (run ts db)).1 ≡ none)
  run-finished ts db kinds keys found =
      let kept = run-final ts db kinds found in
      let (idle, busy, resting) = final-not j.status final in
      (
        kept,
        λ now w.
            lock-result id now w (run ts db) j (run-HasKeys ts db keys) kept
            ∙ rw (idle, resting) refl,
      )
