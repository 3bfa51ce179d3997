-- ===== src/Jobs/Locking.antt =====
-- `fetch_and_lock_job` by the row of its key.
use distribu_q.Jobs.Lookup.{HasKeys, find_row-none_and, find_row-key, id-job_of}
use distribu_q.Jobs.{LockedJob, fetch_and_lock_job, locked_columns, lock, can_lock}
use distribu_q.Base.{
  find_row-update_where, ℕ, String, ◌≡◌, refl, ◌∙◌, inl, inr, Bool, ◌||◌, none, some, arith,
  if◌then◌else◌, Bool-cases, Option-cases,
}
use distribu_q.Schema.{
  pending, retrying, JobStatus, Db, is_status, Job, job_of, update_updated_at_column, has_id,
}

-- The statuses from which a job may be locked.
abbrev pub claimable : JobStatus → Bool
claimable s = is_status s pending || is_status s retrying

module _ (id now : ℕ) (w : String) (db : Db) where
  pub lock-result :
      (j : Job)
      → HasKeys db.jobs
      → job_of id db ≡ some j
      → (fetch_and_lock_job id w now db).1
        ≡ (if claimable j.status then some (locked_columns (lock w now j)) else none)
  unfolding fetch_and_lock_job
  lock-result j keys found =
      rw (find_row-key id (λ r. claimable r.status) db.jobs j keys found, fetch_and_lock_job)
        (ground arith)

  pub lock-result_missing : job_of id db ≡ none → (fetch_and_lock_job id w now db).1 ≡ none
  unfolding fetch_and_lock_job
  lock-result_missing missing =
      rw (find_row-none_and id (λ r. claimable r.status) db.jobs missing, fetch_and_lock_job) refl

  pub lock-row :
      (j : Job)
      → job_of id db ≡ some j
      → job_of id (fetch_and_lock_job id w now db).0
        ≡ some (if claimable j.status then update_updated_at_column now (lock w now j) else j)
  unfolding fetch_and_lock_job
  lock-row j found =
      find_row-update_where (has_id id) (can_lock id)
        (λ r. update_updated_at_column now (lock w now r)) db.jobs (λ r. refl)
      ∙ ground (arith, id-job_of id db j found)

  -- A successful call has found a claimable row and left it locked.
  pub lock-row_of_some :
      (l : LockedJob)
      → HasKeys db.jobs
      → (fetch_and_lock_job id w now db).1 ≡ some l
      → (j : Job) × (job_of id (fetch_and_lock_job id w now db).0
          ≡ some (update_updated_at_column now (lock w now j)))
  lock-row_of_some l keys e = elim (Option-cases (job_of id db)) [
    | inl missing ↦ cc (lock-result_missing missing)
    | inr (j, found) ↦ elim (Bool-cases (claimable j.status)) [
      | inl c ↦ (j, ground (arith, lock-row j found))
      | inr c ↦ absurd (ground (arith, lock-result j keys found))
    ]
  ]
