-- ===== src/History/Late.antt =====
-- Results of a worker that has lost its lock.
use distribu_q.Written.{delayed, stored_value, succeed-finished}
use distribu_q.History.Exclusion.{run-HasKeys}
use distribu_q.Jobs.Locking.{lock-result}
use distribu_q.Jobs.{mark_job_success, mark_job_retrying, postpone_to, fetch_and_lock_job, succeed}
use distribu_q.Jobs.Lookup.{HasKeys, job_of-update_hit}
use distribu_q.Schema.{Db, Job, update_updated_at_column, job_of, has_id}
use distribu_q.Json.{Json}
use distribu_q.Base.{find_row_holds, ℕ, String, ◌≡◌, refl, some, List, [], ◌∷◌, ◌+◌, ap, ◌∙◌}
use distribu_q.History.{succeeds, retries, run, commit, Tx}

-- The row after a success at `t1` and a retry at `t2`.
abbrev pub overwritten : Json → String → ℕ → ℕ → ℕ → Job → Job
overwritten v m at t1 t2 j =
    update_updated_at_column t2 (postpone_to m at (update_updated_at_column t1 (succeed v j)))

overwritten-row :
    (id t1 t2 at : ℕ) (v : Json) (m : String) (db : Db) (j : Job)
    → job_of id db ≡ some j
    → job_of id (run ((t1, succeeds id v) ∷ (t2, retries id m at) ∷ []) db)
      ≡ some (overwritten v m at t1 t2 j)
unfolding run commit mark_job_success mark_job_retrying
overwritten-row id t1 t2 at v m db j found =
    let own = find_row_holds (has_id id) db.jobs j found in
    job_of-update_hit id t2 (has_id id) (postpone_to m at) (mark_job_success id v t1 db) (λ r. refl)
      (update_updated_at_column t1 (succeed v j))
      (job_of-update_hit id t1 (has_id id) (succeed v) db (λ r. refl) j found own) own

overwritten-delayed :
    (t1 t2 at : ℕ) (v : Json) (m : String) (j : Job)
    → overwritten v m at t1 t2 j ≡ record (delayed t2 m at j) { result = stored_value v }
overwritten-delayed t1 t2 at v m j =
    ap (λ k. record (delayed t2 m at j) { result = k.result }) (succeed-finished t1 v j)

-- Where no two jobs share an id: the statements that settle a job do not ask who holds it: when one worker reports a success and
-- another one, which held the job before or since, then reports a failure, the job is RETRYING for one
-- more try, with the error of the one and the result of the other, and the next worker locks it and
-- runs it again.
pub retries-succeeds :
    (id t1 t2 t3 at : ℕ) (v : Json) (m w : String) (db : Db) (j : Job)
    → HasKeys db.jobs
    → job_of id db ≡ some j
    → let db' = run ((t1, succeeds id v) ∷ (t2, retries id m at) ∷ []) db in
      (job_of id db' ≡ some (record (delayed t2 m at j) { result = stored_value v }))
      × ((fetch_and_lock_job id w t3 db').1
          ≡ some (record {
            id = j.id;
            type = j.type;
            payload = j.payload;
            priority = j.priority;
            attempts = j.attempts + 1;
            max_attempts = j.max_attempts;
            recurrence_rule = j.recurrence_rule;
          }))
retries-succeeds id t1 t2 t3 at v m w db j keys found =
    let ts : List (ℕ × Tx) = (t1, succeeds id v) ∷ (t2, retries id m at) ∷ [] in
    let row = overwritten-row id t1 t2 at v m db j found in
    (
      row ∙ ap some (overwritten-delayed t1 t2 at v m j),
      lock-result id t3 w (run ts db) (overwritten v m at t1 t2 j) (run-HasKeys ts db keys) row,
    )
