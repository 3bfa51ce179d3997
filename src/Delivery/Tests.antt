-- ===== src/Delivery/Tests.antt =====
-- A job that is submitted, cancelled by nobody, and reserved.
use distribu_q.Jobs.Lookup.{HasKeys}
use distribu_q.History.Final.{Sparing}
use distribu_q.Delivery.Final.{run_calls-final}
use distribu_q.Worker.{process_job, acknowledge}
use distribu_q.History.Submission.{Submission, submissions}
use distribu_q.Delivery.Commits.{Commits-nothing}
use distribu_q.Delivery.Refinement.{run_calls-IsValid, Any}
use distribu_q.History.Archive.{IsArchived}
use distribu_q.Delivery.DefaultCommits.{default_registry-Commits}
use distribu_q.History.Validity.{IsValidDb}
use distribu_q.Handlers.Tests.{python}
use distribu_q.History.{Tx}
use distribu_q.Delivery.WorkerCommits.{CommitsAll}
use distribu_q.Handlers.Defaults.{default_registry}
use distribu_q.Delivery.Forgotten.{passes-forget}
use mathlib.Core.Path.{subst}
use distribu_q.Redis.Client.{priority_reserve_job}
use distribu_q.Delivery.Stranded.{Absent, is_queue}
use distribu_q.Delivery.Lost.{IsLost}
use distribu_q.Delivery.Runs.{run_calls-Held}
use distribu_q.Delivery.Held.{Held}
use distribu_q.Scheduler.{promote_retries}
use distribu_q.Events.{emit_job_submitted, publish_event}
use distribu_q.Jobs.{create_job, reclaim_due_retry_jobs, job_row, cancelled}
use distribu_q.Redis.{no_keys, write}
use distribu_q.Schema.{empty, job_of, Job}
use distribu_q.Worker.Tests.{world_of, echoed, here, handlers, job_request}
use distribu_q.Delivery.Passes.{IsTracked}
use distribu_q.Api.{JobCreateRequest, post_job, submit_job, check_rule, place, announce, new_job}
use distribu_q.World.{World}
use distribu_q.Base.Int.{pos}
use distribu_q.Base.{
  update_where, select, find_row, refl, none, List, [], ◌∷◌, ◌≡◌, sym, ◌≢◌, inl, inr, true, false,
  some, arith, str_eq, eq_iff, Bool-cases, ◌++◌, String,
}
use distribu_q.Json.{end, obj}
use distribu_q.Delivery.{
  process_by, request_cancel, worker_named, request_job, advance, wake_retries, reserve_with,
  recover_all, reap_stale, sync_all, Call, run_calls, perform,
}

abbrev pub nobody : World
nobody = record (world_of echoed) { db = empty; redis = no_keys }

abbrev pub request : JobCreateRequest
request = record {
  type = "echo";
  payload = end;
  priority = pos 1;
  max_attempts = pos 2;
  scheduled_for = none;
  recurrence_rule = none;
}

abbrev calls : List Call
calls = request_job request ∷ advance 2000 9 0 ∷ wake_retries ∷ reserve_with (λ r. r) ∷ []

nobody-IsTracked : IsTracked "queue:processing" nobody
unfolding select
nobody-IsTracked = ((tt, tt), refl)

run_calls-Held_example :
    Held "queue:processing"
      (run_calls "queue:processing" here handlers (λ t. "time") calls nobody).redis
      8
unfolding run_calls perform post_job submit_job check_rule create_job place announce
    emit_job_submitted publish_event promote_retries reclaim_due_retry_jobs find_row update_where
    select
run_calls-Held_example =
    run_calls-Held "queue:processing" here handlers (λ t. "time")
      ((λ fs w. (refl, refl, refl)), ((λ fs w. (refl, refl, refl)), tt)) calls nobody 8
      (job_row 8 1000 (new_job request)) ((none, refl), (tt, (tt, ((λ r id h. h), tt))))
      nobody-IsTracked refl refl

-- The worker that reserved job 7 has died before its lock.
abbrev left_behind : World
left_behind = record (world_of (job_row 7 100 (job_request "echo" (obj end)))) {
  redis = record no_keys { lists = write "queue:processing" (7 ∷ []) (λ k. []) };
}

left_behind-Absent : Absent 7 left_behind.redis
left_behind-Absent = (
  λ k queue. elim (Bool-cases (str_eq "queue:processing" k)) [
    | inr miss ↦ rw miss refl
    | inl hit ↦
        let same : "queue:processing" ≡ k = (eq_iff "queue:processing" k).0 hit in
        let bad : false ≡ true = subst (λ q. is_queue q ≡ true) (sym same) queue in
        absurd (ground arith)
  ],
  refl,
)

left_behind-IsLost : IsLost 7 (job_row 7 100 (job_request "echo" (obj end))) left_behind
unfolding find_row
left_behind-IsLost = record {
  keys = (refl, tt);
  found = refl;
  waits = refl;
  untimed = refl;
  absent_key = left_behind-Absent;
  up = refl;
}

passes-forget_example :
    let w' =
      run_calls "queue:processing" here handlers
        (λ t. "time")
        (recover_all ∷ advance 999999999 9 0 ∷ reap_stale ∷ sync_all ∷ [])
        left_behind in
    (job_of 7 w'.db ≡ some (job_row 7 100 (job_request "echo" (obj end))))
    × ((priority_reserve_job "queue:processing" (λ r. r) w'.redis).1 ≢ some 7)
passes-forget_example =
    passes-forget "queue:processing" here handlers (λ t. "time") 7
      (job_row 7 100 (job_request "echo" (obj end)))
      (recover_all ∷ advance 999999999 9 0 ∷ reap_stale ∷ sync_all ∷ []) left_behind
      (refl, (refl, (refl, (refl, tt)))) left_behind-IsLost

-- A worker with the default handlers runs what was submitted.
abbrev served : List Call
served = request_job request ∷ reserve_with (λ r. r) ∷ process_by "worker-a" 8 ∷ recover_all ∷ []

python-CommitsAll : (P : Tx → Type 0) → CommitsAll P (default_registry python)
python-CommitsAll P =
    default_registry-Commits P python (λ s. Commits-nothing P (python.sleep s) (λ w. refl))

run_calls-IsValid_example :
    let db' =
      (run_calls "queue:processing" here
        (default_registry python)
        (λ t. "time")
        served
        nobody).db in
    IsValidDb db'
    × IsArchived db'
    × ((new : List Submission) × (submissions db'.jobs ≡ submissions nobody.db.jobs ++ new))
run_calls-IsValid_example =
    run_calls-IsValid "queue:processing" here (default_registry python) (λ t. "time")
      (python-CommitsAll Any) served nobody tt (tt, tt)

-- A job that a client cancelled, whose key is still in a queue.
abbrev withdrawn_job : Job
withdrawn_job = cancelled (job_row 7 100 (job_request "echo" (obj end)))

abbrev ignored : List Call
ignored =
    reserve_with (λ r. r)
    ∷ process_by "worker-a" 7
    ∷ advance 999999999 9 0
    ∷ recover_all
    ∷ request_cancel 7
    ∷ []

withdrawn_keys : HasKeys (withdrawn_job ∷ [])
unfolding find_row
withdrawn_keys = (refl, tt)

withdrawn_found : job_of 7 (world_of withdrawn_job).db ≡ some withdrawn_job
unfolding find_row
withdrawn_found = refl

run_calls-final_example :
    let w' =
      run_calls "queue:processing" here
        (default_registry python)
        (λ t. "time")
        ignored
        (world_of withdrawn_job) in
    (job_of 7 w'.db ≡ some withdrawn_job)
    × ((name : String)
        → process_job here
            (worker_named "queue:processing" here (default_registry python) (λ t. "time") name)
            (default_registry python)
            7
            w'
          ≡ acknowledge here
              (worker_named "queue:processing" here (default_registry python) (λ t. "time") name)
              (default_registry python)
              7
              w')
run_calls-final_example =
    run_calls-final 7 withdrawn_job refl "queue:processing" here (default_registry python)
      (λ t. "time") (python-CommitsAll (Sparing 7)) ignored (world_of withdrawn_job)
      (refl, (refl, (refl, (refl, (refl, tt))))) withdrawn_keys withdrawn_found
