-- ===== src/Delivery/Refinement.antt =====
-- What all the processes together do to Postgres is a history of transactions.
use distribu_q.Jobs.{NewJob}
use distribu_q.History.Filing.{run-IsArchived}
use distribu_q.History.Submission.{Submission, submissions, submissions-run}
use distribu_q.History.Archive.{IsArchived}
use distribu_q.Reaper.{default_reaper}
use distribu_q.Scheduler.{default_scheduler}
use distribu_q.Redis.Client.{priority_reserve_job}
use distribu_q.World.{World}
use distribu_q.Handlers.{Registry}
use distribu_q.Worker.{Runtime}
use distribu_q.Base.{ℕ, String, ◌≡◌, List, [], ◌∷◌, ◌++◌}
use distribu_q.Delivery.{
  request_job, request_cancel, request_replay, reserve_with, process_by, promote_due, wake_retries,
  reap_stale, sync_all, recover_all, advance, worker_named, Call, perform, run_calls,
}
use distribu_q.Delivery.RequestCommits.{
  post_job-Commits, cancel_job_by_id-Commits, replay_dead_letter_job-Commits,
}
use distribu_q.Delivery.WorkerCommits.{CommitsAll, process_job-Commits}
use distribu_q.Delivery.OtherCommits.{
  promote_due-Commits, promote_retries-Commits, run_reaper-Commits, sync_from_db-Commits,
  recover-Commits,
}
use distribu_q.Delivery.Commits.{
  Reaches, Reaches-refl, Reaches-trans, Commits-command, AllowsJob, AllowsPasses,
}
use distribu_q.History.{run, Tx, creates, cancels, replays}
use distribu_q.History.Validity.{IsValidDb, run-IsValid}

module _ (P : Tx → Type 0) where
  -- What the calls but `process_by` and `request_replay` may commit.
  pub record AllowsRest : Type 0 where
    pub adds : (id : ℕ) (n : NewJob) → P (creates id n)
    pub cancelled : (id : ℕ) → P (cancels id)
    pub passes : AllowsPasses P

  abbrev pub Allowed : Call → Type 0
  Allowed (request_replay id) = P (replays id)
  Allowed (process_by name id) = AllowsJob P id
  Allowed _ = Unit

  module _ (p : String) (rt : Runtime) (registry : Registry) (iso : ℕ → String) (rest : AllowsRest)
      (all : CommitsAll P registry) where
    pub perform-Reaches :
        (c : Call) (w : World) → Allowed c → Reaches P w.db (perform p rt registry iso c w).db
    unfolding perform
    perform-Reaches (request_job req) w h =
        (post_job-Commits P rest.adds rest.cancelled rt.croniter rt.uuid_text iso req).reaches w
    perform-Reaches (request_cancel id) w h =
        (cancel_job_by_id-Commits P rest.adds rest.cancelled rt.uuid_text id).reaches w
    perform-Reaches (request_replay id) w h =
        (replay_dead_letter_job-Commits P rest.adds rest.cancelled id h).reaches w
    perform-Reaches (reserve_with wait) w h =
        (Commits-command P (priority_reserve_job p wait)).reaches w
    perform-Reaches (process_by name id) w h =
        (process_job-Commits P rest.adds rt (worker_named p rt registry iso name) registry all id
            h).reaches
          w
    perform-Reaches promote_due w h =
        (promote_due-Commits P rest.passes default_scheduler).reaches w
    perform-Reaches wake_retries w h =
        (promote_retries-Commits P rest.passes default_scheduler).reaches w
    perform-Reaches reap_stale w h = (run_reaper-Commits P rest.passes default_scheduler).reaches w
    perform-Reaches sync_all w h = (sync_from_db-Commits P rest.passes default_scheduler).reaches w
    perform-Reaches recover_all w h = (recover-Commits P rest.passes default_reaper).reaches w
    perform-Reaches (advance now fresh rand) w h = Reaches-refl P w.db

-- Any transaction.
abbrev pub Any : Tx → Type 0
Any t = Unit

job-Any : (id : ℕ) → AllowsJob Any id
job-Any id = record {
  locked = λ w. tt;
  succeeded = λ v. tt;
  retried = λ m t. tt;
  archived = λ d m n. tt;
}

rest-Any : AllowsRest Any
rest-Any = record {
  adds = λ id n. tt;
  cancelled = λ id. tt;
  passes = record { stale = λ t. tt; due = tt; expired = λ t. tt };
}

call-Any : (c : Call) → Allowed Any c
call-Any (request_job req) = tt
call-Any (request_cancel id) = tt
call-Any (request_replay id) = tt
call-Any (reserve_with wait) = tt
call-Any (process_by name id) = job-Any id
call-Any promote_due = tt
call-Any wake_retries = tt
call-Any reap_stale = tt
call-Any sync_all = tt
call-Any recover_all = tt
call-Any (advance now fresh rand) = tt

module _ (p : String) (rt : Runtime) (registry : Registry) (iso : ℕ → String)
    (all : CommitsAll Any registry) where
  run_calls-Reaches :
      (cs : List Call) (w : World) → Reaches Any w.db (run_calls p rt registry iso cs w).db
  unfolding run_calls
  run_calls-Reaches [] w = Reaches-refl Any w.db
  run_calls-Reaches (c ∷ cs) w =
      let w1 = perform p rt registry iso c w in
      Reaches-trans Any w.db w1.db (run_calls p rt registry iso cs w1).db
        (perform-Reaches Any p rt registry iso rest-Any all c w (call-Any c))
        (run_calls-Reaches cs w1)

  -- Where each handler of the registry leaves to Postgres what some transactions leave: whatever
  -- requests, workers, schedulers and reapers do in whatever order, while Redis answers or not,
  -- there are transactions of api/db.py and worker/db.py that, run one after another, leave the
  -- same Postgres.
  pub run_calls-run :
      (cs : List Call) (w : World)
      → (ts : List (ℕ × Tx)) × ((run_calls p rt registry iso cs w).db ≡ run ts w.db)
  run_calls-run cs w = let (ts, kinds, e) = run_calls-Reaches cs w in (ts, e)

  -- Where each handler of the registry leaves to Postgres what some transactions leave, and the
  -- rows are valid and the dead letters complete at first: whatever requests, workers, schedulers
  -- and reapers do in whatever order, while Redis answers or not, the rows stay valid (lock, retry
  -- time and error as the status says), a job in DEAD_LETTER has a dead letter, the keys of the dead
  -- letters differ, and what was submitted is still there in its order, unchanged, before what came
  -- later.
  pub run_calls-IsValid :
      (cs : List Call) (w : World)
      → IsValidDb w.db
      → IsArchived w.db
      → let db' = (run_calls p rt registry iso cs w).db in
        IsValidDb db'
        × IsArchived db'
        × ((new : List Submission) × (submissions db'.jobs ≡ submissions w.db.jobs ++ new))
  run_calls-IsValid cs w valid archived =
      let (ts, e) = run_calls-run cs w in
      rw e (run-IsValid ts w.db valid, run-IsArchived ts w.db archived, submissions-run ts w.db)
