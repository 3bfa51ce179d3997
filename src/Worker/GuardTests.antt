-- ===== src/Worker/GuardTests.antt =====
-- A worker that reserves a job that runs already, one that waits, and the life of a worker.
use distribu_q.Written.{held}
use distribu_q.Events.{emit_job_status_changed}
use distribu_q.Heartbeat.Liveness.{worker_of}
use distribu_q.Heartbeat.{beat}
use distribu_q.Redis.{Redis, rpoplpush}
use distribu_q.Worker.Guard.{process_job-skips, process_job-works}
use distribu_q.Jobs.{job_row, locked_columns}
use distribu_q.Worker.Tests.{world_of, here, echoed, worker_a, handlers, job_request}
use distribu_q.Worker.{process_job, acknowledge, work, serve, serve_one, kill_subscriber, shutdown}
use distribu_q.Jobs.Lookup.{HasKeys}
use distribu_q.Schema.{job_of, Job, dead, WorkerRow}
use distribu_q.World.{World}
use distribu_q.Base.{find_row, ◌≡◌, refl, some, Bool, List, [], ◌∷◌, update_where}
use distribu_q.Json.{obj, end, truthy}
use distribu_q.Worker.{start}

abbrev fresh_job : Job
fresh_job = job_row 7 100 (job_request "echo" (obj end))

echoed-HasKeys : HasKeys (world_of echoed).db.jobs
unfolding find_row
echoed-HasKeys = (refl, tt)

echoed_found : job_of 7 (world_of echoed).db ≡ some echoed
unfolding find_row
echoed_found = refl

fresh-HasKeys : HasKeys (world_of fresh_job).db.jobs
unfolding find_row
fresh-HasKeys = (refl, tt)

fresh_found : job_of 7 (world_of fresh_job).db ≡ some fresh_job
unfolding find_row
fresh_found = refl

process_job-skips_example :
    process_job here worker_a handlers 7 (world_of echoed)
    ≡ acknowledge here worker_a handlers 7 (world_of echoed)
process_job-skips_example =
    process_job-skips here worker_a handlers 7 (world_of echoed) echoed echoed-HasKeys echoed_found
      refl

process_job-works_example :
    (w2 : World) × (job_of 7 w2.db ≡ some (held 1000 "worker-a" fresh_job))
    × (w2.redis ≡ (world_of fresh_job).redis)
    × (process_job here worker_a handlers 7 (world_of fresh_job)
        ≡ work here worker_a handlers (locked_columns (held 1000 "worker-a" fresh_job)) w2)
process_job-works_example =
    process_job-works here worker_a handlers 7 (world_of fresh_job) fresh_job fresh-HasKeys
      fresh_found refl

-- A turn that serves the job, and one at which the worker has been told to stop.
abbrev two_turns : List (Bool × (Redis → Redis))
two_turns = (Bool.true, λ q. q) ∷ (kill_subscriber ("kill" ∷ []), λ q. q) ∷ []

abbrev left_row : WorkerRow
left_row = record {
  id = "worker-a";
  status = dead;
  last_heartbeat = 1000;
  jobs_processed = 4;
  started_at = 1000;
}

left :
    worker_of "worker-a" (start here worker_a handlers two_turns (world_of fresh_job)).1.db
    ≡ some left_row
unfolding start serve serve_one beat shutdown find_row rpoplpush emit_job_status_changed truthy
    update_where kill_subscriber
left = refl
