-- ===== src/Delivery.antt =====
-- The processes together: clients at the API, workers, the scheduler and the reaper act on one
-- Postgres and one Redis in any order, at the grain of their handlers and passes.
pub mod Held
pub mod Commands
pub mod Reserving
pub mod Rows
pub mod Passes
pub mod Requests
pub mod Work
pub mod Process
pub mod Runs
pub mod Stranded
pub mod Lost
pub mod Forgotten
pub mod Commits
pub mod WorkerCommits
pub mod OtherCommits
pub mod RequestCommits
pub mod DefaultCommits
pub mod Refinement
pub mod Final
pub mod Served
mod Tests
mod ServedTests
use distribu_q.Reaper.{default_reaper}
use distribu_q.Scheduler.{default_scheduler, promote_retries, run_reaper, sync_from_db}
use distribu_q.Redis.Client.{priority_reserve_job}
use distribu_q.World.{World, command}
use distribu_q.Handlers.{Registry}
use distribu_q.Redis.{Redis}
use distribu_q.Api.{JobCreateRequest, post_job, cancel_job_by_id, replay_dead_letter_job}
use distribu_q.Worker.{Runtime, Self, process_job}
use distribu_q.Base.{ℕ, String, List, [], ◌∷◌}
use distribu_q.Scheduler
use distribu_q.Reaper

pub data Call : Type 0 where
  -- POST /api/v1/jobs, POST …/cancel, POST …/replay.
  request_job : JobCreateRequest → Call
  request_cancel request_replay : ℕ → Call
  -- A worker's reservation, with what the other clients do to Redis while it waits.
  reserve_with : (Redis → Redis) → Call
  -- A worker, by its name, with a job's key.
  process_by : String → ℕ → Call
  -- The passes of the scheduler, and that of the reaper.
  promote_due wake_retries reap_stale sync_all recover_all : Call
  -- Time passes, and the generators of keys and of random numbers go on.
  advance : ℕ → ℕ → ℕ → Call

module _ (p : String) (rt : Runtime) (registry : Registry) (iso : ℕ → String) where
  abbrev pub worker_named : String → Self
  worker_named name = record { worker_id = name; processing_queue = p }

  unfoldable pub perform : Call → World → World
  perform (request_job req) w = (post_job rt.croniter rt.uuid_text iso req w).1
  perform (request_cancel id) w = (cancel_job_by_id rt.uuid_text id w).1
  perform (request_replay id) w = (replay_dead_letter_job id w).1
  perform (reserve_with wait) w = (command (priority_reserve_job p wait) w).1
  perform (process_by name id) w = (process_job rt (worker_named name) registry id w).1
  perform promote_due w = (distribu_q.Scheduler.run_once default_scheduler w).1
  perform wake_retries w = (promote_retries default_scheduler w).1
  perform reap_stale w = (run_reaper default_scheduler w).1
  perform sync_all w = (sync_from_db default_scheduler w).1
  perform recover_all w = (distribu_q.Reaper.run_once default_reaper w).1
  perform (advance now fresh rand) w = record w { now = now; fresh = fresh; rand = rand }

  unfoldable pub run_calls : List Call → World → World
  unfolding perform
  run_calls [] w = w
  run_calls (c ∷ cs) w = run_calls cs (perform c w)
