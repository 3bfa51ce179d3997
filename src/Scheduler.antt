-- ===== src/Scheduler.antt =====
-- scheduler/scheduler.py: delayed jobs, due retries, stranded jobs. The scheduler's clock
-- `time.monotonic()` is a number of microseconds.
pub mod Startup
pub mod Promotion
mod Tests
use distribu_q.Config.{
  default_queue, default_scheduled_set, worker_timeout_sec, default_visibility_timeout_sec,
}
use distribu_q.Workers.{mark_expired_workers_dead}
use distribu_q.Schema.{Job, seconds}
use distribu_q.Redis.Client.{schedule_job, promote_due_scheduled_jobs, enqueue_job}
use distribu_q.Jobs.{get_pending_scheduled_jobs, reclaim_due_retry_jobs, reclaim_stale_jobs}
use distribu_q.World.{
  ◌>>=◌, ◌>>◌, Exec, catch, command, continue, Action, attempt, pure, command_, query, gets,
  for_each,
}
use distribu_q.Base.{
  select, ℕ, ◌+◌, String, true, false, none, some, List, [], ◌∷◌, leb, if◌then◌else◌, length,
}
use distribu_q.Result.{ok}

-- The attributes of a Scheduler that do not change.
pub record Scheduler : Type 0 where
  pub target_queue : String
  pub scheduled_set : String

abbrev pub default_scheduler : Scheduler
default_scheduler = record { target_queue = default_queue; scheduled_set = default_scheduled_set }

module _ (self : Scheduler) where
  open self use {target_queue, scheduled_set}

  -- `schedule_job` of a row that has a time.
  unfoldable pub sync_job : Job → Action
  unfolding schedule_job
  sync_job j = elim j.scheduled_for [
    | none ↦ pure tt
    | some t ↦ command_ (λ r. (schedule_job j.id t scheduled_set r).0)
  ]

  -- The jobs that have a time, which the loop counts.
  abbrev pub timed : List Job → ℕ
  timed jobs = length (select (λ j. elim j.scheduled_for [ none ↦ false | some _ ↦ true ]) jobs)

  unfoldable pub sync_from_db : Exec ℕ
  unfolding sync_job get_pending_scheduled_jobs
  sync_from_db =
      catch
        (do
          pending_jobs ← gets (λ w. get_pending_scheduled_jobs w.db)
          for_each sync_job pending_jobs
          pure (timed pending_jobs))
        (λ _. pure 0)

  unfoldable pub run_once : Exec (List ℕ)
  unfolding promote_due_scheduled_jobs
  run_once w = command (promote_due_scheduled_jobs target_queue scheduled_set w.now) w

  unfoldable pub promote_retries : Exec ℕ
  unfolding reclaim_due_retry_jobs enqueue_job
  promote_retries =
      catch
        (do
          due_retries ← query (λ w. reclaim_due_retry_jobs w.now)
          for_each (λ j. command_ (λ r. (enqueue_job j.id j.priority none r).0)) due_retries
          pure (length due_retries))
        (λ _. pure 0)

  unfoldable pub run_reaper : Action
  unfolding mark_expired_workers_dead reclaim_stale_jobs enqueue_job
  run_reaper = attempt (do
    query (λ w. mark_expired_workers_dead worker_timeout_sec w.now)
    stale_jobs ← query (λ w. reclaim_stale_jobs default_visibility_timeout_sec w.now)
    for_each (λ j. command_ (λ r. (enqueue_job j.id j.priority none r).0)) stale_jobs)

  -- The reaper's part of a round, at the monotonic time `mono`; the answer is `_last_reaper_run`.
  unfoldable pub reap : ℕ → ℕ → Exec ℕ
  unfolding run_reaper
  reap last mono = if leb (last + seconds 5) mono then (do run_reaper; pure mono) else pure last

  -- One round of the loop in `start`: an exception is logged, and the loop goes on.
  unfoldable pub round : ℕ → ℕ → Exec ℕ
  unfolding run_once promote_retries reap
  round last mono = catch (do run_once; promote_retries; reap last mono) (λ _. pure last)

  -- `start` up to the loop's exit, where its rounds are at the given monotonic times.
  unfoldable pub rounds : ℕ → List ℕ → Exec ℕ
  unfolding round
  rounds last [] w = (ok last, w)
  rounds last (mono ∷ ms) w =
      continue (λ last'. rounds last' ms) (round last mono w).0 (round last mono w).1

  unfoldable pub start : List ℕ → Exec ℕ
  unfolding sync_from_db rounds
  start times = do sync_from_db; rounds 0 times
