-- ===== src/Reaper.antt =====
-- worker/reaper.py: one pass over dead workers, stranded jobs and due retries. The statements of a
-- pass follow one another here; what other clients commit between them is the matter of History.
pub mod Pass
pub mod Recovery
mod Tests
use distribu_q.Result.{ok}
use distribu_q.Jobs.{reclaim_stale_jobs, ReclaimedJob, DueRetry, reclaim_due_retry_jobs}
use distribu_q.Redis.Client.{requeue_job}
use distribu_q.World.{◌>>=◌, ◌>>◌, continue, Action, attempt, for_each, command_, Exec, query, pure}
use distribu_q.Workers.{mark_expired_workers_dead}
use distribu_q.Redis.{lpush}
use distribu_q.Config.{
  default_visibility_timeout_sec, worker_timeout_sec, default_queue, default_processing_queue,
}
use distribu_q.Base.{ℕ, String, List, Bool, [], ◌∷◌, if◌then◌else◌}

-- The attributes of a Reaper that do not change.
pub record Reaper : Type 0 where
  pub visibility_timeout_sec : ℕ
  pub heartbeat_timeout_sec : ℕ
  pub source_queue : String
  pub processing_queue : String

abbrev pub default_reaper : Reaper
default_reaper = record {
  visibility_timeout_sec = default_visibility_timeout_sec;
  heartbeat_timeout_sec = worker_timeout_sec;
  source_queue = default_queue;
  processing_queue = default_processing_queue;
}

module _ (self : Reaper) where
  open self use {visibility_timeout_sec, heartbeat_timeout_sec, source_queue, processing_queue}

  -- The loop over the reclaimed jobs.
  unfoldable pub requeue_each : List ReclaimedJob → Action
  unfolding requeue_job
  requeue_each =
      for_each (λ j. attempt (command_ (λ r. requeue_job j.id processing_queue source_queue r)))

  -- The loop over the due retries.
  unfoldable pub push_each : List DueRetry → Action
  unfolding lpush
  push_each = for_each (λ j. attempt (command_ (λ r. (lpush source_queue j.id r).0)))

  unfoldable pub run_once : Exec (List ReclaimedJob)
  unfolding mark_expired_workers_dead reclaim_stale_jobs reclaim_due_retry_jobs requeue_each
      push_each
  run_once = do
    query (λ w. mark_expired_workers_dead heartbeat_timeout_sec w.now)
    reclaimed ← query (λ w. reclaim_stale_jobs visibility_timeout_sec w.now)
    requeue_each reclaimed
    due_retries ← query (λ w. reclaim_due_retry_jobs w.now)
    push_each due_retries
    pure reclaimed

  -- One round of `_loop`: an exception is logged.
  unfoldable pub round : Action
  unfolding run_once
  round = attempt (do run_once; pure tt)

  -- `start` and `_loop`, without the waits: each element is `self.running` before one more round.
  unfoldable pub reap_loop : List Bool → Action
  unfolding round
  reap_loop [] w = (ok tt, w)
  reap_loop (still ∷ rest) w =
      let next = continue (λ _. reap_loop rest) (round w).0 (round w).1 in
      if still then next else (ok tt, w)
