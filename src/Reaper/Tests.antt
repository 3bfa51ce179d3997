-- ===== src/Reaper/Tests.antt =====
-- The reaper at one stranded job, one due retry and one worker that has gone silent.
use distribu_q.Redis.{no_keys}
use distribu_q.Reaper.Recovery.{stranded, run_once-clears, due, run_once-requeues}
use distribu_q.Reaper.Pass.{ids, remove_each}
use mathlib.Core.List.{reverse}
use distribu_q.Jobs.{NewJob, held_by_gone, lock, job_row, is_stale, postpone_to, is_due_retry}
use distribu_q.World.{World}
use distribu_q.Workers.{mark_expired_workers_dead, is_expired}
use distribu_q.Redis.Lists.{waiting}
use distribu_q.Base.{
  update_where, select, ◌≡◌, refl, ◌≢◌, true, none, [], ◌∷◌, ◌++◌, str_eq, if◌then◌else◌,
}
use distribu_q.Schema.{alive, WorkerRow}
use distribu_q.Json.{obj, end}
use distribu_q.Base.Int.{pos}
use distribu_q.Reaper.{run_once, default_reaper}

abbrev echo_job : NewJob
echo_job = record {
  type = "echo";
  payload = obj end;
  priority = pos 0;
  max_attempts = 3;
  scheduled_for = none;
  recurrence_rule = none;
}

abbrev silent : WorkerRow
silent = record {
  id = "worker-a";
  status = alive;
  last_heartbeat = 0;
  jobs_processed = 0;
  started_at = 0;
}

abbrev after_a_crash : World
after_a_crash = record {
  db = record {
    jobs =
        lock "worker-a" 0 (job_row 1 0 echo_job) ∷ postpone_to "boom" 5 (job_row 2 0 echo_job) ∷ [];
    workers = silent ∷ [];
    dead_letters = [];
  };
  redis = record no_keys { lists = λ q. if str_eq q "queue:processing" then 1 ∷ [] else 3 ∷ [] };
  redis_up = true;
  now = 20000000;
  published = [];
  kills = [];
  jobs_processed = 0;
  fresh = 9;
  rand = 0;
  flaky_attempts = [];
}

apart : default_reaper.processing_queue ≢ default_reaper.source_queue
apart e = cc

run_once-requeues_example :
    (waiting "queue:default" (run_once default_reaper after_a_crash).1.redis
      ≡ reverse (ids (stranded default_reaper after_a_crash))
        ++ (3 ∷ [])
        ++ ids (due default_reaper after_a_crash))
    × ((run_once default_reaper after_a_crash).1.redis.lists "queue:processing"
        ≡ remove_each (ids (stranded default_reaper after_a_crash)) (1 ∷ []))
run_once-requeues_example = run_once-requeues default_reaper after_a_crash apart refl

-- The lists of jobs in the example above.
one_of_each :
    (ids (stranded default_reaper after_a_crash) ≡ 1 ∷ [])
    × (ids (due default_reaper after_a_crash) ≡ 2 ∷ [])
unfolding select mark_expired_workers_dead held_by_gone update_where
one_of_each = (refl, refl)

run_once-clears_example :
    let db = (run_once default_reaper after_a_crash).1.db in
    (select (is_expired 10 20000000) db.workers ≡ [])
    × (select (is_stale 60 20000000 db.workers) db.jobs ≡ [])
    × (select (is_due_retry 20000000) db.jobs ≡ [])
run_once-clears_example = run_once-clears default_reaper after_a_crash
