-- ===== src/Scheduler/Tests.antt =====
-- The scheduler at a delayed job, a due retry of high priority and a stranded job of low priority.
use distribu_q.Written.{freed}
use distribu_q.Scheduler.Startup.{sync_from_db-promotes}
use distribu_q.Redis.{no_keys}
use distribu_q.Redis.Client.{promote_due_scheduled_jobs}
use distribu_q.Redis.Tiers.{tiers, IsOutside}
use distribu_q.World.{World}
use distribu_q.Redis.Schedule.{elem}
use distribu_q.Schema.{Job, job_of, empty}
use distribu_q.Jobs.Lookup.{HasKeys}
use distribu_q.Jobs.{is_due_retry, NewJob, lock, job_row, postpone_to, held_by_gone}
use distribu_q.Base.{
  select, find_row, ℕ, String, ◌≡◌, refl, true, false, Option, none, some, [], ◌∷◌, length,
  update_where,
}
use distribu_q.Result.{ok}
use distribu_q.Json.{obj, end}
use distribu_q.Base.Int.{pos, negsuc, ℤ}
use distribu_q.Scheduler.{run_reaper, default_scheduler, promote_retries, sync_from_db}
use distribu_q.Scheduler.Promotion.{
  due_rows, freed_db, put_rows, promote_retries_lem, promote_retries-down, run_reaper_lem,
}

abbrev job_of_priority : ℤ → Option ℕ → NewJob
job_of_priority p t = record {
  type = "echo";
  payload = obj end;
  priority = p;
  max_attempts = 3;
  scheduled_for = t;
  recurrence_rule = none;
}

abbrev delayed : Job
delayed = job_row 1 0 (job_of_priority (pos 0) (some 500))

abbrev stalled : Job
stalled = lock "worker-a" 0 (job_row 3 0 (job_of_priority (negsuc 0) none))

abbrev scene : World
scene = record {
  db = record empty {
    jobs =
        delayed ∷ postpone_to "boom" 5 (job_row 2 0 (job_of_priority (pos 9) none)) ∷ stalled ∷ [];
  };
  redis = no_keys;
  redis_up = true;
  now = 100000000;
  published = [];
  kills = [];
  jobs_processed = 0;
  fresh = 9;
  rand = 0;
  flaky_attempts = [];
}

scene-HasKeys : HasKeys scene.db.jobs
unfolding find_row
scene-HasKeys = (refl, (refl, (refl, tt)))

delayed_found : job_of 1 scene.db ≡ some delayed
unfolding find_row
delayed_found = refl

sync_from_db-promotes_example :
    elem 1
      (promote_due_scheduled_jobs "queue:default" "zset:scheduled" 600
        (sync_from_db default_scheduler scene).1.redis).1
    ≡ true
sync_from_db-promotes_example =
    sync_from_db-promotes default_scheduler 1 500 600 "queue:default" delayed scene scene-HasKeys
      refl delayed_found refl refl

abbrev due_job : Job
due_job = postpone_to "boom" 5 (job_row 2 0 (job_of_priority (pos 9) none))

promote_retries_lem_example :
    ((promote_retries default_scheduler scene).0 ≡ ok (length (due_rows default_scheduler scene)))
    × ((promote_retries default_scheduler scene).1.db ≡ freed_db default_scheduler scene)
    × (tiers (promote_retries default_scheduler scene).1.redis
        ≡ put_rows (due_rows default_scheduler scene) (tiers no_keys))
    × (select (is_due_retry 100000000) (promote_retries default_scheduler scene).1.db.jobs ≡ [])
promote_retries_lem_example = promote_retries_lem default_scheduler scene refl

abbrev offline : World
offline = record scene { redis_up = false }

one_due : due_rows default_scheduler offline ≡ due_job ∷ []
unfolding select
one_due = refl

promote_retries-down_example :
    (promote_retries default_scheduler offline ≡ (
      ok 0,
      record offline {
        db = record empty { jobs = delayed ∷ freed 100000000 due_job ∷ stalled ∷ [] };
      },
    ))
    × (select (is_due_retry 100000000) (promote_retries default_scheduler offline).1.db.jobs ≡ [])
unfolding update_where
promote_retries-down_example =
    promote_retries-down default_scheduler offline due_job [] one_due refl

run_reaper_lem_example :
    ((run_reaper default_scheduler scene).1.db
      ≡ record empty { jobs = delayed ∷ due_job ∷ freed 100000000 stalled ∷ [] })
    × (tiers (run_reaper default_scheduler scene).1.redis ≡ put_rows (stalled ∷ []) (tiers no_keys))
    × ((k : String) → IsOutside k → (run_reaper default_scheduler scene).1.redis.lists k ≡ [])
unfolding update_where select held_by_gone
run_reaper_lem_example = run_reaper_lem default_scheduler scene refl
