-- ===== src/Scheduler/Promotion.antt =====
-- What the scheduler does with due retries and with stranded jobs.
use distribu_q.Written.{freed}
use distribu_q.Workers.{mark_expired_workers_dead, is_expired}
use distribu_q.Config.{
  default_visibility_timeout_sec, worker_timeout_sec, default_queue, high_queue, low_queue,
}
use distribu_q.Base.Int.{pos, negsuc, ℤ}
use distribu_q.Schema.{pending, Db, update_updated_at_column, dead, WorkerRow, Job}
use distribu_q.Redis.Client.{enqueue_job}
use distribu_q.World.Loops.{each, for_each-command}
use distribu_q.World.{World}
use distribu_q.Redis.{Redis, lpush}
use distribu_q.Redis.Tiers.{Tiers, put_job, tiers, tiers-enqueue_job, IsOutside}
use distribu_q.Jobs.{
  DueRetry, ReclaimedJob, reclaim_due_retry_jobs, is_due_retry, reclaim_stale_jobs, release,
  due_columns, reclaimed_columns, is_stale,
}
use distribu_q.Scheduler.{Scheduler, promote_retries, run_reaper}
use distribu_q.Base.{
  ◌≡◌, refl, ap, ◌∙◌, true, none, List, [], ◌∷◌, length, select, select-update_where, ℕ, zero, suc,
  String, false, arith, eq_iff, inl, inr, List-cases, Bool-cases, update_where, Bool, map,
}
use distribu_q.Result.{ok}

-- The tiers once each job has been enqueued by its priority, in turn.
abbrev pub put_retries : List DueRetry → Tiers → Tiers
put_retries [] t = t
put_retries (d ∷ ds) t = put_retries ds (put_job d.id d.priority t)

abbrev pub put_stale : List ReclaimedJob → Tiers → Tiers
put_stale [] t = t
put_stale (j ∷ js) t = put_stale js (put_job j.id j.priority t)

-- The tiers once the jobs of these rows are at the ends of the tiers of their priorities, in turn.
abbrev pub put_rows : List Job → Tiers → Tiers
put_rows [] t = t
put_rows (j ∷ js) t = put_rows js (put_job j.id j.priority t)

put_retries-rows :
    (js : List Job) (t : Tiers)
    → put_retries (map (λ j. due_columns (release pending j)) js) t ≡ put_rows js t
put_retries-rows [] t = refl
put_retries-rows (j ∷ js) t = put_retries-rows js (put_job j.id j.priority t)

put_stale-rows :
    (js : List Job) (t : Tiers)
    → put_stale (map (λ j. reclaimed_columns (release pending j)) js) t ≡ put_rows js t
put_stale-rows [] t = refl
put_stale-rows (j ∷ js) t = put_stale-rows js (put_job j.id j.priority t)

length-map {ℓ κ} :
    {A : Type ℓ} {B : Type κ} (f : A → B) (xs : List A) → length (map f xs) ≡ length xs
length-map f [] = refl
length-map f (x ∷ xs) = ap suc (length-map f xs)

lists-enqueue_job :
    (id : ℕ) (priority : ℤ) (r : Redis) (k : String)
    → IsOutside k
    → (enqueue_job id priority none r).0.lists k ≡ r.lists k
unfolding enqueue_job lpush
lists-enqueue_job id (pos zero) r k h = ground (arith, eq_iff default_queue k, h.not_default)
lists-enqueue_job id (pos (suc n)) r k h = ground (arith, eq_iff high_queue k, h.not_high)
lists-enqueue_job id (negsuc n) r k h = ground (arith, eq_iff low_queue k, h.not_low)

tiers-retries :
    (ds : List DueRetry) (r : Redis)
    → tiers (each (λ j r'. (enqueue_job j.id j.priority none r').0) ds r) ≡ put_retries ds (tiers r)
tiers-retries [] r = refl
tiers-retries (d ∷ ds) r =
    tiers-retries ds (enqueue_job d.id d.priority none r).0
    ∙ ap (put_retries ds) (tiers-enqueue_job d.id d.priority r)

tiers-stale :
    (js : List ReclaimedJob) (r : Redis)
    → tiers (each (λ j r'. (enqueue_job j.id j.priority none r').0) js r) ≡ put_stale js (tiers r)
tiers-stale [] r = refl
tiers-stale (j ∷ js) r =
    tiers-stale js (enqueue_job j.id j.priority none r).0
    ∙ ap (put_stale js) (tiers-enqueue_job j.id j.priority r)

lists-stale :
    (js : List ReclaimedJob) (r : Redis) (k : String)
    → IsOutside k
    → (each (λ j r'. (enqueue_job j.id j.priority none r').0) js r).lists k ≡ r.lists k
lists-stale [] r k h = refl
lists-stale (j ∷ js) r k h =
    lists-stale js (enqueue_job j.id j.priority none r).0 k h
    ∙ lists-enqueue_job j.id j.priority r k h

module _ (self : Scheduler) (w : World) where
  -- The rows that `promote_retries` wakes, and the database then.
  abbrev pub woken : List DueRetry
  woken = (reclaim_due_retry_jobs w.now w.db).1

  abbrev pub woken_db : Db
  woken_db = (reclaim_due_retry_jobs w.now w.db).0

  pub promote_retries-up :
      w.redis_up ≡ true
      → promote_retries self w ≡ (
        ok (length woken),
        record w {
          db = woken_db;
          redis = each (λ j r'. (enqueue_job j.id j.priority none r').0) woken w.redis;
        },
      )
  unfolding promote_retries
  promote_retries-up up =
      rw
        (for_each-command (λ j r. (enqueue_job j.id j.priority none r).0) woken
          (record w { db = woken_db }) up)
        refl

  none_due : select (is_due_retry w.now) woken_db.jobs ≡ []
  unfolding reclaim_due_retry_jobs
  none_due =
      select-update_where (is_due_retry w.now)
        (λ j. update_updated_at_column w.now (release pending j)) w.db.jobs (λ j e. refl)

  -- The rows whose retry is due, and the table once they are PENDING.
  abbrev pub due_rows : List Job
  due_rows = select (is_due_retry w.now) w.db.jobs

  abbrev pub freed_db : Db
  freed_db = record w.db { jobs = update_where (is_due_retry w.now) (freed w.now) w.db.jobs }

  woken-rows : length woken ≡ length due_rows
  unfolding reclaim_due_retry_jobs
  woken-rows = length-map (λ j. due_columns (release pending j)) due_rows

  tiers-woken : (t : Tiers) → put_retries woken t ≡ put_rows due_rows t
  unfolding reclaim_due_retry_jobs
  tiers-woken t = put_retries-rows due_rows t

  woken-freed : woken_db ≡ freed_db
  unfolding reclaim_due_retry_jobs
  woken-freed = refl

  -- While Redis answers, `promote_retries` makes each row PENDING that is RETRYING with a time that
  -- has come, and changes no other row; it puts the keys of these rows at the ends of the tiers of
  -- their priorities, in the order of the rows, and returns how many there were; no retry is due
  -- then.
  pub promote_retries_lem :
      w.redis_up ≡ true
      → let w' = (promote_retries self w).1 in
        ((promote_retries self w).0 ≡ ok (length due_rows))
        × (w'.db ≡ freed_db)
        × (tiers w'.redis ≡ put_rows due_rows (tiers w.redis))
        × (select (is_due_retry w.now) w'.db.jobs ≡ [])
  promote_retries_lem up =
      let e = promote_retries-up up in
      (
        ap (λ r. r.0) e ∙ ap ok woken-rows,
        ap (λ r. r.1.db) e ∙ woken-freed,
        ap (λ r. tiers r.1.redis) e ∙ tiers-retries woken w.redis ∙ tiers-woken (tiers w.redis),
        ap (λ r. select (is_due_retry w.now) r.1.db.jobs) e ∙ none_due,
      )

  -- Whether Redis answers or not, the due rows are woken, and nothing else but Redis changes.
  pub promote_retries-world :
      (r : Redis) × ((promote_retries self w).1 ≡ record w { db = woken_db; redis = r })
  unfolding promote_retries
  promote_retries-world = elim (Bool-cases w.redis_up) [
    | inl up ↦ (_, ap (λ x. x.1) (promote_retries-up up))
    | inr down ↦ elim (List-cases woken) [
      | inl e ↦ (w.redis, rw (e, down, promote_retries) refl)
      | inr (d, ds, e) ↦ (w.redis, rw (e, down, promote_retries) refl)
    ]
  ]

  -- While Redis does not answer and a retry is due, `promote_retries` makes each row PENDING all the
  -- same that is RETRYING with a time that has come, changes nothing else, so that it puts none into
  -- a queue, and returns zero; no retry is due any more.
  pub promote_retries-down :
      (j : Job) (js : List Job)
      → due_rows ≡ j ∷ js
      → w.redis_up ≡ false
      → (promote_retries self w ≡ (ok 0, record w { db = freed_db }))
        × (select (is_due_retry w.now) (promote_retries self w).1.db.jobs ≡ [])
  unfolding promote_retries reclaim_due_retry_jobs
  promote_retries-down j js some_due down =
      let e : promote_retries self w ≡ (ok 0, record w { db = freed_db }) =
        rw (some_due, down, promote_retries) refl in
      (e, ap (λ r. select (is_due_retry w.now) r.1.db.jobs) e ∙ none_due)

  abbrev pub expired_db : Db
  expired_db = (mark_expired_workers_dead worker_timeout_sec w.now w.db).0

  abbrev pub reclaimed : List ReclaimedJob
  reclaimed = (reclaim_stale_jobs default_visibility_timeout_sec w.now expired_db).1

  abbrev pub reclaimed_db : Db
  reclaimed_db = (reclaim_stale_jobs default_visibility_timeout_sec w.now expired_db).0

  pub run_reaper-up :
      w.redis_up ≡ true
      → run_reaper self w ≡ (
        ok tt,
        record w {
          db = reclaimed_db;
          redis = each (λ j r'. (enqueue_job j.id j.priority none r').0) reclaimed w.redis;
        },
      )
  unfolding run_reaper
  run_reaper-up up =
      rw
        (for_each-command (λ j r. (enqueue_job j.id j.priority none r).0) reclaimed
          (record w { db = reclaimed_db }) up)
        refl

  -- The workers once the expired ones are dead, the rows that are stranded then, and the database
  -- that the pass leaves.
  abbrev pub present : List WorkerRow
  present =
      update_where (is_expired worker_timeout_sec w.now) (λ r. record r { status = dead })
        w.db.workers

  abbrev pub stranded : Job → Bool
  stranded = is_stale default_visibility_timeout_sec w.now present

  abbrev pub recovered_db : Db
  recovered_db = record w.db {
    jobs = update_where stranded (freed w.now) w.db.jobs;
    workers = present;
  }

  reclaimed-recovered : reclaimed_db ≡ recovered_db
  unfolding reclaim_stale_jobs mark_expired_workers_dead
  reclaimed-recovered = refl

  tiers-reclaimed : (t : Tiers) → put_stale reclaimed t ≡ put_rows (select stranded w.db.jobs) t
  unfolding reclaim_stale_jobs mark_expired_workers_dead
  tiers-reclaimed t = put_stale-rows (select stranded w.db.jobs) t

  -- While Redis answers, the scheduler's reaper marks the workers dead whose heartbeat has expired,
  -- makes each row PENDING that is RUNNING with a lock that is too old or held by a dead worker, and
  -- changes no other row; it puts the keys of these rows at the ends of the tiers of their priorities,
  -- in the order of the rows; every list but the three queues stays as it is, so the entries of these
  -- jobs in the processing lists stay too.
  pub run_reaper_lem :
      w.redis_up ≡ true
      → let w' = (run_reaper self w).1 in
        (w'.db ≡ recovered_db)
        × (tiers w'.redis ≡ put_rows (select stranded w.db.jobs) (tiers w.redis))
        × ((k : String) → IsOutside k → w'.redis.lists k ≡ w.redis.lists k)
  run_reaper_lem up =
      let e = run_reaper-up up in
      (
        ap (λ r. r.1.db) e ∙ reclaimed-recovered,
        ap (λ r. tiers r.1.redis) e
            ∙ tiers-stale reclaimed w.redis
            ∙ tiers-reclaimed (tiers w.redis),
        λ k h. ap (λ r. r.1.redis.lists k) e ∙ lists-stale reclaimed w.redis k h,
      )
