-- ===== src/Delivery/Lost.antt =====
-- A job that a worker reserved and did not lock before it died.
use distribu_q.Reaper.Pass.{run_once-up}
use distribu_q.Reaper.{default_reaper}
use distribu_q.Workers.{mark_expired_workers_dead}
use distribu_q.Scheduler.Startup.{sync_row, sync_from_db-up}
use distribu_q.World.Loops.{each}
use distribu_q.Scheduler.Promotion.{promote_retries-up, run_reaper-up}
use distribu_q.Redis.Schedule.{elem-up_to}
use distribu_q.Config.{
  default_scheduled_set, default_queue, default_visibility_timeout_sec, default_processing_queue,
}
use distribu_q.Redis.{up_to, Redis, lpush, lrem_first}
use distribu_q.Delivery.Stranded.{
  Absent, promote_each-Spares, each-Spares, lpush-Spares, Spares, zadd-Spares, rpush-Spares,
  lrem_first-Spares,
}
use distribu_q.Jobs.Lookup.{HasKeys, HasKeys-update_where, job_of-update_miss}
use distribu_q.Delivery.Rows.{absent, is_pending}
use distribu_q.Scheduler.{default_scheduler, promote_retries, run_reaper, sync_from_db}
use distribu_q.Jobs.{
  reclaim_due_retry_jobs, is_due_retry, DueRetry, due_columns, release, reclaim_stale_jobs,
  get_pending_scheduled_jobs, is_stale, is_scheduled, ReclaimedJob, reclaimed_columns,
}
use distribu_q.Redis.Client.{
  promote_due_scheduled_jobs, enqueue_job, queue_of, schedule_job, requeue_job,
}
use distribu_q.World.{World}
use distribu_q.Base.{
  select, find_row, ℕ, ◌≡◌, refl, ap, ◌∙◌, Bool, true, false, none, some, List, [], ◌∷◌, map, arith,
  ◌==◌, All, inl, inr, Option-cases,
}
use distribu_q.Schema.{
  pending, running, success, failed, retrying, dead_letter, JobStatus, Job, is_status, update_jobs,
  job_of, update_updated_at_column, has_id,
}
use distribu_q.Scheduler
use distribu_q.Scheduler.Promotion
use distribu_q.Reaper
use distribu_q.Reaper.Pass

-- A PENDING row without a time, whose key is in no queue and not among the delayed jobs.
pub record IsLost (id : ℕ) (j : Job) (w : World) : Type 0 where
  pub keys : HasKeys w.db.jobs
  pub found : job_of id w.db ≡ some j
  pub waits : is_pending j ≡ true
  pub untimed : j.scheduled_for ≡ none
  pub absent_key : Absent id w.redis
  pub up : w.redis_up ≡ true

pending-not :
    (s : JobStatus)
    → is_status s pending ≡ true
    → (is_status s running ≡ false) × (is_status s retrying ≡ false)
pending-not pending e = (refl, refl)
pending-not running e = absurd (ground arith)
pending-not success e = absurd (ground arith)
pending-not failed e = absurd (ground arith)
pending-not retrying e = absurd (ground arith)
pending-not dead_letter e = absurd (ground arith)

All-into_map {ℓ κ μ} :
    {A : Type ℓ} {B : Type κ} (P : B → Type μ) (g : A → B) (xs : List A)
    → All (λ a. P (g a)) xs
    → All P (map g xs)
All-into_map P g [] all = tt
All-into_map P g (x ∷ xs) all = (all.0, All-into_map P g xs all.1)

module _ (id : ℕ) (j : Job) where
  -- An update that the row escapes, with commands on other keys.
  still :
      (w v : World) (q : Job → Bool) (f : Job → Job)
      → ((k : Job) → (f k).id ≡ k.id)
      → q j ≡ false
      → v.db.jobs ≡ (update_jobs w.now q f w.db).jobs
      → Absent id v.redis
      → v.redis_up ≡ true
      → IsLost id j w
      → IsLost id j v
  still w v q f keep misses jobs out up t = record {
    keys =
        rw jobs (
          HasKeys-update_where q (λ k. update_updated_at_column w.now (f k)) w.db.jobs keep t.keys);
    found =
        ap (find_row (has_id id)) jobs
        ∙ job_of-update_miss id w.now q f w.db (λ k. ap (λ i. i == id) (keep k)) j t.found misses;
    waits = t.waits;
    untimed = t.untimed;
    absent_key = out;
    up = up;
  }

  other_keys :
      (w : World) (q : Job → Bool)
      → q j ≡ false
      → IsLost id j w
      → All (λ k. (k.id == id) ≡ false) (select q w.db.jobs)
  other_keys w q misses t = absent q id w.db.jobs j t.keys t.found misses

  pub promote_due-IsLost :
      (w : World)
      → IsLost id j w
      → IsLost id j (distribu_q.Scheduler.run_once default_scheduler w).1
  unfolding distribu_q.Scheduler.run_once promote_due_scheduled_jobs
  promote_due-IsLost w t =
      let due = up_to w.now (w.redis.zsets default_scheduled_set) in
      rw t.up (record {
        keys = t.keys;
        found = t.found;
        waits = t.waits;
        untimed = t.untimed;
        absent_key =
            promote_each-Spares id default_queue due
              (elem-up_to id w.now (w.redis.zsets default_scheduled_set) t.absent_key.1) w.redis
              t.absent_key;
        up = refl;
      })

  pub wake_retries-IsLost :
      (w : World) → IsLost id j w → IsLost id j (promote_retries default_scheduler w).1
  unfolding reclaim_due_retry_jobs enqueue_job
  wake_retries-IsLost w t =
      let misses : is_due_retry w.now j ≡ false = rw (pending-not j.status t.waits).1 refl in
      let f : DueRetry → Redis → Redis = λ d r. (enqueue_job d.id d.priority none r).0 in
      let ds = distribu_q.Scheduler.Promotion.woken default_scheduler w in
      let out =
        each-Spares id f (λ d. d.id) ds (λ d ne. lpush-Spares id (queue_of d.priority) d.id ne)
          (All-into_map (λ d. (d.id == id) ≡ false) (λ k. due_columns (release pending k))
            (select (is_due_retry w.now) w.db.jobs) (other_keys w (is_due_retry w.now) misses t))
          w.redis t.absent_key in
      rw (promote_retries-up default_scheduler w t.up) (
        still w
          (record w {
            db = distribu_q.Scheduler.Promotion.woken_db default_scheduler w;
            redis = each f ds w.redis;
          })
          (is_due_retry w.now) (release pending) (λ k. refl) misses refl out t.up t)

  pub sync_all-IsLost :
      (w : World) → IsLost id j w → IsLost id j (sync_from_db default_scheduler w).1
  unfolding sync_row schedule_job get_pending_scheduled_jobs
  sync_all-IsLost w t =
      let misses : is_scheduled j ≡ false = rw (t.untimed, t.waits) refl in
      let f = sync_row default_scheduler in
      let spares : (k : Job) → (k.id == id) ≡ false → Spares id (f k) = λ k ne r a.
        elim (Option-cases k.scheduled_for) [
          | inl e ↦ rw e a
          | inr (at, e) ↦ rw e (zadd-Spares id k.id at ne r a)
        ] in
      rw (sync_from_db-up default_scheduler w t.up) (record {
        keys = t.keys;
        found = t.found;
        waits = t.waits;
        untimed = t.untimed;
        absent_key =
            each-Spares id f (λ k. k.id) (select is_scheduled w.db.jobs) spares
              (other_keys w is_scheduled misses t) w.redis t.absent_key;
        up = t.up;
      })

  pub reap_stale-IsLost :
      (w : World) → IsLost id j w → IsLost id j (run_reaper default_scheduler w).1
  unfolding reclaim_stale_jobs mark_expired_workers_dead enqueue_job
  reap_stale-IsLost w t =
      let q =
        is_stale default_visibility_timeout_sec w.now
          (distribu_q.Scheduler.Promotion.expired_db default_scheduler w).workers in
      let misses : q j ≡ false = rw (pending-not j.status t.waits).0 refl in
      let f : ReclaimedJob → Redis → Redis = λ d r. (enqueue_job d.id d.priority none r).0 in
      let ds = distribu_q.Scheduler.Promotion.reclaimed default_scheduler w in
      let out =
        each-Spares id f (λ d. d.id) ds (λ d ne. lpush-Spares id (queue_of d.priority) d.id ne)
          (All-into_map (λ d. (d.id == id) ≡ false) (λ k. reclaimed_columns (release pending k))
            (select q w.db.jobs) (other_keys w q misses t))
          w.redis t.absent_key in
      rw (run_reaper-up default_scheduler w t.up) (
        still w
          (record w {
            db = distribu_q.Scheduler.Promotion.reclaimed_db default_scheduler w;
            redis = each f ds w.redis;
          })
          q (release pending) (λ k. refl) misses refl out t.up t)

  pub recover_all-IsLost :
      (w : World) → IsLost id j w → IsLost id j (distribu_q.Reaper.run_once default_reaper w).1
  unfolding reclaim_stale_jobs reclaim_due_retry_jobs mark_expired_workers_dead requeue_job
  recover_all-IsLost w t =
      let q =
        is_stale default_visibility_timeout_sec w.now
          (distribu_q.Reaper.Pass.expired_db default_reaper w).workers in
      let misses : q j ≡ false = rw (pending-not j.status t.waits).0 refl in
      let f : ReclaimedJob → Redis → Redis =
        λ d r. requeue_job d.id default_processing_queue default_queue r in
      let g : DueRetry → Redis → Redis = λ d r. (lpush default_queue d.id r).0 in
      let js = distribu_q.Reaper.Pass.reclaimed default_reaper w in
      let ds = distribu_q.Reaper.Pass.woken default_reaper w in
      let r1 = each f js w.redis in
      let out1 =
        each-Spares id f (λ d. d.id) js
          (λ d ne r a.
            rpush-Spares id default_queue d.id ne (lrem_first default_processing_queue d.id r).0
              (lrem_first-Spares id default_processing_queue d.id ne r a))
          (All-into_map (λ d. (d.id == id) ≡ false) (λ k. reclaimed_columns (release pending k))
            (select q w.db.jobs) (other_keys w q misses t))
          w.redis t.absent_key in
      let w1 : World = record w {
        db = distribu_q.Reaper.Pass.reclaimed_db default_reaper w;
        redis = r1;
      } in
      let t1 : IsLost id j w1 =
        still w w1 q (release pending) (λ k. refl) misses refl out1 t.up t in
      let idle : is_due_retry w.now j ≡ false = rw (pending-not j.status t.waits).1 refl in
      let out2 =
        each-Spares id g (λ d. d.id) ds (λ d ne. lpush-Spares id default_queue d.id ne)
          (All-into_map (λ d. (d.id == id) ≡ false) (λ k. due_columns (release pending k))
            (select (is_due_retry w.now) w1.db.jobs) (other_keys w1 (is_due_retry w.now) idle t1))
          r1 out1 in
      rw (run_once-up default_reaper w t.up) (
        still w1
          (record w1 {
            db = distribu_q.Reaper.Pass.woken_db default_reaper w;
            redis = each g ds r1;
          })
          (is_due_retry w.now) (release pending) (λ k. refl) idle refl out2 t.up t1)
