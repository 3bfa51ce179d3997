-- ===== src/Delivery/Passes.antt =====
-- The passes of the schedulers and the reapers leave every PENDING job's key in Redis.
-- What a process relies on and what it keeps: the keys, while Redis answers.
use distribu_q.Config.{default_visibility_timeout_sec}
use distribu_q.Reaper.{Reaper}
use distribu_q.Workers.{mark_expired_workers_dead}
use distribu_q.Scheduler
use distribu_q.Reaper
use distribu_q.Reaper.Pass
use distribu_q.Reaper.Pass.{run_once-up}
use distribu_q.Scheduler.Promotion
use distribu_q.Scheduler.Promotion.{promote_retries-up, run_reaper-up}
use distribu_q.Delivery.Commands.{
  lpush-Held, lpush-Keeps, zadd-Keeps, promote_each-Keeps, requeue_job-Keeps, rpush-Held,
}
use distribu_q.Scheduler.{Scheduler, sync_from_db, promote_retries, default_scheduler, run_reaper}
use distribu_q.World.Loops.{each}
use distribu_q.Scheduler.Startup.{sync_row, sync_from_db-up}
use distribu_q.Jobs.{
  reclaim_due_retry_jobs, DueRetry, get_pending_scheduled_jobs, is_due_retry, release, due_columns,
  reclaim_stale_jobs, ReclaimedJob, is_stale, reclaimed_columns,
}
use distribu_q.Delivery.Rows.{Tracked, Tracked-wake, Tracked-redis}
use distribu_q.Delivery.Held.{Held, Keeps, is_key}
use distribu_q.Redis.Client.{
  enqueue_job, schedule_job, queue_of, promote_due_scheduled_jobs, promote_each, requeue_job,
}
use distribu_q.World.{World}
use distribu_q.Redis.{Redis, up_to, lpush, lrem_first}
use distribu_q.Base.Int.{pos, negsuc, ℤ}
use distribu_q.Base.{
  select, ℕ, zero, suc, String, ◌≡◌, refl, inl, inr, true, none, List, [], ◌∷◌, map, Option-cases,
  All,
}
use distribu_q.Schema.{pending, Job}

abbrev pub IsTracked : String → World → Type 0
IsTracked p w = Tracked p w.db.jobs w.redis × (w.redis_up ≡ true)

-- A loop of commands, each of which puts one key where it counts.
module _ {ℓ} {A : Type ℓ} (p : String) (f : A → Redis → Redis) (key : A → ℕ)
    (keeps : (a : A) → Keeps p (f a)) where
  each-Keeps : (xs : List A) → Keeps p (each f xs)
  each-Keeps [] r id h = h
  each-Keeps (x ∷ xs) r id h = each-Keeps xs (f x r) id (keeps x r id h)

  each-Held :
      (xs : List A) (r : Redis)
      → ((a : A) (s : Redis) → Held p (f a s) (key a))
      → All (λ a. Held p (each f xs r) (key a)) xs
  each-Held [] r puts = tt
  each-Held (x ∷ xs) r puts = (each-Keeps xs (f x r) (key x) (puts x r), each-Held xs (f x r) puts)

All-of_map {ℓ κ μ} :
    {A : Type ℓ} {B : Type κ} (P : B → Type μ) (g : A → B) (xs : List A)
    → All P (map g xs)
    → All (λ a. P (g a)) xs
All-of_map P g [] all = tt
All-of_map P g (x ∷ xs) all = (all.0, All-of_map P g xs all.1)

module _ (p : String) where
  queue_of-is_key : (priority : ℤ) → is_key p (queue_of priority) ≡ true
  queue_of-is_key (pos zero) = refl
  queue_of-is_key (pos (suc n)) = refl
  queue_of-is_key (negsuc n) = refl

  pub enqueue_job-Keeps :
      (id : ℕ) (priority : ℤ) → Keeps p (λ r. (enqueue_job id priority none r).0)
  unfolding enqueue_job
  enqueue_job-Keeps id priority = lpush-Keeps p (queue_of priority) id

  pub enqueue_job-Held :
      (id : ℕ) (priority : ℤ) (r : Redis) → Held p (enqueue_job id priority none r).0 id
  unfolding enqueue_job
  enqueue_job-Held id priority r = lpush-Held p (queue_of priority) id r (queue_of-is_key priority)

  module _ (w : World) (t : IsTracked p w) where
    pub run_once-IsTracked :
        (self : Scheduler)
        → is_key p self.target_queue ≡ true
        → IsTracked p (distribu_q.Scheduler.run_once self w).1
    unfolding distribu_q.Scheduler.run_once promote_due_scheduled_jobs
    run_once-IsTracked self key = rw t.1 (
      Tracked-redis p w.db.jobs w.redis
          (promote_each self.scheduled_set self.target_queue
            (up_to w.now (w.redis.zsets self.scheduled_set)))
          (promote_each-Keeps p self.scheduled_set self.target_queue
            (up_to w.now (w.redis.zsets self.scheduled_set)) key)
          t.0,
      refl,
    )

    pub promote_retries-IsTracked : (self : Scheduler) → IsTracked p (promote_retries self w).1
    unfolding reclaim_due_retry_jobs
    promote_retries-IsTracked self =
        let f : DueRetry → Redis → Redis = λ j r. (enqueue_job j.id j.priority none r).0 in
        let keeps : (j : DueRetry) → Keeps p (f j) = λ j. enqueue_job-Keeps j.id j.priority in
        let ds = distribu_q.Scheduler.Promotion.woken self w in
        let held =
          each-Held p f (λ j. j.id) keeps ds w.redis (λ j r. enqueue_job-Held j.id j.priority r) in
        rw (promote_retries-up self w t.1) (
          Tracked-wake p w.db.jobs (each f ds w.redis) w.now (is_due_retry w.now) (release pending)
              (λ j. refl)
              (All-of_map (λ d. Held p (each f ds w.redis) d.id)
                (λ j. due_columns (release pending j)) (select (is_due_retry w.now) w.db.jobs) held)
              (Tracked-redis p w.db.jobs w.redis (each f ds) (each-Keeps p f (λ j. j.id) keeps ds)
                t.0),
          t.1,
        )

    pub sync_from_db-IsTracked : IsTracked p (sync_from_db default_scheduler w).1
    unfolding sync_row schedule_job
    sync_from_db-IsTracked =
        let f = sync_row default_scheduler in
        let keeps : (j : Job) → Keeps p (f j) = λ j r id h. elim (Option-cases j.scheduled_for) [
          | inl e ↦ rw e h
          | inr (at, e) ↦ rw e (zadd-Keeps p j.id at r id h)
        ] in
        let js = get_pending_scheduled_jobs w.db in
        rw (sync_from_db-up default_scheduler w t.1) (
          Tracked-redis p w.db.jobs w.redis (each f js) (each-Keeps p f (λ j. j.id) keeps js) t.0,
          t.1,
        )

    pub run_reaper-IsTracked : (self : Scheduler) → IsTracked p (run_reaper self w).1
    unfolding reclaim_stale_jobs mark_expired_workers_dead
    run_reaper-IsTracked self =
        let f : ReclaimedJob → Redis → Redis = λ j r. (enqueue_job j.id j.priority none r).0 in
        let keeps : (j : ReclaimedJob) → Keeps p (f j) = λ j. enqueue_job-Keeps j.id j.priority in
        let js = distribu_q.Scheduler.Promotion.reclaimed self w in
        let q =
          is_stale default_visibility_timeout_sec w.now
            (distribu_q.Scheduler.Promotion.expired_db self w).workers in
        let held =
          each-Held p f (λ j. j.id) keeps js w.redis (λ j r. enqueue_job-Held j.id j.priority r) in
        rw (run_reaper-up self w t.1) (
          Tracked-wake p w.db.jobs (each f js w.redis) w.now q (release pending) (λ j. refl)
              (All-of_map (λ d. Held p (each f js w.redis) d.id)
                (λ j. reclaimed_columns (release pending j)) (select q w.db.jobs) held)
              (Tracked-redis p w.db.jobs w.redis (each f js) (each-Keeps p f (λ j. j.id) keeps js)
                t.0),
          t.1,
        )

    pub recover-IsTracked :
        (self : Reaper)
        → is_key p self.source_queue ≡ true
        → IsTracked p (distribu_q.Reaper.run_once self w).1
    unfolding reclaim_stale_jobs reclaim_due_retry_jobs mark_expired_workers_dead requeue_job
    recover-IsTracked self key =
        let f : ReclaimedJob → Redis → Redis =
          λ j r. requeue_job j.id self.processing_queue self.source_queue r in
        let g : DueRetry → Redis → Redis = λ j r. (lpush self.source_queue j.id r).0 in
        let f_keeps : (j : ReclaimedJob) → Keeps p (f j) =
          λ j. requeue_job-Keeps p j.id self.processing_queue self.source_queue key in
        let g_keeps : (j : DueRetry) → Keeps p (g j) = λ j. lpush-Keeps p self.source_queue j.id in
        let js = distribu_q.Reaper.Pass.reclaimed self w in
        let ds = distribu_q.Reaper.Pass.woken self w in
        let q =
          is_stale self.visibility_timeout_sec w.now
            (distribu_q.Reaper.Pass.expired_db self w).workers in
        let r1 = each f js w.redis in
        let r2 = each g ds r1 in
        let jobs1 = (distribu_q.Reaper.Pass.reclaimed_db self w).jobs in
        let f_held =
          each-Held p f (λ j. j.id) f_keeps js w.redis
            (λ j r.
              rpush-Held p self.source_queue j.id (lrem_first self.processing_queue j.id r).0
                key) in
        let g_held =
          each-Held p g (λ j. j.id) g_keeps ds r1
            (λ j r. lpush-Held p self.source_queue j.id r key) in
        let t1 : Tracked p jobs1 r1 =
          Tracked-wake p w.db.jobs r1 w.now q (release pending) (λ j. refl)
            (All-of_map (λ d. Held p r1 d.id) (λ j. reclaimed_columns (release pending j))
              (select q w.db.jobs) f_held)
            (Tracked-redis p w.db.jobs w.redis (each f js) (each-Keeps p f (λ j. j.id) f_keeps js)
              t.0) in
        rw (run_once-up self w t.1) (
          Tracked-wake p jobs1 r2 w.now (is_due_retry w.now) (release pending) (λ j. refl)
              (All-of_map (λ d. Held p r2 d.id) (λ j. due_columns (release pending j))
                (select (is_due_retry w.now) jobs1) g_held)
              (Tracked-redis p jobs1 r1 (each g ds) (each-Keeps p g (λ j. j.id) g_keeps ds) t1),
          t.1,
        )
