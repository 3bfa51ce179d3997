-- ===== src/Reaper/Recovery.antt =====
-- What a pass of the reaper achieves: which jobs it recovers, and what is left.
use distribu_q.Redis.Client.{requeue_job}
use distribu_q.World.Loops.{each}
use mathlib.Core.List.{reverse}
use distribu_q.Redis.Lists.{waiting}
use distribu_q.Workers.{mark_expired_workers_dead, is_expired, bury}
use distribu_q.World.{World}
use distribu_q.Reaper.Pass.{
  keys, ids, expired_db, reclaimed, reclaimed_db, woken_db, run_once-up, run_once-down, remove_each,
  waiting-lpush, woken, waiting-requeue_job, lists-lpush, lists-requeue_job,
}
use distribu_q.Jobs.{
  due_columns, release, is_stale, reclaim_stale_jobs, is_due_retry, reclaimed_columns,
  reclaim_due_retry_jobs, ReclaimedJob,
}
use distribu_q.Reaper.{Reaper, run_once}
use distribu_q.Base.{
  select, select-update_where_apart, ◌≡◌, refl, List, [], ◌∷◌, map, arith, select-update_where,
  String, ap, ◌∙◌, ◌≢◌, inl, inr, Bool, true, false, ◌&&◌, ◌++◌, Bool-cases,
}
use distribu_q.Schema.{
  pending, Job, update_updated_at_column, running, success, failed, retrying, dead_letter,
  JobStatus, is_status,
}

keys-columns : (js : List Job) → keys (map (λ j. reclaimed_columns (release pending j)) js) ≡ ids js
keys-columns [] = refl
keys-columns (j ∷ js) = ground (arith, keys-columns js)

due_keys :
    (js : List Job) → map (λ d. d.id) (map (λ j. due_columns (release pending j)) js) ≡ ids js
due_keys [] = refl
due_keys (j ∷ js) = ground (arith, due_keys js)

not_retrying :
    (s : JobStatus) (b c : Bool)
    → (is_status s running && b) ≡ true
    → (is_status s retrying && c) ≡ false
not_retrying pending b c e = refl
not_retrying running b c e = refl
not_retrying success b c e = refl
not_retrying failed b c e = refl
not_retrying retrying b c e = cc
not_retrying dead_letter b c e = refl

not_running :
    (s : JobStatus) (b c : Bool)
    → (is_status s retrying && b) ≡ true
    → (is_status s running && c) ≡ false
not_running pending b c e = refl
not_running running b c e = cc
not_running success b c e = refl
not_running failed b c e = refl
not_running retrying b c e = refl
not_running dead_letter b c e = refl

module _ (self : Reaper) (w : World) where
  -- The jobs that are stranded once the expired workers are DEAD.
  abbrev pub stranded : List Job
  stranded =
      select (is_stale self.visibility_timeout_sec w.now (expired_db self w).workers) w.db.jobs

  abbrev pub due : List Job
  due = select (is_due_retry w.now) w.db.jobs

  keys-reclaimed : keys (reclaimed self w) ≡ ids stranded
  unfolding reclaim_stale_jobs mark_expired_workers_dead
  keys-reclaimed = keys-columns stranded

  due-reclaimed : select (is_due_retry w.now) (reclaimed_db self w).jobs ≡ due
  unfolding reclaim_stale_jobs mark_expired_workers_dead
  due-reclaimed =
      select-update_where_apart (is_due_retry w.now)
        (is_stale self.visibility_timeout_sec w.now (expired_db self w).workers)
        (λ j. update_updated_at_column w.now (release pending j)) w.db.jobs
        (λ j e. not_retrying j.status _ _ e) (λ j e. refl)

  woken-keys : map (λ d. d.id) (woken self w) ≡ ids due
  unfolding reclaim_due_retry_jobs
  woken-keys =
      due_keys (select (is_due_retry w.now) (reclaimed_db self w).jobs) ∙ ap ids due-reclaimed

  run_once-db : (run_once self w).1.db ≡ woken_db self w
  run_once-db = elim (Bool-cases w.redis_up) [
    | inl up ↦ ap (λ r. r.1.db) (run_once-up self w up)
    | inr down ↦ ap (λ r. r.1.db) (run_once-down self w down)
  ]

  -- While Redis answers, with different names for the two lists: one entry of every stranded job
  -- leaves the processing list, its key goes to the front of the source queue, and every due retry goes to the end of it; the jobs that were waiting there keep
  -- their order between them.
  pub run_once-requeues :
      self.processing_queue ≢ self.source_queue
      → w.redis_up ≡ true
      → let w' = (run_once self w).1 in
        (waiting self.source_queue w'.redis
          ≡ reverse (ids stranded) ++ waiting self.source_queue w.redis ++ ids due)
        × (w'.redis.lists self.processing_queue
            ≡ remove_each (ids stranded) (w.redis.lists self.processing_queue))
  run_once-requeues ne up =
      let p : String = self.processing_queue in
      let q : String = self.source_queue in
      let js : List ReclaimedJob = reclaimed self w in
      let e = ap (λ r. r.1.redis) (run_once-up self w up) in
      (
        ap (waiting q) e
            ∙ waiting-lpush p q ne (woken self w) (each (λ j r. requeue_job j.id p q r) js w.redis)
            ∙ rw (waiting-requeue_job p q ne js w.redis, keys-reclaimed, woken-keys) refl,
        ap (λ r. r.lists p) e
            ∙ lists-lpush p q ne (woken self w) (each (λ j r. requeue_job j.id p q r) js w.redis)
            ∙ lists-requeue_job p q ne js w.redis
            ∙ ap (λ ks. remove_each ks (w.redis.lists p)) keys-reclaimed,
      )

  still_stale : List Job
  still_stale =
      select (is_stale self.visibility_timeout_sec w.now (woken_db self w).workers)
        (woken_db self w).jobs

  still_stale-empty : still_stale ≡ []
  unfolding still_stale reclaim_due_retry_jobs reclaim_stale_jobs mark_expired_workers_dead
  still_stale-empty =
      let stale : Job → Bool =
        is_stale self.visibility_timeout_sec w.now (expired_db self w).workers in
      select-update_where_apart stale (is_due_retry w.now)
        (λ j. update_updated_at_column w.now (release pending j)) (reclaimed_db self w).jobs
        (λ j e. not_running j.status _ _ e) (λ j e. refl)
      ∙ select-update_where stale (λ j. update_updated_at_column w.now (release pending j))
          w.db.jobs (λ j e. refl)

  still_due-empty : select (is_due_retry w.now) (woken_db self w).jobs ≡ []
  unfolding reclaim_due_retry_jobs
  still_due-empty =
      select-update_where (is_due_retry w.now)
        (λ j. update_updated_at_column w.now (release pending j)) (reclaimed_db self w).jobs
        (λ j e. refl)

  still_expired-empty :
      select (is_expired self.heartbeat_timeout_sec w.now) (woken_db self w).workers ≡ []
  unfolding reclaim_due_retry_jobs reclaim_stale_jobs mark_expired_workers_dead
  still_expired-empty =
      select-update_where (is_expired self.heartbeat_timeout_sec w.now) bury w.db.workers
        (λ r e. refl)

  -- After a pass, whether or not Redis answers: no worker is ALIVE whose heartbeat has expired, no
  -- job is RUNNING past the visibility timeout or under a worker that is gone, and no retry is due.
  pub run_once-clears :
      let db = (run_once self w).1.db in
      (select (is_expired self.heartbeat_timeout_sec w.now) db.workers ≡ [])
      × (select (is_stale self.visibility_timeout_sec w.now db.workers) db.jobs ≡ [])
      × (select (is_due_retry w.now) db.jobs ≡ [])
  unfolding still_stale
  run_once-clears = rw run_once-db (still_expired-empty, still_stale-empty, still_due-empty)
