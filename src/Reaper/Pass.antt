-- ===== src/Reaper/Pass.antt =====
-- What one pass of the reaper does to the tables and to the two lists.
use distribu_q.Workers.{mark_expired_workers_dead}
use distribu_q.World.{World}
use distribu_q.Reaper.{Reaper, run_once, requeue_each, push_each}
use distribu_q.Result.{ok}
use distribu_q.Jobs.{ReclaimedJob, DueRetry, reclaim_stale_jobs, reclaim_due_retry_jobs}
use mathlib.Core.List.{reverse, reverse-append, reverse-cons, append-nil, append_assoc}
use distribu_q.World.Loops.{each, for_each-attempt_down, for_each-attempt}
use distribu_q.Redis.Lists.{waiting}
use distribu_q.Redis.Client.{requeue_job}
use distribu_q.Redis.{remove_first, rpush, lrem_first, Redis, lpush}
use distribu_q.Schema.{Job, Db}
use distribu_q.Base.{
  ℕ, String, ◌≡◌, refl, ◌≢◌, List, [], ◌∷◌, ◌++◌, map, sym, ◌∙◌, arith, eq_iff, true, false,
}

abbrev pub ids : List Job → List ℕ
ids = map (λ j. j.id)

abbrev pub keys : List ReclaimedJob → List ℕ
keys = map (λ j. j.id)

-- LREM of one occurrence of each.
abbrev pub remove_each : List ℕ → List ℕ → List ℕ
remove_each [] xs = xs
remove_each (v ∷ vs) xs = remove_each vs (remove_first v xs)

module _ (p q : String) (ne : p ≢ q) where
  pub waiting-requeue_job :
      (js : List ReclaimedJob) (r : Redis)
      → waiting q (each (λ j r'. requeue_job j.id p q r') js r) ≡ reverse (keys js) ++ waiting q r
  unfolding requeue_job rpush lrem_first
  waiting-requeue_job [] r = refl
  waiting-requeue_job (j ∷ js) r =
      waiting-requeue_job js (requeue_job j.id p q r)
      ∙ ground (
        arith,
        eq_iff p q,
        eq_iff q q,
        reverse-append (r.lists q) (j.id ∷ []),
        reverse-cons j.id (keys js),
        append_assoc (reverse (keys js)) (j.id ∷ []) (waiting q r),
      )

  pub lists-requeue_job :
      (js : List ReclaimedJob) (r : Redis)
      → (each (λ j r'. requeue_job j.id p q r') js r).lists p ≡ remove_each (keys js) (r.lists p)
  unfolding requeue_job rpush lrem_first
  lists-requeue_job [] r = refl
  lists-requeue_job (j ∷ js) r =
      lists-requeue_job js (requeue_job j.id p q r) ∙ ground (arith, eq_iff q p, eq_iff p p)

  pub waiting-lpush :
      (ds : List DueRetry) (r : Redis)
      → waiting q (each (λ j r'. (lpush q j.id r').0) ds r) ≡ waiting q r ++ map (λ d. d.id) ds
  unfolding lpush
  waiting-lpush [] r = sym (append-nil (waiting q r))
  waiting-lpush (d ∷ ds) r =
      waiting-lpush ds (lpush q d.id r).0
      ∙ ground (
        arith,
        eq_iff q q,
        reverse-cons d.id (r.lists q),
        append_assoc (waiting q r) (d.id ∷ []) (map (λ e. e.id) ds),
      )

  pub lists-lpush :
      (ds : List DueRetry) (r : Redis)
      → (each (λ j r'. (lpush q j.id r').0) ds r).lists p ≡ r.lists p
  unfolding lpush
  lists-lpush [] r = refl
  lists-lpush (d ∷ ds) r = lists-lpush ds (lpush q d.id r).0 ∙ ground (arith, eq_iff q p)

module _ (self : Reaper) (w : World) where
  -- The database once the expired workers are DEAD.
  abbrev pub expired_db : Db
  expired_db = (mark_expired_workers_dead self.heartbeat_timeout_sec w.now w.db).0

  abbrev pub reclaimed_db : Db
  reclaimed_db = (reclaim_stale_jobs self.visibility_timeout_sec w.now expired_db).0

  abbrev pub reclaimed : List ReclaimedJob
  reclaimed = (reclaim_stale_jobs self.visibility_timeout_sec w.now expired_db).1

  abbrev pub woken_db : Db
  woken_db = (reclaim_due_retry_jobs w.now reclaimed_db).0

  abbrev pub woken : List DueRetry
  woken = (reclaim_due_retry_jobs w.now reclaimed_db).1

  abbrev pub queued : Redis
  queued =
      each (λ j r. (lpush self.source_queue j.id r).0) woken
        (each (λ j r. requeue_job j.id self.processing_queue self.source_queue r) reclaimed w.redis)

  pub run_once-up :
      w.redis_up ≡ true
      → run_once self w ≡ (ok reclaimed, record w { db = woken_db; redis = queued })
  unfolding run_once requeue_each push_each
  run_once-up up =
      rw
        (
          for_each-attempt (λ j r. requeue_job j.id self.processing_queue self.source_queue r)
              reclaimed (record w { db = reclaimed_db }) up,
          for_each-attempt (λ j r. (lpush self.source_queue j.id r).0) woken
              (record w {
                db = woken_db;
                redis =
                    each (λ j r. requeue_job j.id self.processing_queue self.source_queue r)
                      reclaimed w.redis;
              })
              up,
        )
        refl

  -- While Redis does not answer, the pass still resets the rows, and queues nothing.
  pub run_once-down :
      w.redis_up ≡ false → run_once self w ≡ (ok reclaimed, record w { db = woken_db })
  unfolding run_once requeue_each push_each
  run_once-down down =
      rw
        (
          for_each-attempt_down (λ j r. requeue_job j.id self.processing_queue self.source_queue r)
              reclaimed (record w { db = reclaimed_db }) down,
          for_each-attempt_down (λ j r. (lpush self.source_queue j.id r).0) woken
              (record w { db = woken_db }) down,
        )
        refl
