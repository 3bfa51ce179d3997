-- ===== src/Worker/Frame.antt =====
-- The whole world after `work` of a job whose handler raises and leaves the world as it found it.
use distribu_q.Worker.Settle.{body-err, command_-world}
use distribu_q.Worker.Outcomes.{retried, archived, record_failure-bury, record_failure-retry}
use distribu_q.DeadLetters.{has_dl_id}
use mathlib.Core.Path.{subst}
use distribu_q.Redis.{Redis}
use distribu_q.Schema.{Job, job_of}
use distribu_q.Redis.Client.{ack_job}
use distribu_q.World.{World, catch, Event}
use distribu_q.Jobs.{LockedJob}
use distribu_q.Handlers.{Registry}
use distribu_q.Worker.{
  Runtime, Self, work, acknowledge, complete, run_handler, record_failure, next_retry,
}
use distribu_q.Base.{find_row, ℕ, ◌+◌, ◌≡◌, ◌∙◌, true, false, none, some, List, ltb}
use distribu_q.Result.{err, ok, Exn}

module _ (rt : Runtime) (self : Self) (registry : Registry) where
  pub acknowledge-frame :
      (id : ℕ) (w : World)
      → (r : Redis) × ((acknowledge rt self registry id w).1 ≡ record w { redis = r })
  unfolding acknowledge ack_job
  acknowledge-frame id w = (_, command_-world (λ r. (ack_job id self.processing_queue r).0) w)

module _ (rt : Runtime) (self : Self) (registry : Registry) (l : LockedJob) where
  -- Whatever the body leaves, only Redis changes after it.
  work-frame :
      (w v : World)
      → (catch (complete rt self registry l) (record_failure rt self registry l) w).1 ≡ v
      → (r : Redis) × ((work rt self registry l w).1 ≡ record v { redis = r })
  unfolding work
  work-frame w v e =
      subst (λ x. (r : Redis) × ((work rt self registry l w).1 ≡ record x { redis = r })) e
        (acknowledge-frame rt self registry l.id _)

  pub work-retry_world :
      (w : World) (x : Exn) (t : ℕ)
      → run_handler rt self registry l w ≡ (err x, w)
      → ltb l.attempts l.max_attempts ≡ true
      → next_retry rt self registry l w ≡ ok t
      → (es : List Event) × (r : Redis) × ((work rt self registry l w).1
          ≡ record (retried rt self registry l x t w es) { redis = r })
  work-retry_world w x t e some_left at =
      let (es, s) = record_failure-retry rt self registry l x t w some_left at in
      let (r, f) = work-frame w _ (body-err rt self registry l w w x e ∙ s) in (es, r, f)

  pub work-dead_letter_world :
      (w : World) (x : Exn) (j : Job)
      → run_handler rt self registry l w ≡ (err x, w)
      → ltb l.attempts l.max_attempts ≡ false
      → job_of l.id w.db ≡ some j
      → find_row (has_dl_id w.fresh) w.db.dead_letters ≡ none
      → (es : List Event) × (r : Redis) × ((work rt self registry l w).1 ≡ record w {
        db = archived rt self registry l x w;
        jobs_processed = w.jobs_processed + 1;
        published = es;
        redis = r;
      })
  work-dead_letter_world w x j e none_left found new =
      let (es, s) = record_failure-bury rt self registry l x j w none_left found new in
      let (r, f) = work-frame w _ (body-err rt self registry l w w x e ∙ s) in (es, r, f)
