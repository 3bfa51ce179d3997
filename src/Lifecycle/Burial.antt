-- ===== src/Lifecycle/Burial.antt =====
-- The tries of a job whose handler raises every time: how many there are, and where the job ends.
use mathlib.Core.Path.{subst}
use distribu_q.DeadLetters.{has_dl_id, archive}
use distribu_q.Worker.Frame.{work-retry_world, work-dead_letter_world}
use distribu_q.Jobs.Lookup.{id-job_of, job_of-update_hit, HasKeys-update_where}
use distribu_q.History.Steps.{commit-Evolves}
use distribu_q.History.Exclusion.{HasKeys-Evolves}
use distribu_q.Worker.Guard.{locked_world, process_job-world}
use distribu_q.Worker.Outcomes.{retried, archived}
use distribu_q.Jobs.Locking.{claimable, lock-row}
use distribu_q.Lifecycle.Failing.{Rest}
use distribu_q.Schema.{Job, update_updated_at_column, has_id, DeadLetter, job_of}
use distribu_q.World.{World, Event}
use distribu_q.Scheduler.{Scheduler}
use distribu_q.Handlers.{Registry}
use distribu_q.Lifecycle.{later_of}
use distribu_q.Jobs.{
  is_due, lock, postpone_to, LockedJob, locked_columns, mark_job_retrying, fetch_and_lock_job,
}
use distribu_q.Worker.{Runtime, Self, run_handler, next_retry, process_job}
use distribu_q.Base.{
  ℕ, ◌≡◌, refl, ◌∙◌, true, some, List, arith, ltb, find_row, false, none, [], ◌∷◌, ◌++◌, sym, ap,
}
use distribu_q.Result.{err, ok, Exn}
use distribu_q.History.{locks, retries, commit}

pub is_due-later : (t now : ℕ) → is_due (later_of (some t) now) (some t) ≡ true
is_due-later t now = ground arith

module _ (rt : Runtime) (self : Self) (registry : Registry) (sched : Scheduler) (id : ℕ) where
  -- What the tries leave alone.
  abbrev pub Frame : World → World → Type 0
  Frame w w' = (w'.db.dead_letters ≡ w.db.dead_letters) × (w'.fresh ≡ w.fresh)

  -- The job as a failed try leaves it, and as the pass then leaves it.
  abbrev pub locked : World → Job → Job
  locked w j = update_updated_at_column w.now (lock self.worker_id w.now j)

  abbrev pub tried : World → Job → Exn → ℕ → Job
  tried w j x t = update_updated_at_column w.now (postpone_to (rt.exn_text x) t (locked w j))

  module _ (w : World) (j : Job) (rest : Rest rt self registry sched id w j)
      (free : claimable j.status ≡ true) where
    abbrev pub l : LockedJob
    l = locked_columns (lock self.worker_id w.now j)

    locked-Rest :
        (es : List Event)
        → Rest rt self registry sched id (locked_world rt self registry id w j es) (locked w j)
    unfolding locked_world commit
    locked-Rest es = (
      HasKeys-Evolves (commit-Evolves (w.now, locks id self.worker_id) w.db) rest.0,
      lock-row id w.now self.worker_id w.db j rest.1 ∙ rw free refl,
    )

    -- The time of the next try depends on the clock and on the random generator alone.
    next_retry-locked :
        (es : List Event)
        → next_retry rt self registry l (locked_world rt self registry id w j es)
          ≡ next_retry rt self registry l w
    unfolding next_retry locked_world
    next_retry-locked es = refl

    pub process_job-retry :
        (t : ℕ)
        → ((v : World) → (x : Exn) × (run_handler rt self registry l v ≡ (err x, v)))
        → next_retry rt self registry l w ≡ ok t
        → ltb l.attempts l.max_attempts ≡ true
        → let v = (process_job rt self registry id w).1 in
          (x : Exn) × Rest rt self registry sched id v (tried w j x t) × Frame w v
    unfolding retried locked_world commit mark_job_retrying fetch_and_lock_job
    process_job-retry t raises delay some_left =
        let same : j.id ≡ id = id-job_of id w.db j rest.1 in
        let (es, s) = process_job-world rt self registry id w j rest.0 rest.1 free in
        let v = locked_world rt self registry id w j es in
        let (x, e) = raises v in
        let d = next_retry-locked es ∙ delay in
        let (es', r, f) = work-retry_world rt self registry l v x t e some_left d in
        let (keys, found) = locked-Rest es in
        let rest' : Rest rt self registry sched id (retried rt self registry l x t v es')
            (tried w j x t) =
          (
            HasKeys-Evolves (commit-Evolves (w.now, retries j.id (rt.exn_text x) t) v.db) keys,
            job_of-update_hit id w.now (has_id j.id) (postpone_to (rt.exn_text x) t) v.db
                (λ k. refl) (locked w j) found (ground arith),
          ) in
        let whole : (let v' = (process_job rt self registry id w).1 in
            Rest rt self registry sched id v' (tried w j x t) × Frame w v') =
          rw (s, f) (rest', (refl, refl)) in
        (x, whole.0, whole.1)

    -- The archive's row of the last try.
    abbrev pub last_entry : Exn → DeadLetter
    last_entry x = record {
      id = w.fresh;
      job_id = id;
      final_error = rt.exn_text x;
      attempts_made = l.attempts;
      moved_at = w.now;
    }

    pub process_job-bury :
        ((v : World) → (x : Exn) × (run_handler rt self registry l v ≡ (err x, v)))
        → ltb l.attempts l.max_attempts ≡ false
        → find_row (has_dl_id w.fresh) w.db.dead_letters ≡ none
        → let v = (process_job rt self registry id w).1 in
          (x : Exn) × Rest rt self registry sched id v
            (update_updated_at_column w.now (archive (rt.exn_text x) (locked w j)))
          × (v.db.dead_letters ≡ w.db.dead_letters ++ last_entry x ∷ [])
    unfolding archived locked_world fetch_and_lock_job
    process_job-bury raises none_left new =
        let same : j.id ≡ id = id-job_of id w.db j rest.1 in
        let (es, s) = process_job-world rt self registry id w j rest.0 rest.1 free in
        let v = locked_world rt self registry id w j es in
        let (x, e) = raises v in
        let (keys, found) = locked-Rest es in
        let (es', r, f) =
          work-dead_letter_world rt self registry l v x (locked w j) e none_left
            (subst (λ i. job_of i v.db ≡ some (locked w j)) (sym same) found) new in
        let rest' : Rest rt self registry sched id
            (record v { db = archived rt self registry l x v })
            (update_updated_at_column w.now (archive (rt.exn_text x) (locked w j))) =
          (
            HasKeys-update_where (has_id j.id)
                (λ k. update_updated_at_column w.now (archive (rt.exn_text x) k)) v.db.jobs
                (λ k. refl) keys,
            job_of-update_hit id w.now (has_id j.id) (archive (rt.exn_text x)) v.db (λ k. refl)
                (locked w j) found (ground arith),
          ) in
        let whole : (let v' = (process_job rt self registry id w).1 in
            Rest rt self registry sched id v'
              (update_updated_at_column w.now (archive (rt.exn_text x) (locked w j)))
            × (v'.db.dead_letters ≡ w.db.dead_letters ++ last_entry x ∷ [])) =
          rw (s, f)
            (
              rest',
              ap (λ i. w.db.dead_letters ++ record (last_entry x) { job_id = i } ∷ []) same,
            ) in
        (x, whole.0, whole.1)
