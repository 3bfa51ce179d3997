-- ===== src/Lifecycle/Failing.antt =====
-- A job whose handler raises at every try.
-- The pass wakes the job if it is a retry, and leaves every other column and row of it.
use mathlib.Core.Path.{subst}
use distribu_q.Worker.Frame.{acknowledge-frame}
use distribu_q.Worker.Guard.{process_job-skips}
use distribu_q.Jobs.Locking.{claimable}
use distribu_q.History.Steps.{commit-Evolves}
use distribu_q.History.Exclusion.{HasKeys-Evolves}
use distribu_q.Scheduler.Promotion.{promote_retries-world}
use distribu_q.Jobs.Lookup.{HasKeys}
use distribu_q.Redis.{Redis}
use distribu_q.Lifecycle.{pass_at_due, due_time, cycle, cycles, later_of}
use distribu_q.World.{World}
use distribu_q.Scheduler.{Scheduler}
use distribu_q.Handlers.{Registry}
use distribu_q.Jobs.{is_due_retry, release, reclaim_due_retry_jobs}
use distribu_q.Worker.{Runtime, Self, acknowledge, process_job}
use distribu_q.Base.{
  find_row-update_where, ℕ, ◌≡◌, refl, ◌∙◌, some, arith, if◌then◌else◌, zero, suc, sym, ap, false,
  none,
}
use distribu_q.Schema.{pending, Job, update_updated_at_column, job_of, has_id, dead_letter}
use distribu_q.History.{reclaims_due, commit}

unfoldable pub passed : Job → ℕ → Job
passed j now = if is_due_retry now j then update_updated_at_column now (release pending j) else j

pub due_time-found :
    (id : ℕ) (w : World) (j : Job)
    → job_of id w.db ≡ some j
    → due_time id w ≡ later_of j.next_retry_at w.now
due_time-found id w j e =
    ap (λ o. elim o [ none ↦ w.now | some k ↦ later_of k.next_retry_at w.now ]) e

module _ (rt : Runtime) (self : Self) (registry : Registry) (sched : Scheduler) (id : ℕ) where
  pass-world :
      (v : World)
      → (r : Redis) × (pass_at_due rt self registry sched id v ≡ record v {
        now = due_time id v;
        db = (reclaim_due_retry_jobs (due_time id v) v.db).0;
        redis = r;
      })
  unfolding pass_at_due
  pass-world v = promote_retries-world sched (record v { now = due_time id v })

  abbrev pub Rest : World → Job → Type 0
  Rest w j = HasKeys w.db.jobs × (job_of id w.db ≡ some j)

  pub pass-row :
      (v : World) (j : Job)
      → Rest v j
      → let v' = pass_at_due rt self registry sched id v in
        Rest v' (passed j (due_time id v))
        × (v'.db.dead_letters ≡ v.db.dead_letters)
        × (v'.fresh ≡ v.fresh)
  unfolding passed reclaim_due_retry_jobs commit
  pass-row v j (keys, found) =
      let (r, e) = pass-world v in
      rw e (
        (
          HasKeys-Evolves (commit-Evolves (due_time id v, reclaims_due) v.db) keys,
          find_row-update_where (has_id id) (is_due_retry (due_time id v))
                (λ k. update_updated_at_column (due_time id v) (release pending k)) v.db.jobs
                (λ k. refl)
              ∙ ground arith,
        ),
        refl,
        refl,
      )

  -- A job in the archive stays there: the worker leaves it alone, and so does the pass.
  pub cycle-buried :
      (w : World) (j : Job)
      → Rest w j
      → j.status ≡ dead_letter
      → let w' = cycle rt self registry sched id w in
        Rest w' j × (w'.db.dead_letters ≡ w.db.dead_letters)
  unfolding cycle acknowledge passed
  cycle-buried w j (keys, found) buried =
      let idle : claimable j.status ≡ false = rw buried refl in
      let skip = process_job-skips rt self registry id w j keys found idle in
      let (r, f) = acknowledge-frame rt self registry id w in
      let e : (process_job rt self registry id w).1 ≡ record w { redis = r } =
        ap (λ x. x.1) skip ∙ f in
      let (rest, dls, _) = pass-row (record w { redis = r }) j (keys, found) in
      subst
        (λ v.
          let w' = pass_at_due rt self registry sched id v in
          Rest w' j × (w'.db.dead_letters ≡ w.db.dead_letters))
        (sym e) ((rest.0, rest.1 ∙ ground arith), dls)

  pub cycles-buried :
      (n : ℕ) (w : World) (j : Job)
      → Rest w j
      → j.status ≡ dead_letter
      → let w' = cycles rt self registry sched id n w in
        (job_of id w'.db ≡ some j) × (w'.db.dead_letters ≡ w.db.dead_letters)
  unfolding cycles
  cycles-buried zero w j rest buried = (rest.1, refl)
  cycles-buried (suc n) w j rest buried =
      let (rest', dls) = cycle-buried w j rest buried in
      let (found, more) = cycles-buried n (cycle rt self registry sched id w) j rest' buried in
      (found, more ∙ dls)
