-- ===== src/Worker/Recur.antt =====
-- How `process_job` sets up the next run of a recurring job.
use distribu_q.Written.{submitted, finished, jobs-mark_job_success}
use distribu_q.Redis.Schedule.{elem, promoted-schedule_job}
use distribu_q.Recurrence.{compute_next_run}
use distribu_q.Config.{default_scheduled_set}
use distribu_q.Json.{Json}
use distribu_q.Worker.Settle.{
  next_occurrence, record_success-world, succeeded, body-ok, work-Settles,
}
use distribu_q.Redis.{lrem_first, up_to}
use distribu_q.Redis.Client.{ack_job, promote_due_scheduled_jobs, schedule_job}
use distribu_q.World.{World, catch}
use distribu_q.Jobs.{
  LockedJob, mark_job_success, job_row, schedule_next_occurrence, create_job, is_smallint, succeed,
}
use distribu_q.Jobs.Lookup.{KeepsId}
use distribu_q.Handlers.{Registry}
use distribu_q.Worker.{
  Runtime, Self, work, acknowledge, recur, recur_by, schedule_next, complete, record_failure,
  run_handler,
}
use distribu_q.Schema.{Job, Db, job_of, update_jobs, has_id, update_updated_at_column}
use distribu_q.Base.{
  find_row-update_where, ℕ, String, ◌≡◌, refl, ap, ◌∙◌, inl, inr, Bool, true, false, none, some, [],
  ◌∷◌, ◌++◌, arith, str_eq, leb, Bool-cases, codes, update_where,
}
use distribu_q.Result.{ok}

job_of-update_none :
    (id now : ℕ) (p : Job → Bool) (f : Job → Job) (db : Db)
    → KeepsId id f
    → job_of id db ≡ none
    → job_of id (update_jobs now p f db) ≡ none
job_of-update_none id now p f db keep missing =
    find_row-update_where (has_id id) p (λ r. update_updated_at_column now (f r)) db.jobs keep
    ∙ ground arith

module _ (rt : Runtime) (self : Self) (registry : Registry) (l : LockedJob) where
  -- The world after a next occurrence was added and scheduled.
  recurred : String → ℕ → World → World
  recurred rule t w = record w {
    db = record w.db { jobs = w.db.jobs ++ job_row w.fresh w.now (next_occurrence l rule t) ∷ [] };
    redis = (schedule_job w.fresh t default_scheduled_set w.redis).0;
  }

  recur-adds :
      (rule : String) (t : ℕ) (w : World)
      → l.recurrence_rule ≡ some rule
      → str_eq rule "" ≡ false
      → compute_next_run rt.croniter (codes rule) w.now ≡ ok t
      → is_smallint l.priority ≡ true
      → job_of w.fresh w.db ≡ none
      → w.redis_up ≡ true
      → recur rt self registry l w ≡ (ok tt, recurred rule t w)
  unfolding recur recur_by schedule_next schedule_next_occurrence create_job recurred
  recur-adds rule t w r nonempty next small new up = rw (r, nonempty, next, small, new, up) refl

  acknowledge-zsets :
      (w : World) → (acknowledge rt self registry l.id w).1.redis.zsets ≡ w.redis.zsets
  unfolding acknowledge ack_job lrem_first
  acknowledge-zsets w = elim (Bool-cases w.redis_up) [ inl e ↦ rw e refl | inr e ↦ rw e refl ]

  work-zsets :
      (w v : World)
      → (catch (complete rt self registry l) (record_failure rt self registry l) w).1 ≡ v
      → (work rt self registry l w).1.redis.zsets ≡ v.redis.zsets
  unfolding work
  work-zsets w v e = acknowledge-zsets _ ∙ ap (λ x. x.redis.zsets) e

  -- Where the handler returns, the job has a rule with a next run `t`, its priority fits a SMALLINT,
  -- the key that is generated is new and Redis answers: the job's row is SUCCESS with the result, and
  -- the jobs table gains exactly one row, a PENDING job with the submission of this one and the time
  -- `t`; a promotion of what is left then, whenever it is, returns its key if and only if its time is
  -- not before `t`.
  pub work-recurs :
      (w w2 : World) (v : Json) (rule : String) (t : ℕ)
      → run_handler rt self registry l w ≡ (ok v, w2)
      → l.recurrence_rule ≡ some rule
      → str_eq rule "" ≡ false
      → compute_next_run rt.croniter (codes rule) w2.now ≡ ok t
      → is_smallint l.priority ≡ true
      → job_of w2.fresh w2.db ≡ none
      → w2.redis_up ≡ true
      → ((work rt self registry l w).1.db.jobs
          ≡ update_where (has_id l.id) (finished w2.now v) w2.db.jobs
            ++ submitted w2.fresh w2.now (next_occurrence l rule t) ∷ [])
        × ((n : ℕ) (target : String)
            → elem w2.fresh
                (promote_due_scheduled_jobs target default_scheduled_set n
                  (work rt self registry l w).1.redis).1
              ≡ leb t n)
  unfolding mark_job_success recurred promote_due_scheduled_jobs
  work-recurs w w2 v rule t e r nonempty next small new up =
      let (es, s) = record_success-world rt self registry l v w2 in
      let w3 : World = succeeded rt self registry l v w2 es in
      let free =
        job_of-update_none w2.fresh w2.now (has_id l.id) (succeed v) w2.db (λ x. refl) new in
      let body =
        body-ok rt self registry l w w2 v e
        ∙ ap (λ x. x.1) (s ∙ recur-adds rule t w3 r nonempty next small free up) in
      let (ack, db, n) = work-Settles rt self registry l w _ body in
      (
        ap (λ d. d.jobs) db
            ∙ ap (λ js. js ++ submitted w2.fresh w2.now (next_occurrence l rule t) ∷ [])
                (jobs-mark_job_success l.id w2.now v w2.db),
        λ n target.
            ap (λ z. elem w2.fresh (up_to n (z default_scheduled_set))) (work-zsets w _ body)
            ∙ promoted-schedule_job w2.fresh t n target default_scheduled_set w2.redis,
      )
