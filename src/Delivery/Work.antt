-- ===== src/Delivery/Work.antt =====
-- What a worker does with a job leaves every PENDING job's key in Redis.
use distribu_q.Delivery.Commands.{zadd-Held, zadd-Keeps}
use distribu_q.Config.{default_scheduled_set}
use distribu_q.Redis.{zadd}
use distribu_q.Worker.Settle.{record_success-world, next_occurrence, succeeded, recur_by-Leaves}
use distribu_q.Recurrence.{compute_next_run}
use distribu_q.Redis.Client.{schedule_job}
use distribu_q.World.Loops.{attempt-world}
use distribu_q.Json.{Json}
use mathlib.Core.Path.{subst}
use distribu_q.DeadLetters.{has_dl_id, archive}
use distribu_q.Jobs.Lookup.{job_of-update_hit, create_job-ok}
use distribu_q.Result.{Exn, Result-cases}
use distribu_q.Delivery.Rows.{is_pending, Tracked-leave, Tracked, Tracked-insert, Tracked-redis}
use distribu_q.Delivery.Passes.{IsTracked}
use distribu_q.Schema.{Job, job_of, update_jobs, has_id, update_updated_at_column}
use distribu_q.Worker.Outcomes.{
  retried, archived, record_failure-stuck, record_failure-retry, record_failure-bury,
  record_failure-clash,
}
use distribu_q.World.{World}
use distribu_q.Jobs.{
  LockedJob, mark_job_retrying, postpone_to, mark_job_success, schedule_next_occurrence, succeed,
  job_row,
}
use distribu_q.Handlers.{Registry}
use distribu_q.Worker.{
  Runtime, Self, record_failure, next_retry, schedule_next, recur_by, recur, record_success,
  payload_of,
}
use distribu_q.Base.{
  find_row, find_row_holds, String, ◌≡◌, refl, ap, ◌∙◌, inl, inr, false, some, ltb, ◌==◌,
  Bool-cases, Option-cases, sym, Option, none, [], ◌∷◌, ◌++◌, str_eq, codes,
}

module _ (p : String) (rt : Runtime) (self : Self) (registry : Registry) (l : LockedJob) where
  -- The world while the job is in the worker's hands: its row does not wait.
  abbrev pub Settled : World → Type 0
  Settled w = IsTracked p w × ((k : Job) × (job_of l.id w.db ≡ some k) × (is_pending k ≡ false))

  -- An update of the job's row to a status that does not wait.
  settle :
      (w v : World) (f : Job → Job)
      → ((j : Job) → (f j).id ≡ j.id)
      → ((j : Job) → is_pending (f j) ≡ false)
      → v.db.jobs ≡ (update_jobs w.now (has_id l.id) f w.db).jobs
      → v.redis ≡ w.redis
      → v.redis_up ≡ w.redis_up
      → Settled w
      → Settled v
  settle w v f keep out jobs redis up (t, (k, found, _)) = (
    rw (jobs, redis, up)
        (Tracked-leave p w.db.jobs w.redis w.now (has_id l.id) f keep out t.0, t.1),
    (
      update_updated_at_column w.now (f k),
      ap (find_row (has_id l.id)) jobs
          ∙ job_of-update_hit l.id w.now (has_id l.id) f w.db (λ j. ap (λ i. i == l.id) (keep j)) k
              found (find_row_holds (has_id l.id) w.db.jobs k found),
      out k,
    ),
  )

  pub record_failure-Settled :
      (x : Exn) (w : World) → Settled w → Settled (record_failure rt self registry l x w).1
  unfolding retried mark_job_retrying archived
  record_failure-Settled x w s = elim (Bool-cases (ltb l.attempts l.max_attempts)) [
    | inl left ↦ elim (Result-cases (next_retry rt self registry l w)) [
      | inl (y, e) ↦ rw (record_failure-stuck rt self registry l x y w left e) s
      | inr (t, e) ↦
          let (es, f) = record_failure-retry rt self registry l x t w left e in
          rw f (
            settle w (retried rt self registry l x t w es) (postpone_to (rt.exn_text x) t)
              (λ j. refl) (λ j. refl) refl refl refl s)
    ]
    | inr last ↦ elim (Option-cases (find_row (has_dl_id w.fresh) w.db.dead_letters)) [
      | inl new ↦
          let (k, found, _) = s.1 in
          let (es, f) = record_failure-bury rt self registry l x k w last found new in
          rw f (
            settle w (record w { db = archived rt self registry l x w }) (archive (rt.exn_text x))
              (λ j. refl) (λ j. refl) refl refl refl s)
      | inr (d, taken) ↦
          let (k, found, _) = s.1 in
          rw (record_failure-clash rt self registry l x k d w last found taken) s
    ]
  ]

  schedule_next-IsTracked :
      (rule : String) (w : World)
      → IsTracked p w
      → IsTracked p (schedule_next rt self registry l rule w).1
  unfolding schedule_next schedule_next_occurrence schedule_job
  schedule_next-IsTracked rule w t =
      elim (Result-cases (compute_next_run rt.croniter (codes rule) w.now)) [
        | inl (x, e) ↦ rw (e, schedule_next) t
        | inr (at, e) ↦
            elim (Result-cases (
              schedule_next_occurrence w.fresh l.type (payload_of l) rule at l.max_attempts
                l.priority w.now w.db)) [
                  | inl (x, f) ↦ rw (e, f, schedule_next) t
                  | inr ((db', k), f) ↦
                      let n = next_occurrence l rule at in
                      let (new, rows, is) = create_job-ok w.fresh w.now n w.db db' k f in
                      let r = (zadd default_scheduled_set w.fresh at w.redis).0 in
                      let tracked : Tracked p (w.db.jobs ++ job_row w.fresh w.now n ∷ []) r =
                        Tracked-insert p w.db.jobs r (job_row w.fresh w.now n) new
                          (zadd-Held p w.fresh at w.redis)
                          (Tracked-redis p w.db.jobs w.redis
                            (λ s. (zadd default_scheduled_set w.fresh at s).0)
                            (zadd-Keeps p w.fresh at) t.0) in
                      rw (e, f, t.1, rows, is, schedule_next) (tracked, refl)
                ]
      ]

  recur_by-IsTracked :
      (rule : Option String) (w : World)
      → IsTracked p w
      → IsTracked p (recur_by rt self registry l rule w).1
  unfolding recur_by
  recur_by-IsTracked none w t = t
  recur_by-IsTracked (some rule) w t = elim (Bool-cases (str_eq rule "")) [
    | inl e ↦ rw (e, recur_by) t
    | inr e ↦
        rw (e, recur_by)
          (subst (IsTracked p) (sym (attempt-world (schedule_next rt self registry l rule) w))
            (schedule_next-IsTracked rule w t))
  ]

  pub record_success-Settled :
      (v : Json) (w : World) → Settled w → Settled (record_success rt self registry l v w).1
  unfolding recur mark_job_success
  record_success-Settled v w s =
      let (es, e) = record_success-world rt self registry l v w in
      let u = succeeded rt self registry l v w es in
      let (t, (k, found, out)) = settle w u (succeed v) (λ j. refl) (λ j. refl) refl refl refl s in
      let (rows, _, _, _) = recur_by-Leaves rt self registry l l.recurrence_rule u in
      rw e (recur_by-IsTracked l.recurrence_rule u t, (k, rows k found, out))
