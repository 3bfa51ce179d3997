-- ===== src/Delivery/Requests.antt =====
-- The requests of clients leave every PENDING job's key in Redis.
use distribu_q.Jobs.Lookup.{job_of-update_hit}
use distribu_q.Jobs.{
  create_job, job_row, CancelRecord, cancel_job, cancel_columns, can_cancel, cancelled, updated_or,
}
use mathlib.Core.Path.{subst}
use distribu_q.Delivery.Commands.{zadd-Held, zadd-Keeps, zrem-Held, lrem_all-Held}
use distribu_q.DeadLetters.{replay_dead_letter, matches, reset}
use distribu_q.Config.{default_queue, high_queue, low_queue, default_scheduled_set}
use distribu_q.Api.Submit.{
  placed, submit_job-rule, submit_job-create, created, submit_job-world, stamp,
}
use distribu_q.Result.{Result, Result-cases, ok}
use distribu_q.Delivery.Held.{Keeps, Held}
use distribu_q.Schema.{
  Job, has_id, pending, job_of, is_status, update_jobs, update_updated_at_column,
}
use distribu_q.Api.Cancel.{withdrawn, withdraw-world}
use distribu_q.Api.{
  JobCreateRequest, post_job, replay_dead_letter_job, is_accepted, submit_job, check_rule, new_job,
  cancel_job_by_id, withdraw,
}
use distribu_q.Delivery.Passes.{IsTracked, enqueue_job-Held, enqueue_job-Keeps}
use distribu_q.Redis.{Redis, lrem_all}
use distribu_q.World.{World, ◌>>◌, pure}
use distribu_q.Delivery.Rows.{
  KeepsOthers, All-imp, Tracked-wake, Tracked-redis, Tracked-insert, is_pending, Tracked-drop,
  Tracked-leave, absent,
}
use distribu_q.Redis.Client.{schedule_job, enqueue_job}
use distribu_q.Base.Int.{pos, ℤ}
use distribu_q.Base.{
  select, find_row, All-condition, ℕ, String, ◌≡◌, refl, sym, inl, inr, true, none, List, ==_iff,
  Bool-cases, Option-cases, All, find_row_holds, false, some, Option,
}

module _ (p : String) where
  withdrawn-KeepsOthers : (id : ℕ) → KeepsOthers p id (withdrawn id)
  withdrawn-KeepsOthers id r i ne h =
      let r1 = (lrem_all default_queue id r).0 in
      let r2 = (lrem_all high_queue id r1).0 in
      let r3 = (lrem_all low_queue id r2).0 in
      zrem-Held p default_scheduled_set id i r3 ne (
        lrem_all-Held p low_queue id i r2 ne
          (lrem_all-Held p high_queue id i r1 ne (lrem_all-Held p default_queue id i r ne h)))

  All-has_id :
      (v : ℕ) (r : Redis) (js : List Job)
      → Held p r v
      → All (λ j. Held p r j.id) (select (has_id v) js)
  All-has_id v r js h =
      All-imp (λ j. has_id v j ≡ true) (λ j. Held p r j.id) (select (has_id v) js)
        (λ j e. subst (Held p r) (sym ((==_iff j.id v).0 e)) h) (All-condition (has_id v) js)

  placed-Keeps : (id : ℕ) (priority : ℤ) (at : Option ℕ) → Keeps p (placed id priority at)
  unfolding schedule_job
  placed-Keeps id priority none r i h = enqueue_job-Keeps p id priority r i h
  placed-Keeps id priority (some t) r i h = zadd-Keeps p id t r i h

  placed-Held :
      (id : ℕ) (priority : ℤ) (at : Option ℕ) (r : Redis) → Held p (placed id priority at r) id
  unfolding schedule_job
  placed-Held id priority none r = enqueue_job-Held p id priority r
  placed-Held id priority (some t) r = zadd-Held p id t r

  module _ (w : World) (t : IsTracked p w) where
    submit_job-IsTracked :
        (croniter : List ℕ → ℕ → Result ℕ) (uuid_text iso : ℕ → String) (req : JobCreateRequest)
        (at : Option ℕ)
        → stamp req.scheduled_for ≡ ok at
        → IsTracked p (submit_job croniter uuid_text iso req w).1
    submit_job-IsTracked croniter uuid_text iso req at time =
        elim (Result-cases (check_rule croniter uuid_text iso req.recurrence_rule w.now)) [
          | inl (x, bad) ↦ rw (submit_job-rule croniter uuid_text iso req w x bad) t
          | inr (_, good) ↦ elim (Result-cases (create_job w.fresh (new_job req) w.now w.db)) [
            | inl (x, full) ↦ rw (submit_job-create croniter uuid_text iso req w x good full) t
            | inr (y, made) ↦
                let (small, new) = created croniter uuid_text iso req w y made in
                let (es, e) =
                  submit_job-world croniter uuid_text iso req w at good small new time t.1 in
                rw e (
                  Tracked-insert p w.db.jobs (placed w.fresh req.priority at w.redis)
                      (job_row w.fresh w.now (new_job req)) new
                      (placed-Held w.fresh req.priority at w.redis)
                      (Tracked-redis p w.db.jobs w.redis (placed w.fresh req.priority at)
                        (placed-Keeps w.fresh req.priority at) t.0),
                  t.1,
                )
          ]
        ]

    pub post_job-IsTracked :
        (croniter : List ℕ → ℕ → Result ℕ) (uuid_text iso : ℕ → String) (req : JobCreateRequest)
        (at : Option ℕ)
        → stamp req.scheduled_for ≡ ok at
        → IsTracked p (post_job croniter uuid_text iso req w).1
    unfolding post_job
    post_job-IsTracked croniter uuid_text iso req at time = elim (Bool-cases (is_accepted req)) [
      | inl e ↦ rw e (submit_job-IsTracked croniter uuid_text iso req at time)
      | inr e ↦ rw e t
    ]

    pub replay-IsTracked : (identifier : ℕ) → IsTracked p (replay_dead_letter_job identifier w).1
    unfolding replay_dead_letter_job replay_dead_letter
    replay-IsTracked identifier =
        elim (Option-cases (find_row (matches identifier) w.db.dead_letters)) [
          | inl e ↦ rw (e, replay_dead_letter) t
          | inr (d, e) ↦
              let r = (enqueue_job d.job_id (pos 0) none w.redis).0 in
              rw (e, t.1, replay_dead_letter)
                (
                  Tracked-wake p w.db.jobs r w.now (has_id d.job_id) reset (λ j. refl)
                      (All-has_id d.job_id r w.db.jobs
                        (enqueue_job-Held p d.job_id (pos 0) w.redis))
                      (Tracked-redis p w.db.jobs w.redis
                        (λ s. (enqueue_job d.job_id (pos 0) none s).0)
                        (enqueue_job-Keeps p d.job_id (pos 0)) t.0),
                  refl,
                )
        ]

    -- Once the row of the job does not wait, its key may go.
    withdraw-IsTracked :
        (uuid_text : ℕ → String) (id : ℕ) (c : CancelRecord) (v : World) (j : Job)
        → IsTracked p v
        → job_of id v.db ≡ some j
        → is_pending j ≡ false
        → IsTracked p ((withdraw uuid_text id c >> pure c) v).1
    withdraw-IsTracked uuid_text id c v j tracked found out =
        let (es, e) = withdraw-world uuid_text id v j c v tracked.1 in
        rw e (
          Tracked-drop p v.db.jobs v.redis id (withdrawn id) (withdrawn-KeepsOthers id)
              (absent is_pending id v.db.jobs j tracked.0.0 found out) tracked.0,
          tracked.1,
        )

    pub cancel-IsTracked :
        (uuid_text : ℕ → String) (id : ℕ) → IsTracked p (cancel_job_by_id uuid_text id w).1
    unfolding cancel_job_by_id cancel_job
    cancel-IsTracked uuid_text id = elim (Option-cases (job_of id w.db)) [
      | inl e ↦ rw (e, cancel_job) t
      | inr (j, e) ↦ elim (Bool-cases (is_status j.status pending)) [
        | inr busy ↦
            rw (e, busy, cancel_job)
              (withdraw-IsTracked uuid_text id (cancel_columns j) w j t e busy)
        | inl free ↦
            let v : World = record w { db = update_jobs w.now (can_cancel id) cancelled w.db } in
            let tracked : IsTracked p v = (
              Tracked-leave p w.db.jobs w.redis w.now (can_cancel id) cancelled (λ k. refl)
                  (λ k. refl) t.0,
              t.1,
            ) in
            rw (e, free, cancel_job)
              (withdraw-IsTracked uuid_text id (updated_or j (find_row (can_cancel id) w.db.jobs)) v
                (update_updated_at_column w.now (cancelled j)) tracked
                (job_of-update_hit id w.now (can_cancel id) cancelled w.db (λ k. refl) j e
                  (rw (find_row_holds (has_id id) w.db.jobs j e, free) refl))
                refl)
      ]
    ]
