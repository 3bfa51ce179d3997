-- ===== src/Delivery/Process.antt =====
-- `process_job` and the reservation before it leave every PENDING job's key in Redis.
-- The parts of the world that the processes share.
use mathlib.Core.Path.{subst}
use distribu_q.Jobs.Lookup.{id-job_of}
use distribu_q.Handlers.Objects.{get_handler-All}
use distribu_q.Delivery.Reserving.{priority_reserve_job-Keeps}
use distribu_q.Delivery.Commands.{lrem_first-Held}
use distribu_q.Worker.Settle.{body-err, body-ok}
use distribu_q.Result.{Result-cases}
use distribu_q.Delivery.Rows.{
  is_pending, Tracked-drop, absent, Tracked-redis, absent-none, Tracked-leave,
}
use distribu_q.Delivery.Passes.{IsTracked}
use distribu_q.Delivery.Work.{Settled, record_failure-Settled, record_success-Settled}
use distribu_q.Delivery.Held.{is_key, Keeps}
use distribu_q.Redis.Client.{ack_job, priority_reserve_job}
use distribu_q.Jobs.Locking.{claimable, lock-row}
use distribu_q.Jobs.{LockedJob, fetch_and_lock_job, locked_columns, lock, can_lock}
use distribu_q.Schema.{Job, job_of, update_updated_at_column}
use distribu_q.Worker.Guard.{
  locked_world, process_job-missing, process_job-skips, process_job-world,
}
use distribu_q.Redis.{Redis, lrem_first}
use distribu_q.Worker.{
  Runtime, Self, run_handler, work, acknowledge, complete, process_job, record_failure,
  handler_payload, payload_of,
}
use distribu_q.Handlers.{Registry, execute_handler, HandlerFunc, get_handler}
use distribu_q.World.{World, catch, command}
use distribu_q.Base.{
  select, ℕ, String, ◌≡◌, refl, sym, ap, ◌∙◌, inl, inr, true, false, some, arith, ◌==◌, Bool-cases,
  Option-cases, All,
}
use distribu_q.Json.{null, bool, int, dec, str, arr, obj, Fields, Json}

abbrev pub SameStore : World → World → Type 0
SameStore w u = (u.db ≡ w.db) × (u.redis ≡ w.redis) × (u.redis_up ≡ w.redis_up)

-- Handlers that leave Postgres and Redis to the worker.
abbrev pub IsQuiet : Registry → Type 0
IsQuiet registry = All (λ e. (fs : Fields) (w : World) → SameStore w (e.1 fs w).1) registry

module _ (p : String) (rt : Runtime) (self : Self) (registry : Registry)
    (quiet : IsQuiet registry) where
  run_handler-SameStore :
      (l : LockedJob) (w : World) → SameStore w (run_handler rt self registry l w).1
  unfolding run_handler execute_handler
  run_handler-SameStore l w = elim (Result-cases (get_handler l.type registry)) [
    | inl (x, e) ↦ rw (e, run_handler) (refl, refl, refl)
    | inr (h, e) ↦
        rw (e, run_handler)
          (run (handler_payload (payload_of l)) h (
            get_handler-All (λ g. (fs : Fields) (v : World) → SameStore v (g fs v).1) l.type h
              registry quiet e))
  ]
    where
      run :
          (v : Json) (h : HandlerFunc)
          → ((fs : Fields) (u : World) → SameStore u (h fs u).1)
          → SameStore w (execute_handler h v w).1
      run (obj fs) h q = q fs w
      run null h q = (refl, refl, refl)
      run (bool b) h q = (refl, refl, refl)
      run (int i) h q = (refl, refl, refl)
      run (dec d) h q = (refl, refl, refl)
      run (str s) h q = (refl, refl, refl)
      run (arr xs) h q = (refl, refl, refl)

  -- The body of `work`, whatever the handler answers.
  body-Settled :
      (l : LockedJob) (w : World)
      → Settled p rt self registry l w
      → Settled p rt self registry l
          (catch (complete rt self registry l) (record_failure rt self registry l) w).1
  body-Settled l w s =
      let u = (run_handler rt self registry l w).1 in
      let (db, redis, up) = run_handler-SameStore l w in
      let s' : Settled p rt self registry l u = rw (db, redis, up) s in
      elim (Result-cases (run_handler rt self registry l w).0) [
        | inl (x, e) ↦
            rw (body-err rt self registry l w u x (ap (λ r. (r, u)) e))
              (record_failure-Settled p rt self registry l x u s')
        | inr (v, e) ↦
            rw (body-ok rt self registry l w u v (ap (λ r. (r, u)) e))
              (record_success-Settled p rt self registry l v u s')
      ]

  acknowledge-IsTracked :
      (id : ℕ) (w : World)
      → All (λ j. (j.id == id) ≡ false) (select is_pending w.db.jobs)
      → IsTracked p w
      → IsTracked p (acknowledge rt self registry id w).1
  unfolding acknowledge ack_job
  acknowledge-IsTracked id w others t = rw t.1 (
    Tracked-drop p w.db.jobs w.redis id (λ r. (lrem_first self.processing_queue id r).0)
        (λ r i ne h. lrem_first-Held p self.processing_queue id i r ne h) others t.0,
    refl,
  )

  work-IsTracked :
      (l : LockedJob) (w : World)
      → Settled p rt self registry l w
      → IsTracked p (work rt self registry l w).1
  unfolding work
  work-IsTracked l w s =
      let v = (catch (complete rt self registry l) (record_failure rt self registry l) w).1 in
      let (t, (k, found, out)) = body-Settled l w s in
      acknowledge-IsTracked l.id v (absent is_pending l.id v.db.jobs k t.0.0 found out) t

  not_pending : (j : Job) → claimable j.status ≡ false → is_pending j ≡ false
  not_pending j e = ground arith

  pub process_job-IsTracked :
      (id : ℕ) (w : World) → IsTracked p w → IsTracked p (process_job rt self registry id w).1
  unfolding locked_world fetch_and_lock_job
  process_job-IsTracked id w t = elim (Option-cases (job_of id w.db)) [
    | inl none_there ↦
        rw (process_job-missing rt self registry id w none_there)
          (acknowledge-IsTracked id w (absent-none is_pending id w.db.jobs none_there) t)
    | inr (j, found) ↦ elim (Bool-cases (claimable j.status)) [
      | inr busy ↦ rw (process_job-skips rt self registry id w j t.0.0 found busy) (
          acknowledge-IsTracked id w
            (absent is_pending id w.db.jobs j t.0.0 found (not_pending j busy)) t)
      | inl free ↦
          let l = locked_columns (lock self.worker_id w.now j) in
          let (es, e) = process_job-world rt self registry id w j t.0.0 found free in
          let v = locked_world rt self registry id w j es in
          let same : id ≡ j.id = sym (id-job_of id w.db j found) in
          let k = update_updated_at_column w.now (lock self.worker_id w.now j) in
          let row : job_of id v.db ≡ some k =
            lock-row id w.now self.worker_id w.db j found ∙ rw free refl in
          let s : Settled p rt self registry l v = (
            (
              Tracked-leave p w.db.jobs w.redis w.now (can_lock id) (lock self.worker_id w.now)
                  (λ k. refl) (λ k. refl) t.0,
              t.1,
            ),
            (k, subst (λ i. job_of i v.db ≡ some k) same row, refl),
          ) in
          rw e (work-IsTracked l v s)
    ]
  ]

  pub reserve-IsTracked :
      (wait : Redis → Redis) (w : World)
      → is_key p p ≡ true
      → Keeps p wait
      → IsTracked p w
      → IsTracked p (command (priority_reserve_job p wait) w).1
  reserve-IsTracked wait w key others t = rw t.1 (
    Tracked-redis p w.db.jobs w.redis (λ r. (priority_reserve_job p wait r).0)
        (priority_reserve_job-Keeps p key wait others) t.0,
    refl,
  )
