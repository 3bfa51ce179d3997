-- ===== src/Delivery/Runs.antt =====
-- No PENDING job is lost from Redis.
use distribu_q.Api.Submit.{stamp}
use distribu_q.Result.{ok}
use distribu_q.Reaper.{default_reaper}
use distribu_q.Scheduler.{default_scheduler}
use distribu_q.Delivery.Requests.{post_job-IsTracked, cancel-IsTracked, replay-IsTracked}
use distribu_q.Delivery.{
  request_job, request_cancel, request_replay, process_by, promote_due, wake_retries, reap_stale,
  sync_all, recover_all, advance, reserve_with, run_calls, worker_named,
}
-- While a reservation waits, the other clients lose no key.
use distribu_q.Delivery.Passes.{
  IsTracked, run_once-IsTracked, promote_retries-IsTracked, run_reaper-IsTracked,
  sync_from_db-IsTracked, recover-IsTracked,
}
use distribu_q.World.{World}
use mathlib.Core.Path.{subst}
use distribu_q.Delivery.Process.{IsQuiet, reserve-IsTracked, process_job-IsTracked}
use distribu_q.Handlers.{Registry}
use distribu_q.Delivery.Rows.{is_pending, All-tail}
use distribu_q.Delivery.Held.{is_key, Held, Keeps}
use distribu_q.Schema.{Job, has_id, job_of}
use distribu_q.Worker.{Runtime}
use distribu_q.Delivery.{Call, perform}
use distribu_q.Base.{
  select, find_row, ℕ, String, ◌≡◌, refl, inl, inr, true, some, List, [], ◌∷◌, arith, eq_iff, ◌==◌,
  ==_iff, Bool-cases, All, Option,
}

abbrev pub IsFair : String → Call → Type 0
IsFair p (reserve_with wait) = Keeps p wait
IsFair p (request_job req) = (at : Option ℕ) × (stamp req.scheduled_for ≡ ok at)
IsFair p _ = Unit

is_key_self : (p : String) → is_key p p ≡ true
is_key_self p = ground (arith, eq_iff p p)

-- The row of a key is among the rows that wait if it waits.
All-found {κ} :
    (P : ℕ → Type κ) (id : ℕ) (js : List Job) (j : Job)
    → All (λ k. P k.id) (select is_pending js)
    → find_row (has_id id) js ≡ some j
    → is_pending j ≡ true
    → P id
unfolding find_row select
All-found P id [] j all found w = absurd (ground arith)
All-found P id (k ∷ js) j all found w = elim (Bool-cases (k.id == id)) [
  | inl hit ↦
      let here : some k ≡ some j = rw hit at found in
      let is : k ≡ j = cc in
      let waits : is_pending k ≡ true = rw is w in
      subst P ((==_iff k.id id).0 hit) (rw waits at all).0
  | inr miss ↦ All-found P id js j (All-tail (λ i. P i.id) is_pending k js all) (rw miss at found) w
]

module _ (p : String) (rt : Runtime) (registry : Registry) (iso : ℕ → String)
    (quiet : IsQuiet registry) where
  perform-IsTracked :
      (c : Call) (w : World)
      → IsFair p c
      → IsTracked p w
      → IsTracked p (perform p rt registry iso c w)
  unfolding perform
  perform-IsTracked (request_job req) w f t =
      post_job-IsTracked p w t rt.croniter rt.uuid_text iso req f.0 f.1
  perform-IsTracked (request_cancel id) w f t = cancel-IsTracked p w t rt.uuid_text id
  perform-IsTracked (request_replay id) w f t = replay-IsTracked p w t id
  perform-IsTracked (reserve_with wait) w f t =
      reserve-IsTracked p rt (worker_named p rt registry iso "") registry quiet wait w
        (is_key_self p) f t
  perform-IsTracked (process_by name id) w f t =
      process_job-IsTracked p rt (worker_named p rt registry iso name) registry quiet id w t
  perform-IsTracked promote_due w f t = run_once-IsTracked p w t default_scheduler refl
  perform-IsTracked wake_retries w f t = promote_retries-IsTracked p w t default_scheduler
  perform-IsTracked reap_stale w f t = run_reaper-IsTracked p w t default_scheduler
  perform-IsTracked sync_all w f t = sync_from_db-IsTracked p w t
  perform-IsTracked recover_all w f t = recover-IsTracked p w t default_reaper refl
  perform-IsTracked (advance now fresh rand) w f t = t

  run_calls-IsTracked :
      (cs : List Call) (w : World)
      → All (IsFair p) cs
      → IsTracked p w
      → IsTracked p (run_calls p rt registry iso cs w)
  unfolding run_calls
  run_calls-IsTracked [] w fair t = t
  run_calls-IsTracked (c ∷ cs) w fair t =
      run_calls-IsTracked cs (perform p rt registry iso c w) fair.1 (perform-IsTracked c w fair.0 t)

  -- While Redis answers, no two jobs share an id, handlers leave the tables and Redis alone, a
  -- submitted time has a timestamp, and the clients that act while a reservation waits in BRPOP take
  -- no key out of Redis: after any sequence of submissions, cancellations, replays, reservations, jobs
  -- that workers process (each in one piece), and passes of the scheduler and the reaper, in any
  -- order, the key of every PENDING job is in one of the three queues, in the processing list or in
  -- the sorted set of delayed jobs, if that was so before.
  pub run_calls-Held :
      (cs : List Call) (w : World) (id : ℕ) (j : Job)
      → All (IsFair p) cs
      → IsTracked p w
      → job_of id (run_calls p rt registry iso cs w).db ≡ some j
      → is_pending j ≡ true
      → Held p (run_calls p rt registry iso cs w).redis id
  run_calls-Held cs w id j fair t found waits =
      let w' = run_calls p rt registry iso cs w in
      All-found (Held p w'.redis) id w'.db.jobs j (run_calls-IsTracked cs w fair t).0.1 found waits
