-- ===== src/Delivery/Forgotten.antt =====
-- The passes never bring a lost job back, and no worker takes it again.
use distribu_q.Delivery.Lost.{
  IsLost, promote_due-IsLost, wake_retries-IsLost, reap_stale-IsLost, sync_all-IsLost,
  recover_all-IsLost,
}
use distribu_q.World.{World}
use distribu_q.Schema.{Job, job_of}
use distribu_q.Handlers.{Registry}
use distribu_q.Worker.{Runtime}
use distribu_q.Redis.Client.{first_waiting, after_brpop, priority_reserve_job, ordered, or_else}
use distribu_q.Delivery.Held.{elem-pop_last}
use distribu_q.Delivery.Stranded.{Absent, is_queue, is_pass}
use distribu_q.Redis.Schedule.{elem}
use distribu_q.Redis.{pop_last, Redis, brpop, rpoplpush}
use distribu_q.Base.{
  ℕ, String, ◌≡◌, refl, ap, ◌≢◌, inl, inr, true, false, Option, none, some, List, [], ◌∷◌, arith,
  ◌==◌, Option-cases, All,
}
use distribu_q.Delivery.{
  Call, perform, run_calls, request_job, request_cancel, request_replay, reserve_with, process_by,
  promote_due, wake_retries, reap_stale, sync_all, recover_all, advance,
}

module _ (id : ℕ) where
  popped-ne :
      (xs ys : List ℕ) (v : ℕ) → pop_last xs ≡ some (ys, v) → elem id xs ≡ false → (v == id) ≡ false
  popped-ne xs ys v e out = ground (arith, elem-pop_last id v xs ys e)

  -- What a reservation returns is not the key.
  Other : Redis × Option ℕ → Type 0
  Other x = x.1 ≢ some id

  module _ (p : String) (r : Redis) (a : Absent id r) where
    brpop-Other :
        (qs : List String) → All (λ q. is_queue q ≡ true) qs → Other (after_brpop p (brpop qs r))
    unfolding after_brpop brpop Other
    brpop-Other [] queues = λ e. cc
    brpop-Other (q ∷ qs) queues = elim (Option-cases (pop_last (r.lists q))) [
      | inl e ↦ rw (e, brpop) (brpop-Other qs queues.1)
      | inr ((rest, v), e) ↦
          let ne = popped-ne (r.lists q) rest v e (a.0 q queues.0) in
          rw (e, brpop)
            (λ same.
              let is : v ≡ id = ap (λ o. elim o [ none ↦ v | some i ↦ i ]) same in
              absurd (ground arith))
    ]

    first_waiting-Other :
        (qs : List String)
        → All (λ q. is_queue q ≡ true) qs
        → Other (after_brpop p (brpop ordered r))
        → Other (or_else (first_waiting qs p r) (λ s. after_brpop p (brpop ordered s)))
    unfolding first_waiting rpoplpush Other
    first_waiting-Other [] queues last = last
    first_waiting-Other (q ∷ qs) queues last = elim (Option-cases (pop_last (r.lists q))) [
      | inl e ↦ rw (e, first_waiting, rpoplpush) (first_waiting-Other qs queues.1 last)
      | inr ((rest, v), e) ↦
          let ne = popped-ne (r.lists q) rest v e (a.0 q queues.0) in
          rw (e, first_waiting, rpoplpush)
            (λ same.
              let is : v ≡ id = ap (λ o. elim o [ none ↦ v | some i ↦ i ]) same in
              absurd (ground arith))
    ]

    reserve-Other : Other (priority_reserve_job p (λ s. s) r)
    unfolding priority_reserve_job
    reserve-Other =
        first_waiting-Other ordered (refl, (refl, (refl, tt)))
          (brpop-Other ordered (refl, (refl, (refl, tt))))

module _ (p : String) (rt : Runtime) (registry : Registry) (iso : ℕ → String) (id : ℕ)
    (j : Job) where
  perform-IsLost :
      (c : Call) (w : World)
      → is_pass c ≡ true
      → IsLost id j w
      → IsLost id j (perform p rt registry iso c w)
  unfolding perform
  perform-IsLost promote_due w pass t = promote_due-IsLost id j w t
  perform-IsLost wake_retries w pass t = wake_retries-IsLost id j w t
  perform-IsLost reap_stale w pass t = reap_stale-IsLost id j w t
  perform-IsLost sync_all w pass t = sync_all-IsLost id j w t
  perform-IsLost recover_all w pass t = recover_all-IsLost id j w t
  perform-IsLost (advance now fresh rand) w pass t = record {
    keys = t.keys;
    found = t.found;
    waits = t.waits;
    untimed = t.untimed;
    absent_key = t.absent_key;
    up = t.up;
  }
  perform-IsLost (request_job req) w pass t = absurd (ground arith)
  perform-IsLost (request_cancel i) w pass t = absurd (ground arith)
  perform-IsLost (request_replay i) w pass t = absurd (ground arith)
  perform-IsLost (reserve_with wait) w pass t = absurd (ground arith)
  perform-IsLost (process_by name i) w pass t = absurd (ground arith)

  run_calls-IsLost :
      (cs : List Call) (w : World)
      → All (λ c. is_pass c ≡ true) cs
      → IsLost id j w
      → IsLost id j (run_calls p rt registry iso cs w)
  unfolding run_calls
  run_calls-IsLost [] w passes t = t
  run_calls-IsLost (c ∷ cs) w passes t =
      run_calls-IsLost cs (perform p rt registry iso c w) passes.1 (perform-IsLost c w passes.0 t)

  -- A PENDING job without a time whose key is in no queue, as a worker leaves it that dies between
  -- its reservation and its lock: however many passes of the scheduler and of the reaper follow, in
  -- any order and at any times, and with every start of the scheduler between them, its row stays as it is, and the next reservation of a
  -- worker does not return it.
  pub passes-forget :
      (cs : List Call) (w : World)
      → All (λ c. is_pass c ≡ true) cs
      → IsLost id j w
      → let w' = run_calls p rt registry iso cs w in
        (job_of id w'.db ≡ some j) × ((priority_reserve_job p (λ r. r) w'.redis).1 ≢ some id)
  unfolding Other
  passes-forget cs w passes t =
      let t' = run_calls-IsLost cs w passes t in
      (t'.found, reserve-Other id p (run_calls p rt registry iso cs w).redis t'.absent_key)
