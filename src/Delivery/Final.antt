-- ===== src/Delivery/Final.antt =====
-- A job that is finished stays as it is, whatever the processes do.
use mathlib.Core.Path.{subst}
use distribu_q.Worker.Guard.{process_job-skips}
use distribu_q.Worker.Frame.{acknowledge-frame}
use distribu_q.World.{World}
use distribu_q.Delivery.WorkerCommits.{CommitsAll}
use distribu_q.Jobs.Lookup.{HasKeys}
use distribu_q.Handlers.{Registry}
use distribu_q.Worker.{Runtime, process_job, acknowledge}
use distribu_q.Schema.{Job, Db, job_of}
use distribu_q.Base.{
  ℕ, String, ◌≡◌, refl, inl, inr, Bool, true, false, some, List, [], ◌∷◌, arith, ◌==◌, ==_iff,
  Bool-cases, All, sym, ap, ◌∙◌,
}
use distribu_q.Delivery.{
  request_job, request_cancel, request_replay, reserve_with, process_by, promote_due, wake_retries,
  reap_stale, sync_all, recover_all, advance, worker_named, Call, perform, run_calls,
}
use distribu_q.Delivery.Commits.{Reaches, AllowsJob}
use distribu_q.Delivery.Refinement.{Allowed, AllowsRest, perform-Reaches}
use distribu_q.History.Exclusion.{run-HasKeys}
use distribu_q.History.Final.{is_final, final-not, Sparing, run-final}

abbrev pub is_replay : Call → Bool
is_replay (request_replay id) = true
is_replay _ = false

module _ (id : ℕ) (j : Job) (final : is_final j.status ≡ true) where
  abbrev Kept : Db → Type 0
  Kept db = HasKeys db.jobs × (job_of id db ≡ some j)

  Reaches-Kept : (db db' : Db) → Reaches (Sparing id) db db' → Kept db → Kept db'
  Reaches-Kept db db' (ts, kinds, e) (keys, found) =
      rw e (run-HasKeys ts db keys, run-final id j final ts db kinds found)

  rest-Sparing : AllowsRest (Sparing id)
  rest-Sparing = record {
    adds = λ i n. refl;
    cancelled = λ i. refl;
    passes = record { stale = λ t. refl; due = refl; expired = λ t. refl };
  }

  job-Sparing : (i : ℕ) → (i == id) ≡ false → AllowsJob (Sparing id) i
  job-Sparing i ne = record {
    locked = λ w. refl;
    succeeded = λ v. rw ne refl;
    retried = λ m t. rw ne refl;
    archived = λ d m n. rw ne refl;
  }

  module _ (p : String) (rt : Runtime) (registry : Registry) (iso : ℕ → String)
      (all : CommitsAll (Sparing id) registry) where
    -- No worker runs the job again.
    skipped :
        (name : String) (w : World)
        → Kept w.db
        → process_job rt (worker_named p rt registry iso name) registry id w
          ≡ acknowledge rt (worker_named p rt registry iso name) registry id w
    skipped name w (keys, found) =
        let (idle, busy, resting) = final-not j.status final in
        process_job-skips rt (worker_named p rt registry iso name) registry id w j keys found
          (rw (idle, resting) refl)

    process_by-Kept :
        (name : String) (i : ℕ) (w : World)
        → Kept w.db
        → Kept (perform p rt registry iso (process_by name i) w).db
    unfolding perform
    process_by-Kept name i w kept = elim (Bool-cases (i == id)) [
      | inl e ↦
          let self = worker_named p rt registry iso name in
          let same : i ≡ id = (==_iff i id).0 e in
          let (r, f) = acknowledge-frame rt self registry id w in
          let left = ap (λ x. x.1) (skipped name w kept) ∙ f in
          subst (λ k. Kept (process_job rt self registry k w).1.db) (sym same)
            (subst (λ v. Kept v.db) (sym left) kept)
      | inr ne ↦
          Reaches-Kept w.db (process_job rt (worker_named p rt registry iso name) registry i w).1.db
            (perform-Reaches (Sparing id) p rt registry iso rest-Sparing all (process_by name i) w
              (job-Sparing i ne))
            kept
    ]

    by_rest :
        (c : Call) (w : World)
        → Allowed (Sparing id) c
        → Kept w.db
        → Kept (perform p rt registry iso c w).db
    by_rest c w h =
        Reaches-Kept w.db (perform p rt registry iso c w).db
          (perform-Reaches (Sparing id) p rt registry iso rest-Sparing all c w h)

    perform-Kept :
        (c : Call) (w : World)
        → is_replay c ≡ false
        → Kept w.db
        → Kept (perform p rt registry iso c w).db
    perform-Kept (process_by name i) w once kept = process_by-Kept name i w kept
    perform-Kept (request_replay i) w once kept = absurd (ground arith)
    perform-Kept (request_job req) w once kept = by_rest (request_job req) w tt kept
    perform-Kept (request_cancel i) w once kept = by_rest (request_cancel i) w tt kept
    perform-Kept (reserve_with wait) w once kept = by_rest (reserve_with wait) w tt kept
    perform-Kept promote_due w once kept = by_rest promote_due w tt kept
    perform-Kept wake_retries w once kept = by_rest wake_retries w tt kept
    perform-Kept reap_stale w once kept = by_rest reap_stale w tt kept
    perform-Kept sync_all w once kept = by_rest sync_all w tt kept
    perform-Kept recover_all w once kept = by_rest recover_all w tt kept
    perform-Kept (advance now fresh rand) w once kept = by_rest (advance now fresh rand) w tt kept

    run_calls-Kept :
        (cs : List Call) (w : World)
        → All (λ c. is_replay c ≡ false) cs
        → Kept w.db
        → Kept (run_calls p rt registry iso cs w).db
    unfolding run_calls
    run_calls-Kept [] w once kept = kept
    run_calls-Kept (c ∷ cs) w once kept =
        run_calls-Kept cs (perform p rt registry iso c w) once.1 (perform-Kept c w once.0 kept)

    -- A job that is SUCCESS, FAILED or DEAD_LETTER, where no two jobs share an id and the handlers
    -- leave its row alone, at the grain of calls, each `process_job` being one indivisible step, so
    -- that no worker holds the job from before or loses its lock while it works: after any sequence
    -- of requests but replays, of reservations, of `process_job` calls and of passes of the scheduler
    -- and the reaper, while Redis answers or not, its row stays exactly as it is, and a worker that
    -- gets its key then acknowledges it without a call of its handler.
    pub run_calls-final :
        (cs : List Call) (w : World)
        → All (λ c. is_replay c ≡ false) cs
        → HasKeys w.db.jobs
        → job_of id w.db ≡ some j
        → let w' = run_calls p rt registry iso cs w in
          (job_of id w'.db ≡ some j)
          × ((name : String)
              → process_job rt (worker_named p rt registry iso name) registry id w'
                ≡ acknowledge rt (worker_named p rt registry iso name) registry id w')
    run_calls-final cs w once keys found =
        let kept = run_calls-Kept cs w once (keys, found) in
        (kept.1, λ name. skipped name (run_calls p rt registry iso cs w) kept)
