-- ===== src/Delivery/Served.antt =====
-- A job that is submitted, reserved and processed.
use distribu_q.Written.{stored_value, held}
use distribu_q.Jobs.Locking.{lock-row}
use distribu_q.History.Exclusion.{HasKeys-snoc}
use distribu_q.Jobs.Lookup.{HasKeys}
use distribu_q.Jobs.{is_smallint, locked_columns}
use distribu_q.Schema.{Job, job_of, update_updated_at_column, success}
use distribu_q.Json.{Json}
use distribu_q.World.{World, Event, command}
use distribu_q.Api.{JobCreateRequest, is_accepted, check_rule, post_job, submit_job}
use distribu_q.Handlers.{Registry}
use distribu_q.Worker.{Runtime, run_handler, process_job}
use distribu_q.Result.{ok}
use distribu_q.Config.{default_queue, high_queue, low_queue}
use mathlib.Core.Path.{subst}
use distribu_q.Redis.{Redis, lpush, remove_first}
use distribu_q.Redis.Client.{enqueue_job, priority_reserve_job}
use distribu_q.Base.{
  ℕ, zero, suc, String, ◌≡◌, refl, ap, none, some, [], arith, eq_iff, ◌∙◌, true, List, ◌∷◌, ◌++◌,
  ◌+◌, ==_iff,
}
use distribu_q.Delivery.{request_job, reserve_with, process_by, worker_named, perform}
use distribu_q.Redis.Tiers.{
  Tiers, tiers, put_job, take_job, tiers-enqueue_job, IsOutside, Took, served_from, served,
  priority_reserve_job-Takes,
}
use distribu_q.Api.Submit.{submit_job-world, stored_found, row, stamp, requested}
use distribu_q.Worker.Guard.{locked_world, process_job-world}
use distribu_q.Worker.Outcomes.{work-success, Outcome}
use distribu_q.Base.Int.{pos, negsuc, ℤ}

abbrev pub no_tiers : Tiers
no_tiers = record { high = []; default = []; low = [] }

take_job-put_job :
    (id : ℕ) (priority : ℤ) → take_job (put_job id priority no_tiers) ≡ some (id, no_tiers)
take_job-put_job id (pos zero) = refl
take_job-put_job id (pos (suc n)) = refl
take_job-put_job id (negsuc n) = refl

-- The processing list is not where a job is enqueued.
lists-enqueue_job :
    (p : String) (id : ℕ) (priority : ℤ) (r : Redis)
    → IsOutside p
    → (enqueue_job id priority none r).0.lists p ≡ r.lists p
unfolding enqueue_job lpush
lists-enqueue_job p id (pos zero) r out =
    let ne = out.not_default in ground (arith, eq_iff default_queue p)
lists-enqueue_job p id (pos (suc n)) r out =
    let ne = out.not_high in ground (arith, eq_iff high_queue p)
lists-enqueue_job p id (negsuc n) r out = let ne = out.not_low in ground (arith, eq_iff low_queue p)

-- A reservation from queues that hold a job.
reserve-Took :
    (p : String) (wait : Redis → Redis) (r : Redis) (id : ℕ) (t : Tiers)
    → IsOutside p
    → take_job (tiers r) ≡ some (id, t)
    → Took p r (some (id, t)) (priority_reserve_job p wait r)
reserve-Took p wait r id t out e =
    let h = priority_reserve_job-Takes p wait r out in
    let from : served_from wait r ≡ r = ap (served wait r) e in
    let h1 : Took p r (take_job (tiers r)) (priority_reserve_job p wait r) =
      subst (λ s. Took p s (take_job (tiers s)) (priority_reserve_job p wait r)) from h in
    subst (λ o. Took p r o (priority_reserve_job p wait r)) e h1

remove_first-front : (v : ℕ) (xs : List ℕ) → remove_first v (v ∷ xs) ≡ xs
unfolding remove_first
remove_first-front v xs = let same = ==_iff v v in ground arith

command-up {ℓ} :
    {A : Type ℓ} (f : Redis → Redis × A) (u : World)
    → u.redis_up ≡ true
    → (command f u).1 ≡ record u { redis = (f u.redis).0 }
command-up f u up = rw up refl

module _ (p : String) (rt : Runtime) (registry : Registry) (iso : ℕ → String) (name : String)
    (wait : Redis → Redis) (req : JobCreateRequest) (w : World) (v : Json) where
  abbrev asked : Job
  asked = requested w.fresh w.now req

  -- The row while the worker has it.
  abbrev taken : Job
  taken = held w.now name asked

  -- The row of the request, after one attempt that returned `v`.
  abbrev served_row : Job
  served_row = record (requested w.fresh w.now req) {
    status = success;
    attempts = 1;
    result = stored_value v;
  }

  -- Redis and the world once the job is submitted.
  abbrev queued : Redis
  queued = (enqueue_job w.fresh req.priority none w.redis).0

  abbrev world_asked : List Event → World
  world_asked es = record w {
    db = record w.db { jobs = w.db.jobs ++ asked ∷ [] };
    redis = queued;
    published = es;
  }

  abbrev reserved_world : List Event → World
  reserved_world es = record (world_asked es) { redis = (priority_reserve_job p wait queued).0 }

  abbrev after_request : World
  after_request = perform p rt registry iso (request_job req) w

  abbrev after_reserve : World
  after_reserve = perform p rt registry iso (reserve_with wait) after_request

  abbrev after_work : World
  after_work = perform p rt registry iso (process_by name w.fresh) after_reserve

  module _ (accepted : is_accepted req ≡ true)
      (rule : check_rule rt.croniter rt.uuid_text iso req.recurrence_rule w.now ≡ ok tt)
      (small : is_smallint req.priority ≡ true) (new : job_of w.fresh w.db ≡ none)
      (up : w.redis_up ≡ true) (untimed : req.scheduled_for ≡ none) (out : IsOutside p)
      (idle : tiers w.redis ≡ no_tiers) where
    posted :
        post_job rt.croniter rt.uuid_text iso req w ≡ submit_job rt.croniter rt.uuid_text iso req w
    unfolding post_job
    posted = rw accepted refl

    request-world : (es : List Event) × (after_request ≡ world_asked es)
    unfolding perform
    request-world =
        let (es, e) =
          submit_job-world rt.croniter rt.uuid_text iso req w none rule small new (ap stamp untimed)
            up in
        (es, ap (λ x. x.1) (posted ∙ e))

    reserved : Took p queued (some (w.fresh, no_tiers)) (priority_reserve_job p wait queued)
    reserved = reserve-Took p wait queued w.fresh no_tiers out (
        ap take_job (tiers-enqueue_job w.fresh req.priority w.redis)
        ∙ ap (λ t. take_job (put_job w.fresh req.priority t)) idle
        ∙ take_job-put_job w.fresh req.priority)

    reserve-world : (es : List Event) × (after_reserve ≡ reserved_world es)
    unfolding perform
    reserve-world =
        let (es, e) = request-world in
        (
          es,
          ap (λ x. (command (priority_reserve_job p wait) x).1) e
              ∙ command-up (priority_reserve_job p wait) (world_asked es) up,
        )

    module _ (keys : HasKeys w.db.jobs)
        (runs : (u : World)
          → run_handler rt (worker_named p rt registry iso name) registry (locked_columns taken) u
            ≡ (ok v, u)) where
      worked :
          (es : List Event)
          → (es2 : List Event) × Outcome rt
              (worker_named p rt registry iso name)
              registry
              (locked_columns taken)
              (record (reserved_world es) { published = es2 })
              served_row
              (process_job rt
                (worker_named p rt registry iso name)
                registry
                w.fresh
                (reserved_world es)).1
      unfolding locked_world
      worked es =
          let self = worker_named p rt registry iso name in
          let u = reserved_world es in
          let found = stored_found rt.croniter rt.uuid_text iso req w new in
          let unique = HasKeys-snoc w.db.jobs asked keys new in
          let (es2, s) = process_job-world rt self registry w.fresh u asked unique found refl in
          let lw = locked_world rt self registry w.fresh u asked es2 in
          let (row, ack, count) =
            work-success rt self registry (locked_columns taken) lw lw v
              (update_updated_at_column w.now taken) (runs lw)
              (lock-row w.fresh w.now name u.db asked found) in
          let left = ap (λ x. x.1) s in
          (
            es2,
            (
              ap (λ x. job_of w.fresh x.db) left ∙ row,
              ap (λ x. x.redis.lists p) left ∙ ack,
              ap (λ x. x.jobs_processed) left ∙ count,
            ),
          )

      -- A request that is accepted, with a valid rule, a priority that fits a SMALLINT, no time and a
      -- new key, while Redis answers, no two jobs share an id and no other job waits in a queue; then
      -- a reservation, whatever other clients do while one waits; then `process_job` of that key,
      -- where the handler returns `v` and leaves the world alone: the reservation returns the key and
      -- leaves the queues empty; the row is that of the request with the status SUCCESS, the result `v`
      -- (NULL for None) and one attempt, so without an error or a lock; the
      -- processing list is as it was before the request; the worker counts one job more.
      pub perform-serves :
          ((priority_reserve_job p wait after_request.redis).1 ≡ some w.fresh)
          × (tiers after_reserve.redis ≡ no_tiers)
          × (job_of w.fresh after_work.db ≡ some served_row)
          × (after_work.redis.lists p ≡ w.redis.lists p)
          × (after_work.jobs_processed ≡ w.jobs_processed + 1)
      unfolding perform
      perform-serves =
          let (es1, e1) = request-world in
          let (es, e) = reserve-world in
          let (es2, (row, ack, count)) = worked es in
          let (got, rest, list) = reserved in
          let left =
            ap (λ x. (process_job rt (worker_named p rt registry iso name) registry w.fresh x).1)
              e in
          (
            ap (λ x. (priority_reserve_job p wait x.redis).1) e1 ∙ got,
            ap (λ x. tiers x.redis) e ∙ rest,
            ap (λ x. job_of w.fresh x.db) left ∙ row,
            ap (λ x. x.redis.lists p) left
                ∙ ack
                ∙ rw up refl
                ∙ ap (remove_first w.fresh) list
                ∙ remove_first-front w.fresh (queued.lists p)
                ∙ lists-enqueue_job p w.fresh req.priority w.redis out,
            ap (λ x. x.jobs_processed) left ∙ count,
          )
