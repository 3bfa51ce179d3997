-- ===== src/Worker/Settle.antt =====
-- What `process_job` records of a job whose handler has run.
use distribu_q.Config.{default_scheduled_set}
use mathlib.Core.Path.{subst}
use distribu_q.Jobs.Lookup.{job_of-create_job}
use distribu_q.Recurrence.{compute_next_run}
use distribu_q.Redis.{zadd, Redis, remove_first, lrem_first}
use distribu_q.Redis.Client.{schedule_job, ack_job}
use distribu_q.Schema.{Job, job_of}
use distribu_q.Jobs.{LockedJob, mark_job_success, schedule_next_occurrence, NewJob}
use distribu_q.Handlers.{Registry}
use distribu_q.World.{World, Event, Action, catch, pure, recover, command_}
use distribu_q.Json.{Fields, Json}
use distribu_q.Events.{publish_event, emit_job_status_changed}
use distribu_q.Worker.{
  Runtime, Self, recur, complete, emit, run_handler, record_success, recur_by, schedule_next,
  payload_of, work, record_failure, acknowledge,
}
use distribu_q.Base.{
  String, ◌≡◌, refl, inl, inr, List, Bool-cases, ◌+◌, ap, ◌∙◌, Option, none, some, [], ◌∷◌, ◌++◌,
  str_eq, codes, arith, if◌then◌else◌, sym, ℕ, eq_iff,
}
use distribu_q.Result.{err, ok, Exn, Result, Result-cases}

pub publish_event-world :
    (t : String) (fs : Fields) (w : World)
    → (es : List Event) × (publish_event t fs w ≡ (ok tt, record w { published = es }))
unfolding publish_event
publish_event-world t fs w = elim (Bool-cases w.redis_up) [
  | inl up ↦ (
    w.published ++ record { event = t; timestamp = w.now; payload = fs } ∷ [],
    rw (up, publish_event) refl,
  )
  | inr down ↦ (w.published, rw (down, publish_event) refl)
]

-- Redis commands change Redis alone, and only while it answers.
pub command_-world :
    (f : Redis → Redis) (w : World)
    → (command_ f w).1 ≡ record w { redis = if w.redis_up then f w.redis else w.redis }
command_-world f w = elim (Bool-cases w.redis_up) [ inl e ↦ rw e refl | inr e ↦ rw e refl ]

-- The submission of the run after this one.
abbrev pub next_occurrence : LockedJob → String → ℕ → NewJob
next_occurrence l rule t = record {
  type = l.type;
  payload = payload_of l;
  priority = l.priority;
  max_attempts = l.max_attempts;
  scheduled_for = some t;
  recurrence_rule = some rule;
}

-- An action that is caught with `pass` does not raise.
catch-ok : (m : Action) (w : World) → (catch m (λ _. pure tt) w).0 ≡ ok tt
catch-ok m w = helper (m w).0
  where
    helper : (r : Result (Unit {0})) → (recover (λ _. pure tt) r (m w).1).0 ≡ ok tt
    helper (err x) = refl
    helper (ok a) = refl

module _ (rt : Runtime) (self : Self) (registry : Registry) (l : LockedJob) where
  -- Events never raise, and change the list of published events alone.
  pub emit-world :
      (s : String) (w : World)
      → (es : List Event) × (emit rt self registry l s w ≡ (ok tt, record w { published = es }))
  unfolding emit emit_job_status_changed
  emit-world s w = publish_event-world _ _ w

  -- `recur` never raises.
  recur_by-ok : (r : Option String) (w : World) → (recur_by rt self registry l r w).0 ≡ ok tt
  unfolding recur_by
  recur_by-ok none w = refl
  recur_by-ok (some rule) w = elim (Bool-cases (str_eq rule "")) [
    | inl e ↦ rw e refl
    | inr e ↦ rw e (catch-ok (schedule_next rt self registry l rule) w)
  ]

  -- What `record_success` leaves before the next occurrence is scheduled.
  abbrev pub succeeded : Json → World → List Event → World
  succeeded v w es = record w {
    db = mark_job_success l.id v w.now w.db;
    jobs_processed = w.jobs_processed + 1;
    published = es;
  }

  pub record_success-world :
      (v : Json) (w : World)
      → (es : List Event) × (record_success rt self registry l v w
          ≡ recur rt self registry l (succeeded v w es))
  unfolding record_success
  record_success-world v w =
      let (es, e) = emit-world "SUCCESS" (succeeded v w w.published) in (es, rw e refl)

  record_success-ok : (v : Json) (w : World) → (record_success rt self registry l v w).0 ≡ ok tt
  unfolding recur
  record_success-ok v w =
      let (es, e) = record_success-world v w in
      ap (λ r. r.0) e ∙ recur_by-ok l.recurrence_rule (succeeded v w es)

  complete-err :
      (w w2 : World) (x : Exn)
      → run_handler rt self registry l w ≡ (err x, w2)
      → complete rt self registry l w ≡ (err x, w2)
  unfolding complete
  complete-err w w2 x e = rw e

  complete-ok :
      (w w2 : World) (v : Json)
      → run_handler rt self registry l w ≡ (ok v, w2)
      → complete rt self registry l w ≡ record_success rt self registry l v w2
  unfolding complete
  complete-ok w w2 v e = rw e

  -- Scheduling the next occurrence touches neither the row of the job nor a list of Redis.
  abbrev pub Leaves : World → World → Type 0
  Leaves w w' =
      ((j : Job) → job_of l.id w.db ≡ some j → job_of l.id w'.db ≡ some j)
      × (w'.redis.lists ≡ w.redis.lists)
      × (w'.redis_up ≡ w.redis_up)
      × (w'.jobs_processed ≡ w.jobs_processed)

  Leaves-refl : (w : World) → Leaves w w
  Leaves-refl w = (λ j h. h, refl, refl, refl)

  schedule_next-Leaves :
      (rule : String) (w : World) → Leaves w (schedule_next rt self registry l rule w).1
  unfolding schedule_next schedule_next_occurrence schedule_job zadd
  schedule_next-Leaves rule w =
      elim (Result-cases (compute_next_run rt.croniter (codes rule) w.now)) [
        | inl (x, e) ↦ rw (e, schedule_next) (Leaves-refl w)
        | inr (t, e) ↦
            elim (Result-cases (
              schedule_next_occurrence w.fresh l.type (payload_of l) rule t l.max_attempts
                l.priority w.now w.db)) [
                  | inl (x, f) ↦ rw (e, f, schedule_next) (Leaves-refl w)
                  | inr ((db', k), f) ↦
                      rw (e, f, schedule_next)
                        (subst (λ x. Leaves w x)
                          (sym (
                            command_-world (λ r. (schedule_job k.id t default_scheduled_set r).0)
                              (record w { db = db' })))
                          (
                            λ j h.
                                job_of-create_job l.id w.fresh w.now (next_occurrence l rule t) w.db
                                  db' k j f h,
                            ground arith,
                            refl,
                            refl,
                          ))
                ]
      ]

  catch-Leaves : (m : Action) (w : World) → Leaves w (m w).1 → Leaves w (catch m (λ _. pure tt) w).1
  catch-Leaves m w h = helper (m w).0
    where
      helper : (r : Result (Unit {0})) → Leaves w (recover (λ _. pure tt) r (m w).1).1
      helper (err x) = h
      helper (ok a) = h

  pub recur_by-Leaves :
      (r : Option String) (w : World) → Leaves w (recur_by rt self registry l r w).1
  unfolding recur_by
  recur_by-Leaves none w = Leaves-refl w
  recur_by-Leaves (some rule) w = elim (Bool-cases (str_eq rule "")) [
    | inl e ↦ rw (e, recur_by) (Leaves-refl w)
    | inr e ↦
        rw (e, recur_by)
          (catch-Leaves (schedule_next rt self registry l rule) w (schedule_next-Leaves rule w))
  ]

  -- The last part of `work`: the job leaves the processing list if Redis answers.
  abbrev pub Acknowledged : World → World → Type 0
  Acknowledged w w' = w'.redis.lists self.processing_queue ≡ (
      if w.redis_up
      then remove_first l.id (w.redis.lists self.processing_queue)
      else w.redis.lists self.processing_queue)

  acknowledge-world :
      (w : World)
      → (Acknowledged w (acknowledge rt self registry l.id w).1)
        × ((acknowledge rt self registry l.id w).1.db ≡ w.db)
        × ((acknowledge rt self registry l.id w).1.jobs_processed ≡ w.jobs_processed)
  unfolding acknowledge ack_job lrem_first
  acknowledge-world w = elim (Bool-cases w.redis_up) [
    | inl e ↦ rw e (ground (arith, eq_iff self.processing_queue self.processing_queue), refl, refl)
    | inr e ↦ rw e (refl, refl, refl)
  ]

  -- What the world is after `work`, where its body leaves the world `v`.
  abbrev pub Settles : World → World → World → Type 0
  Settles w v w' = (Acknowledged v w') × (w'.db ≡ v.db) × (w'.jobs_processed ≡ v.jobs_processed)

  pub work-Settles :
      (w v : World)
      → (catch (complete rt self registry l) (record_failure rt self registry l) w).1 ≡ v
      → Settles w v (work rt self registry l w).1
  unfolding work
  work-Settles w v e =
      subst (λ x. Settles w x (work rt self registry l w).1) e (acknowledge-world _)

  -- Where the handler returns, the body is what `record_success` does.
  pub body-ok :
      (w w2 : World) (v : Json)
      → run_handler rt self registry l w ≡ (ok v, w2)
      → (catch (complete rt self registry l) (record_failure rt self registry l) w).1
        ≡ (record_success rt self registry l v w2).1
  body-ok w w2 v e =
      ap (λ x. (recover (record_failure rt self registry l) x.0 x.1).1) (complete-ok w w2 v e)
      ∙ ap
          (λ r.
            (recover (record_failure rt self registry l) r
              (record_success rt self registry l v w2).1).1)
          (record_success-ok v w2)

  -- Where it raises, the body is what `record_failure` does.
  pub body-err :
      (w w2 : World) (x : Exn)
      → run_handler rt self registry l w ≡ (err x, w2)
      → (catch (complete rt self registry l) (record_failure rt self registry l) w).1
        ≡ (record_failure rt self registry l x w2).1
  body-err w w2 x e =
      ap (λ y. (recover (record_failure rt self registry l) y.0 y.1).1) (complete-err w w2 x e)
