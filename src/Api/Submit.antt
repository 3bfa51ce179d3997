-- ===== src/Api/Submit.antt =====
-- What `submit_job` leaves in Postgres and in Redis.
use mathlib.Core.Path.{subst}
use distribu_q.Redis.Schedule.{elem, promoted-schedule_job}
use distribu_q.Redis.Tiers.{tiers, put_job, tiers-enqueue_job}
use distribu_q.Json.{obj}
use distribu_q.Base.Int.{ℤ, pos_part}
use distribu_q.Jobs.Lookup.{find_row-append_none}
use distribu_q.Worker.Settle.{publish_event-world}
use distribu_q.Config.{default_scheduled_set}
use distribu_q.Events.{emit_job_submitted}
use distribu_q.Jobs.{create_job, get_job, is_smallint}
use distribu_q.Redis.Client.{enqueue_job, schedule_job, promote_due_scheduled_jobs}
use distribu_q.World.Loops.{command_-up, command_-down, attempt-ok}
use distribu_q.Redis.{Redis, zadd, lpush}
use distribu_q.World.{World, Event}
use distribu_q.Api.{
  place, JobCreateRequest, announce, submit_job, get_job_by_id, new_job, check_rule, Datetime,
  instant_of,
}
use distribu_q.Base.{
  ℕ, String, ◌≡◌, refl, ap, inl, inr, true, false, none, some, List, [], ◌∷◌, ◌++◌, Option-cases,
  find_row, ◌∙◌, Option, arith, Bool-cases, sym, leb,
}
use distribu_q.Result.{connection_error, err, ok, Result, Exn, Result-cases}
use distribu_q.Schema.{pending, Job, Db, job_of, has_id}

-- The time of a request, as its timestamp() gives it.
abbrev pub stamp : Option Datetime → Result (Option ℕ)
stamp none = ok none
stamp (some d) = elim d.timestamp [ err x ↦ err x | ok t ↦ ok (some t) ]

-- Redis once a job is where its request wants it.
abbrev pub placed : ℕ → ℤ → Option ℕ → Redis → Redis
placed id priority none r = (enqueue_job id priority none r).0
placed id priority (some t) r = (schedule_job id t default_scheduled_set r).0

-- Where a new job waits: at the end of the tier of its priority, or among the delayed jobs, from
-- where a promotion takes it once its time has come.
abbrev pub IsPlaced : ℕ → ℤ → Option ℕ → Redis → Redis → Type 0
IsPlaced id priority none r r' = (tiers r' ≡ put_job id priority (tiers r)) × (r'.zsets ≡ r.zsets)
IsPlaced id priority (some t) r r' =
    (r'.lists ≡ r.lists)
    × ((n : ℕ) (target : String)
        → elem id (promote_due_scheduled_jobs target default_scheduled_set n r').1 ≡ leb t n)

zsets-enqueue_job :
    (id : ℕ) (priority : ℤ) (r : Redis) → (enqueue_job id priority none r).0.zsets ≡ r.zsets
unfolding enqueue_job lpush
zsets-enqueue_job id priority r = refl

placed-IsPlaced :
    (id : ℕ) (priority : ℤ) (at : Option ℕ) (r : Redis)
    → IsPlaced id priority at r (placed id priority at r)
unfolding schedule_job zadd
placed-IsPlaced id priority none r =
    (tiers-enqueue_job id priority r, zsets-enqueue_job id priority r)
placed-IsPlaced id priority (some t) r =
    (refl, λ n target. promoted-schedule_job id t n target default_scheduled_set r)

-- The row of a request.
abbrev pub requested : ℕ → ℕ → JobCreateRequest → Job
requested id now req = record {
  id = id;
  type = req.type;
  payload = obj req.payload;
  status = pending;
  priority = req.priority;
  attempts = 0;
  max_attempts = pos_part req.max_attempts;
  next_retry_at = none;
  scheduled_for = instant_of req.scheduled_for;
  recurrence_rule = req.recurrence_rule;
  result = none;
  error = none;
  locked_by = none;
  locked_at = none;
  created_at = now;
  updated_at = now;
}

timed : (time : Option Datetime) (d : Datetime) → time ≡ some d → stamp time ≡ stamp (some d)
timed time d e = ap stamp e

stamped : (d : Datetime) (t : ℕ) → stamp (some d) ≡ ok (some t) → d.timestamp ≡ ok t
stamped d t e = elim (Result-cases d.timestamp) [
  | inl (x, bad) ↦ absurd (ground arith)
  | inr (u, good) ↦ ground arith
]

place-up :
    (id : ℕ) (req : JobCreateRequest) (at : Option ℕ) (w : World)
    → stamp req.scheduled_for ≡ ok at
    → w.redis_up ≡ true
    → place id req w ≡ (ok tt, record w { redis = placed id req.priority at w.redis })
unfolding place
place-up id req none w e up = elim (Option-cases req.scheduled_for) [
  | inl f ↦ rw (f, place) (command_-up (λ r. (enqueue_job id req.priority none r).0) w up)
  | inr (d, f) ↦ elim (Result-cases d.timestamp) [
    | inl (x, bad) ↦ let g = timed req.scheduled_for d f in absurd (ground arith)
    | inr (t, good) ↦ let g = timed req.scheduled_for d f in absurd (ground arith)
  ]
]
place-up id req (some t) w e up = elim (Option-cases req.scheduled_for) [
  | inl f ↦ absurd (ground arith)
  | inr (d, f) ↦
      let good : d.timestamp ≡ ok t = stamped d t (sym (timed req.scheduled_for d f) ∙ e) in
      rw (f, good, place) (command_-up (λ r. (schedule_job id t default_scheduled_set r).0) w up)
]

place-down :
    (id : ℕ) (req : JobCreateRequest) (at : Option ℕ) (w : World)
    → stamp req.scheduled_for ≡ ok at
    → w.redis_up ≡ false
    → place id req w ≡ (err connection_error, w)
unfolding place
place-down id req at w e down = elim (Option-cases req.scheduled_for) [
  | inl f ↦ rw (f, place) (command_-down (λ r. (enqueue_job id req.priority none r).0) w down)
  | inr (d, f) ↦ elim (Result-cases d.timestamp) [
    | inl (x, bad) ↦ let g = timed req.scheduled_for d f in absurd (ground arith)
    | inr (t, good) ↦
        rw (f, good, place)
          (command_-down (λ r. (schedule_job id t default_scheduled_set r).0) w down)
  ]
]

emit_job_submitted-world :
    (id t : String) (p : ℤ) (time : Option String) (w : World)
    → (es : List Event) × (emit_job_submitted id t p time w ≡ (ok tt, record w { published = es }))
unfolding emit_job_submitted
emit_job_submitted-world id t p time w = publish_event-world _ _ w

module _ (croniter : List ℕ → ℕ → Result ℕ) (uuid_text iso : ℕ → String) (req : JobCreateRequest)
    (w : World) where
  announce-world :
      (id : ℕ) (w1 : World)
      → (es : List Event) × (announce croniter uuid_text iso id req w1
          ≡ (ok tt, record w1 { published = es }))
  unfolding announce
  announce-world id w1 =
      let time : Option String = elim req.scheduled_for [
        | none ↦ none
        | some d ↦ some (iso d.instant)
      ] in
      let (es, e) = emit_job_submitted-world (uuid_text id) req.type req.priority time w1 in
      (
        es,
        attempt-ok (emit_job_submitted (uuid_text id) req.type req.priority time) w1
            (record w1 { published = es }) e,
      )

  -- The row that the request asks for.
  abbrev pub row : Job
  row = requested w.fresh w.now req

  abbrev pub stored : Db
  stored = record w.db { jobs = w.db.jobs ++ row ∷ [] }

  pub stored_found : job_of w.fresh w.db ≡ none → job_of w.fresh stored ≡ some row
  unfolding find_row
  stored_found new = find_row-append_none (has_id w.fresh) w.db.jobs (row ∷ []) new ∙ ground arith

  pub submit_job-world :
      (at : Option ℕ)
      → check_rule croniter uuid_text iso req.recurrence_rule w.now ≡ ok tt
      → is_smallint req.priority ≡ true
      → job_of w.fresh w.db ≡ none
      → stamp req.scheduled_for ≡ ok at
      → w.redis_up ≡ true
      → (es : List Event) × (submit_job croniter uuid_text iso req w ≡ (
        ok (record { job_id = w.fresh; status = pending }),
        record w { db = stored; redis = placed w.fresh req.priority at w.redis; published = es },
      ))
  unfolding submit_job create_job
  submit_job-world at rule small new time up =
      let (es, e) =
        announce-world w.fresh
          (record w { db = stored; redis = placed w.fresh req.priority at w.redis }) in
      (
        es,
        rw (rule, small, new, place-up w.fresh req at (record w { db = stored }) time up, e) refl,
      )

  -- A submission whose rule is valid, whose priority fits a SMALLINT and whose time, if it has one,
  -- has a timestamp, while Redis answers and the generated key is new: the answer is that key and
  -- PENDING; the jobs table gains exactly the row of the request, with its columns and the defaults
  -- of the others; its key goes to the end of the tier of its priority or, where it has a time, into
  -- the sorted set, so that the next promotion returns it if and only if its timestamp has come, and
  -- the other of the two stays as it is; and a GET of that key then returns the row.
  pub submit_job_lem :
      (at : Option ℕ)
      → check_rule croniter uuid_text iso req.recurrence_rule w.now ≡ ok tt
      → is_smallint req.priority ≡ true
      → job_of w.fresh w.db ≡ none
      → stamp req.scheduled_for ≡ ok at
      → w.redis_up ≡ true
      → let w' = (submit_job croniter uuid_text iso req w).1 in
        ((submit_job croniter uuid_text iso req w).0
          ≡ ok (record { job_id = w.fresh; status = pending }))
        × (w'.db ≡ record w.db { jobs = w.db.jobs ++ requested w.fresh w.now req ∷ [] })
        × IsPlaced w.fresh req.priority at w.redis w'.redis
        × ((get_job_by_id w.fresh w').0 ≡ ok (requested w.fresh w.now req))
  unfolding get_job_by_id get_job
  submit_job_lem at rule small new time up =
      let (es, e) = submit_job-world at rule small new time up in
      (
        ap (λ x. x.0) e,
        ap (λ x. x.1.db) e,
        subst (IsPlaced w.fresh req.priority at w.redis) (sym (ap (λ x. x.1.redis) e))
            (placed-IsPlaced w.fresh req.priority at w.redis),
        ap (λ x. (get_job_by_id w.fresh x.1).0) e ∙ rw (stored_found new, get_job_by_id) refl,
      )

  -- A submission whose rule is valid, whose priority fits a SMALLINT and whose time, if it has one,
  -- has a timestamp, with a new generated key, while Redis does not answer: the client gets an
  -- error, but the row stays in Postgres, PENDING, and Redis is as it was, so that the key is nowhere
  -- in it unless it was before.
  pub submit_job-down :
      (at : Option ℕ)
      → check_rule croniter uuid_text iso req.recurrence_rule w.now ≡ ok tt
      → is_smallint req.priority ≡ true
      → job_of w.fresh w.db ≡ none
      → stamp req.scheduled_for ≡ ok at
      → w.redis_up ≡ false
      → submit_job croniter uuid_text iso req w ≡ (
        err connection_error,
        record w { db = record w.db { jobs = w.db.jobs ++ requested w.fresh w.now req ∷ [] } },
      )
  unfolding submit_job create_job
  submit_job-down at rule small new time down =
      rw (rule, small, new, place-down w.fresh req at (record w { db = stored }) time down) refl

  pub submit_job-rule :
      (x : Exn)
      → check_rule croniter uuid_text iso req.recurrence_rule w.now ≡ err x
      → submit_job croniter uuid_text iso req w ≡ (err x, w)
  unfolding submit_job
  submit_job-rule x rule = rw rule refl

  pub submit_job-create :
      (x : Exn)
      → check_rule croniter uuid_text iso req.recurrence_rule w.now ≡ ok tt
      → create_job w.fresh (new_job req) w.now w.db ≡ err x
      → submit_job croniter uuid_text iso req w ≡ (err x, w)
  unfolding submit_job
  submit_job-create x rule full = rw (rule, full) refl

  pub created :
      (y : Db × Job)
      → create_job w.fresh (new_job req) w.now w.db ≡ ok y
      → (is_smallint req.priority ≡ true) × (job_of w.fresh w.db ≡ none)
  unfolding create_job
  created y e = elim (Bool-cases (is_smallint req.priority)) [
    | inr misfit ↦ absurd (ground arith)
    | inl fits ↦ elim (Option-cases (job_of w.fresh w.db)) [
      | inl new ↦ (fits, new)
      | inr (j, taken) ↦ absurd (ground arith)
    ]
  ]

  -- The time has no timestamp: the row stays in Postgres, PENDING, and Redis is as it was.
  pub submit_job-untimed :
      (d : Datetime) (x : Exn)
      → check_rule croniter uuid_text iso req.recurrence_rule w.now ≡ ok tt
      → is_smallint req.priority ≡ true
      → job_of w.fresh w.db ≡ none
      → req.scheduled_for ≡ some d
      → d.timestamp ≡ err x
      → submit_job croniter uuid_text iso req w ≡ (err x, record w { db = stored })
  unfolding submit_job create_job place
  submit_job-untimed d x rule small new time bad = rw (rule, small, new, time, bad) refl
