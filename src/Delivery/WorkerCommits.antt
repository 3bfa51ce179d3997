-- ===== src/Delivery/WorkerCommits.antt =====
-- What a worker does commits transactions of worker/db.py and nothing else.
use distribu_q.Schema.{Db}
use distribu_q.Handlers.Objects.{get_handler-All}
use distribu_q.DeadLetters.{move_to_dead_letter}
use mathlib.Core.Path.{subst}
use distribu_q.Config.{default_scheduled_set}
use distribu_q.Redis.Client.{schedule_job, ack_job}
use distribu_q.Recurrence.{compute_next_run}
use distribu_q.Worker.Settle.{emit-world, record_success-world, succeeded, next_occurrence}
use distribu_q.Result.{Exn, Result-cases}
use distribu_q.Delivery.Commits.{
  Commits, Reaches-refl, Commits-nothing, Commits-attempt, Commits-bind, Reaches-trans,
  Commits-update, Reaches-commit, Reaches, Commits-command, Commits-finally, Commits-try_update,
  Commits-catch, AllowsJob,
}
use distribu_q.Jobs.{
  LockedJob, schedule_next_occurrence, mark_job_retrying, fetch_and_lock_job, can_lock, NewJob,
}
use distribu_q.Json.{Fields, Json, null, bool, int, dec, str, arr, obj}
use distribu_q.Handlers.{Registry, execute_handler, HandlerFunc, get_handler}
use distribu_q.Worker.{
  Runtime, Self, schedule_next, recur, retry_later, recur_by, emit, record_success, next_retry,
  payload_of, acknowledge, record_failure, work, process_job, run_handler, bury_job, count,
  complete, handler_payload,
}
use distribu_q.Base.{
  String, refl, ap, inl, inr, Option, none, some, str_eq, Bool-cases, All, codes, ℕ, ltb,
  if◌then◌else◌, find_row, find_row_holds, ◌≡◌, arith, Option-cases, sym,
}
use distribu_q.History.{
  creates, succeeds, retries, commit, after_insert, locks, archives, after, Tx,
}
use distribu_q.World.{◌>>◌, command_, update, try_update, catch, World}

module _ (P : Tx → Type 0) where
  -- The handlers of a registry, whatever they do to Redis.
  abbrev pub CommitsAll : Registry → Type 0
  CommitsAll registry = All (λ e. (fs : Fields) → Commits P (e.1 fs)) registry

-- What `process_job` locks is the job that it was called with.
id-lock :
    (id now : ℕ) (worker : String) (db : Db) (l : LockedJob)
    → (fetch_and_lock_job id worker now db).1 ≡ some l
    → l.id ≡ id
unfolding fetch_and_lock_job
id-lock id now worker db l e = elim (Option-cases (find_row (can_lock id) db.jobs)) [
  | inl miss ↦ absurd (ground arith)
  | inr (j, hit) ↦ let row = find_row_holds (can_lock id) db.jobs j hit in ground (arith, row)
]

module _ (P : Tx → Type 0) (adds : (id : ℕ) (n : NewJob) → P (creates id n)) where
  acknowledge-Commits :
      (rt : Runtime) (self : Self) (registry : Registry) (id : ℕ)
      → Commits P (acknowledge rt self registry id)
  unfolding acknowledge
  acknowledge-Commits rt self registry id =
      Commits-command P (λ r. ((ack_job id self.processing_queue r).0, tt))

  module _ (rt : Runtime) (self : Self) (registry : Registry) (all : CommitsAll P registry)
      (l : LockedJob) (mine : AllowsJob P l.id) where
    emit-Commits : (s : String) → Commits P (emit rt self registry l s)
    emit-Commits s =
        Commits-nothing P (emit rt self registry l s)
          (λ w. ap (λ x. x.1.db) (emit-world rt self registry l s w).1)

    schedule_next-Commits : (rule : String) → Commits P (schedule_next rt self registry l rule)
    unfolding schedule_next schedule_next_occurrence commit
    schedule_next-Commits rule = record {
      reaches = λ w. elim (Result-cases (compute_next_run rt.croniter (codes rule) w.now)) [
        | inl (x, e) ↦ rw (e, schedule_next) (Reaches-refl P w.db)
        | inr (at, e) ↦
            elim (Result-cases (
              schedule_next_occurrence w.fresh l.type (payload_of l) rule at l.max_attempts
                l.priority w.now w.db)) [
                  | inl (x, f) ↦ rw (e, f, schedule_next) (Reaches-refl P w.db)
                  | inr ((db', k), f) ↦
                      let add = command_ (λ r. (schedule_job k.id at default_scheduled_set r).0) in
                      let step : Reaches P w.db db' =
                        subst (Reaches P w.db) (ap (after_insert w.db) f) (
                          Reaches-commit P (w.now, creates w.fresh (next_occurrence l rule at)) w.db
                            (adds w.fresh (next_occurrence l rule at))) in
                      rw (e, f, schedule_next)
                        (Reaches-trans P w.db db' (add (record w { db = db' })).1.db step (
                          (Commits-command P
                              (λ r. ((schedule_job k.id at default_scheduled_set r).0, tt))).reaches
                            (record w { db = db' })))
                ]
      ];
    }

    recur_by-Commits : (rule : Option String) → Commits P (recur_by rt self registry l rule)
    unfolding recur_by
    recur_by-Commits none = record { reaches = λ w. Reaches-refl P w.db }
    recur_by-Commits (some rule) = elim (Bool-cases (str_eq rule "")) [
      | inl e ↦ record { reaches = λ w. rw (e, recur_by) (Reaches-refl P w.db) }
      | inr e ↦ record {
        reaches = λ w.
            rw (e, recur_by)
              ((Commits-attempt P (schedule_next rt self registry l rule)
                  (schedule_next-Commits rule)).reaches
                w);
      }
    ]

    record_success-Commits : (v : Json) → Commits P (record_success rt self registry l v)
    unfolding recur commit
    record_success-Commits v = record {
      reaches = λ w.
          let (es, e) = record_success-world rt self registry l v w in
          let u = succeeded rt self registry l v w es in
          rw e (
            Reaches-trans P w.db u.db (recur_by rt self registry l l.recurrence_rule u).1.db
              (Reaches-commit P (w.now, succeeds l.id v) w.db (mine.succeeded v))
              ((recur_by-Commits l.recurrence_rule).reaches u));
    }

    retry_later-Commits : (x : Exn) → Commits P (retry_later rt self registry l x)
    unfolding retry_later commit
    retry_later-Commits x =
        Commits-bind P (λ w. (next_retry rt self registry l w, w))
          (λ at.
            update (λ w. mark_job_retrying l.id (rt.exn_text x) at w.now)
            >> emit rt self registry l "RETRYING")
          (Commits-nothing P (λ w. (next_retry rt self registry l w, w)) (λ w. refl))
          (λ at.
            Commits-bind P (update (λ w. mark_job_retrying l.id (rt.exn_text x) at w.now))
              (λ _. emit rt self registry l "RETRYING")
              (Commits-update P (λ w. mark_job_retrying l.id (rt.exn_text x) at w.now)
                (λ w.
                  Reaches-commit P (w.now, retries l.id (rt.exn_text x) at) w.db
                    (mine.retried (rt.exn_text x) at)))
              (λ _. emit-Commits "RETRYING"))

    bury_job-Commits : (x : Exn) → Commits P (bury_job rt self registry l x)
    unfolding bury_job commit
    bury_job-Commits x =
        let archive_it =
          try_update (λ w. move_to_dead_letter w.fresh l.id (rt.exn_text x) l.attempts w.now) in
        Commits-bind P archive_it (λ _. emit rt self registry l "DEAD_LETTER")
          (Commits-try_update P
            (λ w. move_to_dead_letter w.fresh l.id (rt.exn_text x) l.attempts w.now)
            (λ w db e. subst (Reaches P w.db) (ap (after w.db) e) (
              Reaches-commit P (w.now, archives w.fresh l.id (rt.exn_text x) l.attempts) w.db
                (mine.archived w.fresh (rt.exn_text x) l.attempts))))
          (λ _. emit-Commits "DEAD_LETTER")

    record_failure-Commits : (x : Exn) → Commits P (record_failure rt self registry l x)
    unfolding record_failure
    record_failure-Commits x =
        Commits-bind P
          (if ltb l.attempts l.max_attempts
            then retry_later rt self registry l x
            else bury_job rt self registry l x)
          (λ _. count)
          (elim (Bool-cases (ltb l.attempts l.max_attempts)) [
            | inl e ↦ rw e (retry_later-Commits x)
            | inr e ↦ rw e (bury_job-Commits x)
          ])
          (λ _. Commits-nothing P count (λ w. refl))

    run_handler-Commits : Commits P (run_handler rt self registry l)
    unfolding run_handler execute_handler
    run_handler-Commits = elim (Result-cases (get_handler l.type registry)) [
      | inl (x, e) ↦ record { reaches = λ w. rw (e, run_handler) (Reaches-refl P w.db) }
      | inr (h, e) ↦ record {
        reaches = λ w.
            rw (e, run_handler)
              (called (handler_payload (payload_of l)) h
                (get_handler-All (λ g. (fs : Fields) → Commits P (g fs)) l.type h registry all e)
                w);
      }
    ]
      where
        called :
            (v : Json) (h : HandlerFunc)
            → ((fs : Fields) → Commits P (h fs))
            → (w : World) → Reaches P w.db (execute_handler h v w).1.db
        called (obj fs) h c w = (c fs).reaches w
        called null h c w = Reaches-refl P w.db
        called (bool b) h c w = Reaches-refl P w.db
        called (int i) h c w = Reaches-refl P w.db
        called (dec d) h c w = Reaches-refl P w.db
        called (str s) h c w = Reaches-refl P w.db
        called (arr xs) h c w = Reaches-refl P w.db

    work-Commits : Commits P (work rt self registry l)
    unfolding work complete acknowledge
    work-Commits =
        let body = complete rt self registry l in
        Commits-finally P (catch body (record_failure rt self registry l))
          (acknowledge rt self registry l.id)
          (Commits-catch P body (record_failure rt self registry l)
            (Commits-bind P (run_handler rt self registry l) (record_success rt self registry l)
              run_handler-Commits record_success-Commits)
            record_failure-Commits)
          (acknowledge-Commits rt self registry l.id)

  module _ (rt : Runtime) (self : Self) (registry : Registry) (all : CommitsAll P registry) where
    pub process_job-Commits :
        (id : ℕ) → AllowsJob P id → Commits P (process_job rt self registry id)
    unfolding process_job commit
    process_job-Commits id mine = record {
      reaches = λ w.
          let w1 : World = record w { db = (fetch_and_lock_job id self.worker_id w.now w.db).0 } in
          let step : Reaches P w.db w1.db =
            Reaches-commit P (w.now, locks id self.worker_id) w.db (mine.locked self.worker_id) in
          elim (Option-cases (fetch_and_lock_job id self.worker_id w.now w.db).1) [
            | inl e ↦
                rw (e, process_job)
                  (Reaches-trans P w.db w1.db (acknowledge rt self registry id w1).1.db step
                    ((acknowledge-Commits rt self registry id).reaches w1))
            | inr (l, e) ↦
                let same = id-lock id w.now self.worker_id w.db l e in
                let own : AllowsJob P l.id = subst (AllowsJob P) (sym same) mine in
                let tell = emit rt self registry l "RUNNING" in
                rw (e, process_job)
                  (Reaches-trans P w.db w1.db ((tell >> work rt self registry l) w1).1.db step (
                    (Commits-bind P tell (λ _. work rt self registry l)
                        (emit-Commits rt self registry all l own "RUNNING")
                        (λ _. work-Commits rt self registry all l own)).reaches
                      w1))
          ];
    }
