-- ===== src/Worker/Outcomes.antt =====
-- The outcomes of `process_job`, once the handler has returned or raised: success, another try, the
-- dead letters.
use distribu_q.Written.{finished, buried, delayed, succeed-finished}
use distribu_q.DeadLetters.{move_to_dead_letter, has_dl_id, archive}
use distribu_q.Jobs.Lookup.{job_of-update_hit}
use distribu_q.Worker.Settle.{
  Acknowledged, record_success-world, succeeded, work-Settles, body-ok, recur_by-Leaves, emit-world,
  body-err, Settles,
}
use distribu_q.Json.{Json}
use distribu_q.Schema.{Job, Db, job_of, has_id, DeadLetter, update_jobs}
use distribu_q.World.{World, Event}
use distribu_q.Jobs.{LockedJob, mark_job_success, succeed, mark_job_retrying, postpone_to}
use distribu_q.Handlers.{Registry}
use distribu_q.Worker.{
  Runtime, Self, recur, run_handler, work, record_failure, retry_later, next_retry, bury_job,
}
use distribu_q.Base.{
  find_row_holds, ◌+◌, ◌≡◌, refl, ap, ◌∙◌, true, some, find_row, ℕ, false, none, List, ltb, [], ◌∷◌,
  ◌++◌,
}
use distribu_q.Result.{ok, err, Exn, unique_violation}

module _ (rt : Runtime) (self : Self) (registry : Registry) (l : LockedJob) where
  -- The row of the job, the processing list and the counter after `work`.
  abbrev pub Outcome : World → Job → World → Type 0
  Outcome v r w' =
      (job_of l.id w'.db ≡ some r)
      × Acknowledged rt self registry l v w'
      × (w'.jobs_processed ≡ v.jobs_processed + 1)

  has_own_id : (j : Job) (db : Db) → job_of l.id db ≡ some j → has_id l.id j ≡ true
  has_own_id j db e = find_row_holds (has_id l.id) db.jobs j e

  -- Where the handler returns and leaves a row of the job: the row is SUCCESS with the result and without an error or a lock, its other
  -- columns are as the handler left them, whatever
  -- becomes of the next occurrence of a recurring job; the job leaves the processing list if Redis
  -- answers; the counter goes up by one.
  pub work-success :
      (w w2 : World) (v : Json) (j : Job)
      → run_handler rt self registry l w ≡ (ok v, w2)
      → job_of l.id w2.db ≡ some j
      → Outcome w2 (finished w2.now v j) (work rt self registry l w).1
  unfolding recur mark_job_success
  work-success w w2 v j e found =
      let (es, s) = record_success-world rt self registry l v w2 in
      let w3 : World = succeeded rt self registry l v w2 es in
      let (ack, db, n) =
        work-Settles rt self registry l w _
          (body-ok rt self registry l w w2 v e ∙ ap (λ r. r.1) s) in
      let (rows, lists, up, m) = recur_by-Leaves rt self registry l l.recurrence_rule w3 in
      let row = rows _ (
        job_of-update_hit l.id w2.now (has_id l.id) (succeed v) w2.db (λ r. refl) j found
          (has_own_id j w2.db found)) in
      (
        ap (λ d. job_of l.id d) db ∙ row ∙ ap some (succeed-finished w2.now v j),
        rw (lists, up) at ack,
        n ∙ m,
      )

  unfoldable pub retried : Exn → ℕ → World → List Event → World
  retried x t w es = record w {
    db = mark_job_retrying l.id (rt.exn_text x) t w.now w.db;
    jobs_processed = w.jobs_processed + 1;
    published = es;
  }

  pub record_failure-retry :
      (x : Exn) (t : ℕ) (w : World)
      → ltb l.attempts l.max_attempts ≡ true
      → next_retry rt self registry l w ≡ ok t
      → (es : List Event) × ((record_failure rt self registry l x w).1 ≡ retried x t w es)
  unfolding record_failure retry_later retried
  record_failure-retry x t w some_left e =
      let (es, s) =
        emit-world rt self registry l "RETRYING"
          (record w { db = mark_job_retrying l.id (rt.exn_text x) t w.now w.db }) in
      (es, rw (some_left, e, s) refl)

  -- Where the handler raises and leaves a row of the job, attempts are left and the time of the next
  -- try can be computed: the row is RETRYING, with the text of the
  -- exception, the time of the next try and no lock, its other columns are as the handler left them; the job leaves the processing list if Redis
  -- answers; the counter goes up by one.
  pub work-retry :
      (w w2 : World) (x : Exn) (t : ℕ) (j : Job)
      → run_handler rt self registry l w ≡ (err x, w2)
      → job_of l.id w2.db ≡ some j
      → ltb l.attempts l.max_attempts ≡ true
      → next_retry rt self registry l w2 ≡ ok t
      → Outcome w2 (delayed w2.now (rt.exn_text x) t j) (work rt self registry l w).1
  unfolding mark_job_retrying retried
  work-retry w w2 x t j e found some_left at =
      let (es, s) = record_failure-retry x t w2 some_left at in
      let (ack, db, n) =
        work-Settles rt self registry l w _ (body-err rt self registry l w w2 x e ∙ s) in
      let row =
        job_of-update_hit l.id w2.now (has_id l.id) (postpone_to (rt.exn_text x) t) w2.db
          (λ r. refl) j found (has_own_id j w2.db found) in
      (ap (λ d. job_of l.id d) db ∙ row, ack, n)

  -- The row that the archive gains.
  abbrev pub entry : Exn → World → DeadLetter
  entry x w = record {
    id = w.fresh;
    job_id = l.id;
    final_error = rt.exn_text x;
    attempts_made = l.attempts;
    moved_at = w.now;
  }

  unfoldable pub archived : Exn → World → Db
  archived x w = record (update_jobs w.now (has_id l.id) (archive (rt.exn_text x)) w.db) {
    dead_letters = w.db.dead_letters ++ entry x w ∷ [];
  }

  pub record_failure-bury :
      (x : Exn) (j : Job) (w : World)
      → ltb l.attempts l.max_attempts ≡ false
      → job_of l.id w.db ≡ some j
      → find_row (has_dl_id w.fresh) w.db.dead_letters ≡ none
      → (es : List Event) × ((record_failure rt self registry l x w).1
          ≡ record w { db = archived x w; jobs_processed = w.jobs_processed + 1; published = es })
  unfolding record_failure bury_job move_to_dead_letter archived
  record_failure-bury x j w none_left found new =
      let (es, s) = emit-world rt self registry l "DEAD_LETTER" (record w { db = archived x w }) in
      (es, rw (none_left, found, new, s) refl)

  -- Where the handler raises and leaves a row of the job, no attempt is left and the key that is
  -- generated for the archive is new: the row is DEAD_LETTER, with the text of the
  -- exception and no lock, its other columns are as the handler left them; the archive gains exactly one row, for this job and its attempts; the
  -- job leaves the processing list if Redis answers; the counter goes up by one.
  pub work-dead_letter :
      (w w2 : World) (x : Exn) (j : Job)
      → run_handler rt self registry l w ≡ (err x, w2)
      → job_of l.id w2.db ≡ some j
      → ltb l.attempts l.max_attempts ≡ false
      → find_row (has_dl_id w2.fresh) w2.db.dead_letters ≡ none
      → Outcome w2 (buried w2.now (rt.exn_text x) j) (work rt self registry l w).1
        × ((work rt self registry l w).1.db.dead_letters ≡ w2.db.dead_letters ++ entry x w2 ∷ [])
  unfolding archived
  work-dead_letter w w2 x j e found none_left new =
      let (es, s) = record_failure-bury x j w2 none_left found new in
      let (ack, db, n) =
        work-Settles rt self registry l w _ (body-err rt self registry l w w2 x e ∙ s) in
      let row =
        job_of-update_hit l.id w2.now (has_id l.id) (archive (rt.exn_text x)) w2.db (λ r. refl) j
          found (has_own_id j w2.db found) in
      ((ap (λ d. job_of l.id d) db ∙ row, ack, n), ap (λ d. d.dead_letters) db)

  pub record_failure-stuck :
      (x y : Exn) (w : World)
      → ltb l.attempts l.max_attempts ≡ true
      → next_retry rt self registry l w ≡ err y
      → record_failure rt self registry l x w ≡ (err y, w)
  unfolding record_failure retry_later
  record_failure-stuck x y w some_left e = rw (some_left, e) refl

  -- A key of the archive that is taken undoes the whole transaction.
  pub record_failure-clash :
      (x : Exn) (j : Job) (d : DeadLetter) (w : World)
      → ltb l.attempts l.max_attempts ≡ false
      → job_of l.id w.db ≡ some j
      → find_row (has_dl_id w.fresh) w.db.dead_letters ≡ some d
      → record_failure rt self registry l x w ≡ (err unique_violation, w)
  unfolding record_failure bury_job move_to_dead_letter
  record_failure-clash x j d w none_left found taken = rw (none_left, found, taken) refl

  -- Where the handler raises, attempts are left and the time of the next try cannot be computed:
  -- the database stays as the handler left it, so the job keeps its status and its lock, but it
  -- leaves the processing list all the same if Redis answers, and the counter does not move.
  pub work-stuck :
      (w w2 : World) (x y : Exn)
      → run_handler rt self registry l w ≡ (err x, w2)
      → ltb l.attempts l.max_attempts ≡ true
      → next_retry rt self registry l w2 ≡ err y
      → Settles rt self registry l w w2 (work rt self registry l w).1
  work-stuck w w2 x y e some_left at = work-Settles rt self registry l w w2 (
      body-err rt self registry l w w2 x e
      ∙ ap (λ r. r.1) (record_failure-stuck x y w2 some_left at))
