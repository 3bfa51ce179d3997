-- ===== src/Lifecycle/Tries.antt =====
-- The number of tries of a job whose handler raises every time.
use mathlib.Core.Path.{subst}
use distribu_q.DeadLetters.{has_dl_id}
use distribu_q.Jobs.Locking.{claimable}
use distribu_q.Lifecycle.Burial.{
  tried, process_job-retry, process_job-bury, last_entry, is_due-later,
}
use distribu_q.Lifecycle.Failing.{Rest, pass-row, cycles-buried, passed, due_time-found}
use distribu_q.Lifecycle.{cycles, cycle, due_time, later_of}
use distribu_q.World.{World}
use distribu_q.Jobs.{LockedJob, is_due, locked_columns, lock, release}
use distribu_q.Json.{Json}
use distribu_q.Scheduler.{Scheduler}
use distribu_q.Handlers.{Registry}
use distribu_q.Worker.{Runtime, Self, run_handler, next_retry, process_job}
use distribu_q.Base.{
  find_row, ℕ, suc, ◌+◌, String, ◌≡◌, refl, ◌∙◌, true, false, none, some, [], ◌∷◌, ◌++◌, ltb, zero,
  inl, inr, arith, leb, Bool-cases, List,
}
use distribu_q.Result.{err, ok, Exn}
use distribu_q.Schema.{pending, dead_letter, Job, DeadLetter, job_of, update_updated_at_column}

module _ (rt : Runtime) (self : Self) (registry : Registry) (sched : Scheduler) (id : ℕ)
    (ty : String) (payload : Json)
    (raises : (l : LockedJob) (v : World)
      → l.type ≡ ty
      → l.payload ≡ payload
      → (x : Exn) × (run_handler rt self registry l v ≡ (err x, v))) where
  -- The time of the try after the one of the given number can be computed, in the given world.
  abbrev pub CanDelay : ℕ → World → Type 0
  CanDelay tries w =
      (l : LockedJob)
      → l.payload ≡ payload
      → l.attempts ≡ tries
      → (t : ℕ) × (next_retry rt self registry l w ≡ ok t)

  -- A row that waits for its next try, after `n` tries.
  pub record Waits (w : World) (j : Job) : Type 0 where
    pub rest : Rest rt self registry sched id w j
    pub free : claimable j.status ≡ true
    pub type_is : j.type ≡ ty
    pub payload_is : j.payload ≡ payload
    pub new : find_row (has_dl_id w.fresh) w.db.dead_letters ≡ none

  passed-tried :
      (w : World) (j : Job) (x : Exn) (t d : ℕ)
      → is_due d (some t) ≡ true
      → passed (tried rt self registry sched id w j x t) d
        ≡ update_updated_at_column d (release pending (tried rt self registry sched id w j x t))
  unfolding passed
  passed-tried w j x t d due = rw due refl

  -- A try before the last one: the job waits again, PENDING, with one attempt more.
  cycle-Waits :
      (w : World) (j : Job)
      → Waits w j
      → CanDelay (j.attempts + 1) w
      → ltb (j.attempts + 1) j.max_attempts ≡ true
      → let w' = cycle rt self registry sched id w in
        (k : Job) × Waits w' k
        × (k.attempts ≡ j.attempts + 1)
        × (k.max_attempts ≡ j.max_attempts)
        × (w'.db.dead_letters ≡ w.db.dead_letters)
  unfolding cycle
  cycle-Waits w j wait delays some_left =
      let v = (process_job rt self registry id w).1 in
      let (t, delay) = delays (locked_columns (lock self.worker_id w.now j)) wait.payload_is refl in
      let (x, rest, frame) =
        process_job-retry rt self registry sched id w j wait.rest wait.free t
          (λ u.
            raises (locked_columns (lock self.worker_id w.now j)) u wait.type_is wait.payload_is)
          delay some_left in
      let (rest', dls, fresh) =
        pass-row rt self registry sched id v (tried rt self registry sched id w j x t) rest in
      let at : due_time id v ≡ later_of (some t) v.now =
        due_time-found id v (tried rt self registry sched id w j x t) rest.1 in
      let due : is_due (due_time id v) (some t) ≡ true = rw at (is_due-later t v.now) in
      let k =
        update_updated_at_column (due_time id v)
          (release pending (tried rt self registry sched id w j x t)) in
      let e = passed-tried w j x t (due_time id v) due in
      (
        k,
        record {
          rest = subst (Rest rt self registry sched id (cycle rt self registry sched id w)) e rest';
          free = refl;
          type_is = wait.type_is;
          payload_is = wait.payload_is;
          new = rw (fresh, frame.1, dls, frame.0) wait.new;
        },
        refl,
        refl,
        dls ∙ frame.0,
      )

  -- The last try: the job is in the archive, and stays there.
  cycles-last :
      (n : ℕ) (w : World) (j : Job)
      → Waits w j
      → ltb (j.attempts + 1) j.max_attempts ≡ false
      → let w' = cycles rt self registry sched id (suc n) w in
        (r : Job) × (d : DeadLetter) × (job_of id w'.db ≡ some r)
        × (r.status ≡ dead_letter)
        × (r.attempts ≡ j.attempts + 1)
        × (w'.db.dead_letters ≡ w.db.dead_letters ++ d ∷ [])
        × (d.job_id ≡ id)
        × (d.attempts_made ≡ j.attempts + 1)
  unfolding cycles cycle passed
  cycles-last n w j wait none_left =
      let v = (process_job rt self registry id w).1 in
      let (x, rest, added) =
        process_job-bury rt self registry sched id w j wait.rest wait.free
          (λ u.
            raises (locked_columns (lock self.worker_id w.now j)) u wait.type_is wait.payload_is)
          none_left wait.new in
      let (rest', dls, fresh) = pass-row rt self registry sched id v _ rest in
      let (found, more) =
        cycles-buried rt self registry sched id n (cycle rt self registry sched id w) _ rest'
          refl in
      (
        _,
        last_entry rt self registry sched id w j wait.rest wait.free x,
        found,
        refl,
        refl,
        more ∙ dls ∙ added,
        refl,
        refl,
      )

  -- Where the job ends: the archive has gained one row, with the number of tries.
  abbrev Buried : ℕ → List DeadLetter → World → Type 0
  Buried tries ds w =
      (r : Job) × (d : DeadLetter) × (job_of id w.db ≡ some r)
      × (r.status ≡ dead_letter)
      × (r.attempts ≡ tries)
      × (w.db.dead_letters ≡ ds ++ d ∷ [])
      × (d.job_id ≡ id)
      × (d.attempts_made ≡ tries)

  Buried-subst :
      (m n : ℕ) (ds es : List DeadLetter) (w : World)
      → m ≡ n
      → ds ≡ es
      → Buried m ds w
      → Buried n es w
  Buried-subst m n ds es w e f b = subst (λ k. Buried k es w) e (subst (λ l. Buried m l w) f b)

  -- A job whose handler raises at every try, leaving all as it was, with a first try to come, where
  -- no two jobs share an id, the key generated for the archive is new, and at each try before the last
  -- one the time of the next try can be computed (no OverflowError of a delay or a datetime): once
  -- there have been as many cycles as it has tries left, or any number more, its row is DEAD_LETTER
  -- with `attempts` at `max_attempts`, and the archive has gained one row in all, for this job and
  -- that number.
  pub cycles-buries :
      (n : ℕ) (w : World) (j : Job)
      → Waits w j
      → ((k : ℕ)
          → ltb (j.attempts + k + 1) j.max_attempts ≡ true
          → CanDelay (j.attempts + k + 1) (cycles rt self registry sched id k w))
      → ltb j.attempts j.max_attempts ≡ true
      → leb j.max_attempts (j.attempts + n) ≡ true
      → let w' = cycles rt self registry sched id n w in
        (r : Job) × (d : DeadLetter) × (job_of id w'.db ≡ some r)
        × (r.status ≡ dead_letter)
        × (r.attempts ≡ j.max_attempts)
        × (w'.db.dead_letters ≡ w.db.dead_letters ++ d ∷ [])
        × (d.job_id ≡ id)
        × (d.attempts_made ≡ j.max_attempts)
  unfolding cycles
  cycles-buries zero w j wait delays some_left enough = absurd (ground arith)
  cycles-buries (suc n) w j wait delays some_left enough =
      elim (Bool-cases (ltb (j.attempts + 1) j.max_attempts)) [
        | inr last ↦
            let all : j.attempts + 1 ≡ j.max_attempts = ground arith in
            Buried-subst (j.attempts + 1) j.max_attempts w.db.dead_letters w.db.dead_letters
              (cycles rt self registry sched id (suc n) w) all refl (cycles-last n w j wait last)
        | inl more ↦
            let (k, wait', one, same, dls) =
              cycle-Waits w j wait (λ l p a. delays 0 (ground arith) l p (a ∙ omega arith)) more in
            let next = cycle rt self registry sched id w in
            Buried-subst k.max_attempts j.max_attempts next.db.dead_letters w.db.dead_letters
              (cycles rt self registry sched id n next) same dls
              (cycles-buries n next k wait'
                (λ i early l p a. delays (suc i) (ground arith) l p (a ∙ omega (arith, one)))
                (ground arith) (ground arith))
      ]
