-- ===== src/Worker/Guard.antt =====
-- The first lines of `process_job`: the job is locked, or left alone.
use distribu_q.Written.{held}
use distribu_q.Worker.Settle.{emit-world}
use distribu_q.Jobs.Locking.{claimable, lock-result, lock-row, lock-result_missing}
use distribu_q.Jobs.Lookup.{HasKeys}
use distribu_q.World.{World, Event}
use distribu_q.Handlers.{Registry}
use distribu_q.Schema.{Db, update_updated_at_column, Job, job_of}
use distribu_q.Worker.{Runtime, Self, process_job, acknowledge, work}
use distribu_q.Jobs.{fetch_and_lock_job, can_lock, lock, locked_columns, LockedJob}
use distribu_q.Base.{
  update_where, find_row, ℕ, String, ◌≡◌, refl, ap, Bool, true, false, none, some, List, [], ◌∷◌,
  arith,
}

update_where-none {ℓ} :
    {R : Type ℓ} (p : R → Bool) (f : R → R) (rs : List R)
    → find_row p rs ≡ none
    → update_where p f rs ≡ rs
unfolding find_row update_where
update_where-none p f [] e = refl
update_where-none p f (r ∷ rs) e = ground (arith, update_where-none p f rs)

fetch_and_lock_job-none :
    (id now : ℕ) (w : String) (db : Db)
    → (fetch_and_lock_job id w now db).1 ≡ none
    → (fetch_and_lock_job id w now db).0 ≡ db
unfolding fetch_and_lock_job
fetch_and_lock_job-none id now w db e =
    ap (λ js. record db { jobs = js })
      (update_where-none (can_lock id) (λ j. update_updated_at_column now (lock w now j)) db.jobs
        (ground arith))

-- A job without a row is acknowledged and nothing else.
pub process_job-missing :
    (rt : Runtime) (self : Self) (registry : Registry) (id : ℕ) (w : World)
    → job_of id w.db ≡ none
    → process_job rt self registry id w ≡ acknowledge rt self registry id w
unfolding process_job
process_job-missing rt self registry id w e =
    let missed = lock-result_missing id w.now self.worker_id w.db e in
    rw (missed, fetch_and_lock_job-none id w.now self.worker_id w.db missed, process_job) refl

module _ (rt : Runtime) (self : Self) (registry : Registry) (id : ℕ) (w : World) (j : Job) where
  -- Where no two jobs share an id: a job that is neither PENDING nor RETRYING is acknowledged and nothing else: no handler runs, no
  -- row changes, no event is published.
  pub process_job-skips :
      HasKeys w.db.jobs
      → job_of id w.db ≡ some j
      → claimable j.status ≡ false
      → process_job rt self registry id w ≡ acknowledge rt self registry id w
  unfolding process_job
  process_job-skips keys found busy =
      let missed : (fetch_and_lock_job id self.worker_id w.now w.db).1 ≡ none =
        ground (arith, lock-result id w.now self.worker_id w.db j keys found) in
      rw (missed, fetch_and_lock_job-none id w.now self.worker_id w.db missed, process_job) refl

  -- The world that `work` starts from once the job is locked.
  unfoldable pub locked_world : List Event → World
  locked_world es = record w {
    db = (fetch_and_lock_job id self.worker_id w.now w.db).0;
    published = es;
  }

  pub process_job-world :
      HasKeys w.db.jobs
      → job_of id w.db ≡ some j
      → claimable j.status ≡ true
      → (es : List Event) × (process_job rt self registry id w
          ≡ work rt self registry (locked_columns (lock self.worker_id w.now j)) (locked_world es))
  unfolding process_job locked_world
  process_job-world keys found free =
      let l : LockedJob = locked_columns (lock self.worker_id w.now j) in
      let hit : (fetch_and_lock_job id self.worker_id w.now w.db).1 ≡ some l =
        ground (arith, lock-result id w.now self.worker_id w.db j keys found) in
      let (es, s) = emit-world rt self registry l "RUNNING" (locked_world w.published) in
      (es, rw (hit, process_job, s) refl)

  -- Where no two jobs share an id: a PENDING or RETRYING job is locked by this worker before its handler runs: the handler and all
  -- that follows see the row RUNNING, under the worker's name, with one attempt more.
  pub process_job-works :
      HasKeys w.db.jobs
      → job_of id w.db ≡ some j
      → claimable j.status ≡ true
      → let l = locked_columns (held w.now self.worker_id j) in
        (w2 : World) × (job_of id w2.db ≡ some (held w.now self.worker_id j))
        × (w2.redis ≡ w.redis)
        × (process_job rt self registry id w ≡ work rt self registry l w2)
  unfolding locked_world
  process_job-works keys found free =
      let (es, s) = process_job-world keys found free in
      (locked_world es, ground (arith, lock-row id w.now self.worker_id w.db j found), refl, s)
