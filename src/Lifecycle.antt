-- ===== src/Lifecycle.antt =====
-- worker/worker.py and scheduler/scheduler.py together: the tries of one job. In a cycle a worker
-- takes the job, and the scheduler's pass over the due retries runs once the next try is due.
pub mod Failing
pub mod Burial
pub mod Tries
mod Tests
-- The time of the next try, or the present time where that is later or there is none.
use distribu_q.Scheduler.{Scheduler, promote_retries}
use distribu_q.Handlers.{Registry}
use distribu_q.Schema.{job_of}
use distribu_q.World.{World}
use distribu_q.Worker.{Runtime, Self, process_job}
use distribu_q.Base.{ℕ, zero, suc, Option, none, some, leb, if◌then◌else◌}

abbrev pub later_of : Option ℕ → ℕ → ℕ
later_of none now = now
later_of (some t) now = if leb now t then t else now

abbrev pub due_time : ℕ → World → ℕ
due_time id w = elim (job_of id w.db) [ none ↦ w.now | some j ↦ later_of j.next_retry_at w.now ]

module _ (rt : Runtime) (self : Self) (registry : Registry) (sched : Scheduler) (id : ℕ) where
  unfoldable pub pass_at_due : World → World
  unfolding promote_retries
  pass_at_due v = (promote_retries sched (record v { now = due_time id v })).1

  unfoldable pub cycle : World → World
  unfolding process_job pass_at_due
  cycle w = pass_at_due (process_job rt self registry id w).1

  unfoldable pub cycles : ℕ → World → World
  unfolding cycle
  cycles zero w = w
  cycles (suc n) w = cycles n (cycle w)
