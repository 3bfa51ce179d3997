-- ===== src/Lifecycle/Tests.antt =====
-- A job with two tries whose handler raises.
use distribu_q.Base.Int.{pos, negsuc}
use distribu_q.World.{World}
use distribu_q.Retry.{compute_next_retry_at, compute_backoff_delay}
use distribu_q.Scheduler.{default_scheduler}
use distribu_q.Worker.Tests.{here, job_request, worker_a, handlers, world_of}
use distribu_q.Jobs.{job_row, LockedJob}
use distribu_q.Handlers.{get_handler, execute_handler}
use distribu_q.Lifecycle.Tries.{CanDelay, Waits, cycles-buries}
use distribu_q.Lifecycle.{cycles}
use distribu_q.Worker.{next_retry, run_handler, base_delay, handler_payload, Runtime}
use distribu_q.Base.{
  find_row, ℕ, ◌≡◌, refl, some, [], ◌∷◌, ◌+◌, zero, suc, true, arith, ltb, if◌then◌else◌,
}
use distribu_q.Result.{runtime_error, err, ok, Exn, overflow_error}
use distribu_q.Schema.{dead_letter, Job, DeadLetter, job_of}
use distribu_q.Json.{obj, end, get, truthy, filter_keys}

abbrev doomed : Job
doomed = job_row 7 100 (job_request "boom" (obj end))

-- Python's datetimes end with the year 9999.
abbrev until_9999 : Runtime
until_9999 = record here {
  plus = λ t d. elim d [
    | pos n ↦ if ltb (t + n) 253402300800000000 then ok (t + n) else err overflow_error
    | negsuc n ↦ err overflow_error
  ];
}

boom_raises :
    (l : LockedJob) (v : World)
    → l.type ≡ "boom"
    → l.payload ≡ obj end
    → (x : Exn) × (run_handler until_9999 worker_a handlers l v ≡ (err x, v))
unfolding run_handler get_handler execute_handler handler_payload filter_keys truthy
boom_raises l v t p = (runtime_error "boom", rw (t, p) refl)

doomed-Waits :
    Waits until_9999 worker_a handlers default_scheduler 7 "boom"
      (obj end)
      boom_raises
      (world_of doomed)
      doomed
unfolding find_row
doomed-Waits = record {
  rest = ((refl, tt), refl);
  free = refl;
  type_is = refl;
  payload_is = refl;
  new = refl;
}

first_delay :
    (l : LockedJob)
    → l.payload ≡ obj end
    → l.attempts ≡ 1
    → next_retry until_9999 worker_a handlers l (world_of doomed) ≡ ok 1001000
unfolding next_retry base_delay get truthy compute_next_retry_at compute_backoff_delay
first_delay l p a = rw (p, a) refl

-- One time is needed, that of the second try.
boom_delays :
    (k : ℕ)
    → ltb (0 + k + 1) 2 ≡ true
    → CanDelay until_9999 worker_a handlers default_scheduler 7 "boom"
        (obj end)
        boom_raises
        (0 + k + 1)
        (cycles until_9999 worker_a handlers default_scheduler 7 k (world_of doomed))
unfolding cycles
boom_delays zero early l p a = (1001000, first_delay l p a)
boom_delays (suc k) early l p a = absurd (ground arith)

cycles-buries_example :
    let w' = cycles until_9999 worker_a handlers default_scheduler 7 2 (world_of doomed) in
    (r : Job) × (d : DeadLetter) × (job_of 7 w'.db ≡ some r)
    × (r.status ≡ dead_letter)
    × (r.attempts ≡ 2)
    × (w'.db.dead_letters ≡ d ∷ [])
    × (d.job_id ≡ 7)
    × (d.attempts_made ≡ 2)
cycles-buries_example =
    cycles-buries until_9999 worker_a handlers default_scheduler 7 "boom" (obj end) boom_raises 2
      (world_of doomed) doomed doomed-Waits boom_delays refl refl
