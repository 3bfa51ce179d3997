-- ===== src/Worker/Tests.antt =====
-- A worker at concrete jobs: one that succeeds and recurs, one that fails, one whose base delay is
-- not a number.
use distribu_q.Written.{finished, buried, delayed, submitted}
use distribu_q.Worker.Recur.{work-recurs}
use distribu_q.Config.{default_scheduled_set}
use distribu_q.Redis.Client.{promote_due_scheduled_jobs}
use distribu_q.Redis.Schedule.{elem}
use distribu_q.Retry.{compute_next_retry_at}
use distribu_q.DeadLetters.{has_dl_id}
use distribu_q.Worker.Settle.{Settles, next_occurrence}
use distribu_q.Redis.{no_keys}
use distribu_q.World.{World}
use distribu_q.Jobs.{NewJob, locked_columns, lock, job_row}
use distribu_q.Recurrence.{compute_next_run, starts_with}
use distribu_q.Worker.{Runtime, Self, run_handler, handler_payload, work, next_retry, base_delay}
use distribu_q.Schema.{job_of, Job, empty}
use distribu_q.Worker.Outcomes.{
  Outcome, work-success, work-retry, entry, work-stuck, work-dead_letter,
}
use distribu_q.Handlers.{Registry, HandlerFunc, get_handler, execute_handler}
use distribu_q.Result.{overflow_error, value_error, runtime_error, err, ok, Result, type_error}
use distribu_q.Json.{str, obj, end, field, Json, filter_keys, truthy, get}
use distribu_q.Base.Int.{pos, negsuc, ℤ, pos_part}
use distribu_q.Base.{
  [], ◌∷◌, none, some, find_row, ℕ, ◌+◌, ◌*◌, String, ◌≡◌, refl, Bool, ltb, codes, leb, ◌^◌,
  if◌then◌else◌, update_where,
}

abbrev micros : ℤ → Result ℕ
micros (pos n) = ok n
micros (negsuc n) = err overflow_error

abbrev pub here : Runtime
here = record {
  number = record {
    Num = ℕ;
    lt = ltb;
    add = ◌+◌;
    mul = ◌*◌;
    times_int = λ a k. if ltb k (2 ^ 1024) then ok (a * k) else err overflow_error;
    of_int = pos_part;
    of_decimal = λ d. pos_part d.mantissa;
    uniform = λ r a b. a;
    timedelta = λ x. ok (pos (x * 1000000));
  };
  plus = λ t d. elim (micros d) [ err x ↦ err x | ok n ↦ ok (t + n) ];
  croniter = λ rule t. err value_error;
  exn_text = λ x. "error";
  uuid_text = λ id. "uuid";
}

abbrev pub worker_a : Self
worker_a = record { worker_id = "worker-a"; processing_queue = "queue:processing" }

abbrev echo : HandlerFunc
echo fs w = (ok (obj fs), w)

abbrev boom : HandlerFunc
boom fs w = (err (runtime_error "boom"), w)

abbrev pub handlers : Registry
handlers = ("echo", echo) ∷ ("boom", boom) ∷ []

abbrev pub job_request : String → Json → NewJob
job_request t p = record {
  type = t;
  payload = p;
  priority = pos 1;
  max_attempts = 2;
  scheduled_for = none;
  recurrence_rule = some "@every 5m";
}

-- The row of job 7 while its attempt of the given number runs.
abbrev running_job : String → Json → ℕ → Job
running_job t p n = record (lock "worker-a" 100 (job_row 7 100 (job_request t p))) { attempts = n }

abbrev pub world_of : Job → World
world_of j = record {
  db = record empty { jobs = j ∷ [] };
  redis = record no_keys { lists = λ q. 7 ∷ [] };
  redis_up = Bool.true;
  now = 1000;
  published = [];
  kills = [];
  jobs_processed = 4;
  fresh = 8;
  rand = 0;
  flaky_attempts = [];
}

abbrev pub echoed : Job
echoed = running_job "echo" (obj end) 1

abbrev failed_once : Job
failed_once = running_job "boom" (obj end) 1

abbrev failed_twice : Job
failed_twice = running_job "boom" (obj end) 2

abbrev bad_delay : Job
bad_delay = running_job "boom" (obj (field "_base_delay" (str "soon") end)) 1

found : job_of 7 (world_of echoed).db ≡ some echoed
unfolding find_row
found = refl

echo_runs :
    run_handler here worker_a handlers (locked_columns echoed) (world_of echoed)
    ≡ (ok (obj end), world_of echoed)
unfolding run_handler get_handler execute_handler handler_payload filter_keys truthy
echo_runs = refl

work-success_example :
    Outcome here worker_a handlers
      (locked_columns echoed)
      (world_of echoed)
      (finished 1000 (obj end) echoed)
      (work here worker_a handlers (locked_columns echoed) (world_of echoed)).1
work-success_example =
    work-success here worker_a handlers (locked_columns echoed) (world_of echoed) (world_of echoed)
      (obj end) echoed echo_runs found

next_at : compute_next_run here.croniter (codes "@every 5m") 1000 ≡ ok 300001000
unfolding compute_next_run
next_at = refl

boom_runs :
    run_handler here worker_a handlers (locked_columns failed_once) (world_of failed_once)
    ≡ (err (runtime_error "boom"), world_of failed_once)
unfolding run_handler get_handler execute_handler handler_payload filter_keys truthy
boom_runs = refl

boom_runs_again :
    run_handler here worker_a handlers (locked_columns failed_twice) (world_of failed_twice)
    ≡ (err (runtime_error "boom"), world_of failed_twice)
unfolding run_handler get_handler execute_handler handler_payload filter_keys truthy
boom_runs_again = refl

boom_runs_badly :
    run_handler here worker_a handlers (locked_columns bad_delay) (world_of bad_delay)
    ≡ (err (runtime_error "boom"), world_of bad_delay)
unfolding run_handler get_handler execute_handler handler_payload filter_keys truthy starts_with
boom_runs_badly = refl

retry_in_one_second :
    next_retry here worker_a handlers (locked_columns failed_once) (world_of failed_once)
    ≡ ok 1001000
unfolding next_retry base_delay compute_next_retry_at truthy get
retry_in_one_second = refl

no_delay :
    next_retry here worker_a handlers (locked_columns bad_delay) (world_of bad_delay)
    ≡ err type_error
unfolding next_retry base_delay truthy get
no_delay = refl

once_found : job_of 7 (world_of failed_once).db ≡ some failed_once
unfolding find_row
once_found = refl

twice_found : job_of 7 (world_of failed_twice).db ≡ some failed_twice
unfolding find_row
twice_found = refl

nothing_archived : find_row (has_dl_id 8) (world_of failed_twice).db.dead_letters ≡ none
unfolding find_row
nothing_archived = refl

eight_is_new : job_of 8 (world_of echoed).db ≡ none
unfolding find_row
eight_is_new = refl

work-retry_example :
    Outcome here worker_a handlers
      (locked_columns failed_once)
      (world_of failed_once)
      (delayed 1000 "error" 1001000 failed_once)
      (work here worker_a handlers (locked_columns failed_once) (world_of failed_once)).1
work-retry_example =
    work-retry here worker_a handlers (locked_columns failed_once) (world_of failed_once)
      (world_of failed_once) (runtime_error "boom") 1001000 failed_once boom_runs once_found refl
      retry_in_one_second

work-dead_letter_example :
    Outcome here worker_a handlers
      (locked_columns failed_twice)
      (world_of failed_twice)
      (buried 1000 "error" failed_twice)
      (work here worker_a handlers (locked_columns failed_twice) (world_of failed_twice)).1
    × ((work here worker_a handlers
          (locked_columns failed_twice)
          (world_of failed_twice)).1.db.dead_letters
        ≡ entry here worker_a handlers
            (locked_columns failed_twice)
            (runtime_error "boom")
            (world_of failed_twice)
          ∷ [])
work-dead_letter_example =
    work-dead_letter here worker_a handlers (locked_columns failed_twice) (world_of failed_twice)
      (world_of failed_twice) (runtime_error "boom") failed_twice boom_runs_again twice_found refl
      nothing_archived

work-stuck_example :
    Settles here worker_a handlers
      (locked_columns bad_delay)
      (world_of bad_delay)
      (world_of bad_delay)
      (work here worker_a handlers (locked_columns bad_delay) (world_of bad_delay)).1
work-stuck_example =
    work-stuck here worker_a handlers (locked_columns bad_delay) (world_of bad_delay)
      (world_of bad_delay) (runtime_error "boom") type_error boom_runs_badly refl no_delay

work-recurs_example :
    ((work here worker_a handlers (locked_columns echoed) (world_of echoed)).1.db.jobs
      ≡ finished 1000 (obj end) echoed
        ∷ submitted 8 1000 (next_occurrence (locked_columns echoed) "@every 5m" 300001000)
        ∷ [])
    × ((n : ℕ) (target : String)
        → elem 8
            (promote_due_scheduled_jobs target default_scheduled_set n
              (work here worker_a handlers (locked_columns echoed) (world_of echoed)).1.redis).1
          ≡ leb 300001000 n)
unfolding update_where
work-recurs_example =
    work-recurs here worker_a handlers (locked_columns echoed) (world_of echoed) (world_of echoed)
      (obj end) "@every 5m" 300001000 echo_runs refl refl next_at refl eight_is_new refl
