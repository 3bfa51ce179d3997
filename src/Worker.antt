-- ===== src/Worker.antt =====
-- worker/worker.py: how a worker takes a job and settles it.
pub mod Settle
pub mod Outcomes
pub mod Guard
pub mod Frame
pub mod Lifetime
pub mod Recur
pub mod Tests
mod GuardTests
use distribu_q.Heartbeat.{beat}
use distribu_q.Config.{default_scheduled_set}
use distribu_q.DeadLetters.{move_to_dead_letter}
use distribu_q.Redis.{Redis}
use distribu_q.Workers.{mark_worker_dead}
use distribu_q.Recurrence.{compute_next_run}
use distribu_q.Redis.Client.{ack_job, priority_reserve_job, schedule_job}
use distribu_q.Events.{emit_job_status_changed, emit_worker_dead}
use distribu_q.Jobs.{
  LockedJob, mark_job_retrying, mark_job_success, fetch_and_lock_job, schedule_next_occurrence,
}
use distribu_q.Handlers.{Registry, get_handler, execute_handler}
use distribu_q.Retry.{Number, compute_next_retry_at}
use distribu_q.Base.Int.{pos, ℤ}
use distribu_q.Base.{
  ℕ, ◌+◌, String, true, false, not, none, some, List, str_eq, ltb, if◌then◌else◌, codes, Option,
  Bool, [], ◌∷◌,
}
use distribu_q.Result.{type_error, err, ok, Result, Exn}
use distribu_q.Json.{bool, int, dec, obj, end, filter_keys, Json, get, truthy}
use text.Mathlib.Text.{starts_with}
use distribu_q.World.{
  ◌>>=◌, ◌>>◌, Action, finally, catch, update, World, command_, query, pure, Exec, command, gets,
  lift, try_query, try_update, continue, attempt,
}

-- What the worker uses of code outside the repository: Python's numbers and datetimes, croniter,
-- the text of an exception and of a UUID.
pub record Runtime : Type 1 where
  pub number : Number
  -- datetime + timedelta.
  pub plus : ℕ → ℤ → Result ℕ
  pub croniter : List ℕ → ℕ → Result ℕ
  pub exn_text : Exn → String
  pub uuid_text : ℕ → String

-- The attributes of a Worker that do not change.
pub record Self : Type 0 where
  pub worker_id : String
  pub processing_queue : String

-- `job["payload"] or {}`.
abbrev pub payload_of : LockedJob → Json
payload_of l = if truthy l.payload then l.payload else obj end

-- `{k: v … if not k.startswith("_")}`, of a dict.
unfoldable pub handler_payload : Json → Json
unfolding filter_keys
handler_payload (obj fs) = obj (filter_keys (λ k. not (starts_with k "_")) fs)
handler_payload p = p

abbrev pub count : Action
count w = (ok tt, record w { jobs_processed = w.jobs_processed + 1 })

module _ (rt : Runtime) (self : Self) (registry : Registry) where
  open rt use {number, plus, croniter, exn_text, uuid_text}

  abbrev Num : Type 0
  Num = number.Num

  -- An int, a float or a bool; the arithmetic on any other value ends in a TypeError.
  abbrev pub as_number : Json → Result Num
  as_number (int i) = ok (number.of_int i)
  as_number (dec d) = ok (number.of_decimal d)
  as_number (bool true) = ok (number.of_int (pos 1))
  as_number (bool false) = ok (number.of_int (pos 0))
  as_number _ = err type_error

  abbrev float_of : ℕ → Num
  float_of n = number.of_decimal (record { mantissa = pos n; exponent = pos 0 })

  -- `payload.get("_base_delay", 1.0) if isinstance(payload, dict) else 1.0`.
  unfoldable pub base_delay : Json → Result Num
  unfolding get
  base_delay (obj fs) = elim (get "_base_delay" fs) [
    | none ↦ ok (float_of 1)
    | some v ↦ as_number v
  ]
  base_delay _ = ok (float_of 1)

  -- `compute_next_retry_at(attempt=…, base_delay=…)`, at the present time.
  unfoldable pub next_retry : LockedJob → World → Result ℕ
  unfolding base_delay compute_next_retry_at
  next_retry l w = elim (base_delay (payload_of l)) [
    | err x ↦ err x
    | ok base ↦ compute_next_retry_at number (plus w.now) w.rand l.attempts base (float_of 300) true
  ]

  unfoldable pub emit : LockedJob → String → Action
  emit l status = emit_job_status_changed (uuid_text l.id) l.type status (some self.worker_id)

  unfoldable pub acknowledge : ℕ → Action
  unfolding ack_job
  acknowledge id = command_ (λ r. (ack_job id self.processing_queue r).0)

  -- The next occurrence of a recurring job.
  unfoldable pub schedule_next : LockedJob → String → Action
  unfolding compute_next_run schedule_next_occurrence schedule_job
  schedule_next l rule = do
    now ← gets (λ w. w.now)
    next_run ← lift (compute_next_run croniter (codes rule) now)
    next_job ← try_query (λ w.
        schedule_next_occurrence w.fresh l.type (payload_of l) rule next_run l.max_attempts
          l.priority w.now)
    command_ (λ r. (schedule_job next_job.id next_run default_scheduled_set r).0)

  -- `if recurrence_rule: try: … except Exception: …`.
  unfoldable pub recur_by : LockedJob → Option String → Action
  unfolding schedule_next
  recur_by l none w = (ok tt, w)
  recur_by l (some rule) w =
      if str_eq rule "" then (ok tt, w) else catch (schedule_next l rule) (λ _. pure tt) w

  unfoldable pub recur : LockedJob → Action
  unfolding recur_by
  recur l = recur_by l l.recurrence_rule

  unfoldable pub run_handler : LockedJob → Exec Json
  unfolding get_handler execute_handler handler_payload
  run_handler l = do
    handler ← lift (get_handler l.type registry)
    execute_handler handler (handler_payload (payload_of l))

  unfoldable pub record_success : LockedJob → Json → Action
  unfolding mark_job_success emit recur
  record_success l result = do
    update (λ w. mark_job_success l.id result w.now)
    count
    emit l "SUCCESS"
    recur l

  -- The body of the `try`.
  unfoldable pub complete : LockedJob → Action
  unfolding run_handler record_success
  complete l = do result ← run_handler l; record_success l result

  unfoldable pub retry_later : LockedJob → Exn → Action
  unfolding next_retry mark_job_retrying emit
  retry_later l x = do
    retry_at ← (λ w. (next_retry l w, w))
    update (λ w. mark_job_retrying l.id (exn_text x) retry_at w.now)
    emit l "RETRYING"

  unfoldable pub bury_job : LockedJob → Exn → Action
  unfolding move_to_dead_letter emit
  bury_job l x = do
    try_update (λ w. move_to_dead_letter w.fresh l.id (exn_text x) l.attempts w.now)
    emit l "DEAD_LETTER"

  -- The `except` clause.
  unfoldable pub record_failure : LockedJob → Exn → Action
  unfolding retry_later bury_job
  record_failure l x =
      (if ltb l.attempts l.max_attempts then retry_later l x else bury_job l x) >> count

  unfoldable pub work : LockedJob → Action
  unfolding complete record_failure acknowledge
  work l = finally (catch (complete l) (record_failure l)) (acknowledge l.id)

  unfoldable pub process_job : ℕ → Action
  unfolding fetch_and_lock_job acknowledge emit work
  process_job id = do
    locked ← query (λ w. fetch_and_lock_job id self.worker_id w.now)
    elim locked [ none ↦ acknowledge id | some l ↦ emit l "RUNNING" >> work l ]

  -- One round of the loop in `start`: an exception is logged, and the loop goes on.
  unfoldable pub serve_one : (Redis → Redis) → Action
  unfolding priority_reserve_job process_job
  serve_one wait =
      catch
        (do
          reserved ← command (priority_reserve_job self.processing_queue wait)
          elim reserved [ none ↦ pure tt | some id ↦ process_job id ])
        (λ _. pure tt)

  -- `shutdown`, with `heartbeat.stop`.
  unfoldable pub shutdown : Action
  unfolding emit_worker_dead mark_worker_dead
  shutdown = do emit_worker_dead self.worker_id; update (λ w. mark_worker_dead self.worker_id)

  -- The loop of `start`: for each turn, whether `self.running` still holds, and what the other
  -- clients do to Redis while the worker waits.
  unfoldable pub serve : List (Bool × (Redis → Redis)) → Action
  unfolding serve_one
  serve [] w = (ok tt, w)
  serve ((still, wait) ∷ rest) w =
      let next = continue (λ _. serve rest) (serve_one wait w).0 (serve_one wait w).1 in
      if still then next else (ok tt, w)

  -- `start`: PING, the first heartbeat, the loop, and the shutdown in any case. The heartbeats
  -- between are the other task of the process.
  unfoldable pub start : List (Bool × (Redis → Redis)) → Action
  unfolding beat serve shutdown
  start turns = do command_ (λ r. r); attempt (beat self.worker_id); finally (serve turns) shutdown

-- `_kill_subscriber`, over the messages of the worker's channel: whether `self.running` stays.
unfoldable pub kill_subscriber : List String → Bool
kill_subscriber [] = true
kill_subscriber (m ∷ ms) = let rest = kill_subscriber ms in if str_eq m "kill" then false else rest
