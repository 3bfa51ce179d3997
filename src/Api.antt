-- ===== src/Api.antt =====
-- api/main.py, with the request models of api/models.py and the counts of api/db.py: what each route
-- does. FastAPI answers 422 to a request body that breaks a constraint of its model.
pub mod Submit
pub mod Cancel
pub mod Replay
pub mod Counts
pub mod Statuses
pub mod Tally
pub mod Listing
pub mod Dashboard
pub mod Page
pub mod Kill
mod Tests
use distribu_q.Config.{default_scheduled_set, default_queue, high_queue, low_queue}
use distribu_q.Events.{emit_job_submitted, emit_job_status_changed}
use distribu_q.Redis.{lrem_all, zrem}
use distribu_q.Recurrence.{is_valid_recurrence_rule}
use distribu_q.DeadLetters.{replay_dead_letter}
use distribu_q.Jobs.{NewJob, get_job, create_job, cancel_job, CancelRecord}
use distribu_q.Redis.Client.{enqueue_job, schedule_job}
use distribu_q.Base.Int.{pos, negsuc, ℤ, pos_part}
use distribu_q.Base.{
  ℕ, String, Bool, false, ◌&&◌, ◌||◌, not, Option, none, some, List, str_eq, leb, if◌then◌else◌,
  codes,
}
use distribu_q.Result.{http, err, ok, Result}
use distribu_q.Schema.{pending, JobStatus, Job, status_text}
use distribu_q.Json.{obj, Fields}
use distribu_q.World.{
  ◌>>=◌, ◌>>◌, Exec, query, Action, try_query, raise, command_, attempt, pure, lift,
}

-- A datetime of a request, which need not have a timezone: the instant that Postgres stores for it,
-- and what its `timestamp()` returns or raises.
pub record Datetime : Type 0 where
  pub instant : ℕ
  pub timestamp : Result ℕ

abbrev pub instant_of : Option Datetime → Option ℕ
instant_of none = none
instant_of (some d) = some d.instant

pub record JobCreateRequest : Type 0 where
  pub type : String
  pub payload : Fields
  pub priority : ℤ
  pub max_attempts : ℤ
  pub scheduled_for : Option Datetime
  pub recurrence_rule : Option String

-- `ge=1, le=50`.
abbrev pub is_attempts : ℤ → Bool
is_attempts (pos n) = leb 1 n && leb n 50
is_attempts (negsuc n) = false

abbrev pub is_accepted : JobCreateRequest → Bool
is_accepted req = not (str_eq req.type "") && is_attempts req.max_attempts

abbrev pub new_job : JobCreateRequest → NewJob
new_job req = record {
  type = req.type;
  payload = obj req.payload;
  priority = req.priority;
  max_attempts = pos_part req.max_attempts;
  scheduled_for = instant_of req.scheduled_for;
  recurrence_rule = req.recurrence_rule;
}

pub record JobCreateResponse : Type 0 where
  pub job_id : ℕ
  pub status : JobStatus

-- The queue or the sorted set, by `scheduled_for`, whose timestamp() `schedule_job` takes first.
unfoldable pub place : ℕ → JobCreateRequest → Action
unfolding enqueue_job schedule_job
place id req = elim req.scheduled_for [
  | none ↦ command_ (λ r. (enqueue_job id req.priority none r).0)
  | some d ↦ lift d.timestamp >>= λ t. command_ (λ r. (schedule_job id t default_scheduled_set r).0)
]

-- `uuid_text` is the text of a UUID, and `iso` the isoformat() of a datetime.
module _ (croniter : List ℕ → ℕ → Result ℕ) (uuid_text iso : ℕ → String) where
  -- The test of the rule; an empty text counts as none.
  unfoldable pub check_rule : Option String → ℕ → Result (Unit {0})
  unfolding is_valid_recurrence_rule
  check_rule none now = ok tt
  check_rule (some rule) now =
      if str_eq rule "" || is_valid_recurrence_rule croniter (codes rule) now
      then ok tt
      else err (http 400)

  unfoldable pub announce : ℕ → JobCreateRequest → Action
  unfolding emit_job_submitted
  announce id req = attempt (
      emit_job_submitted (uuid_text id) req.type req.priority
        (elim req.scheduled_for [ none ↦ none | some d ↦ some (iso d.instant) ]))

  unfoldable pub submit_job : JobCreateRequest → Exec JobCreateResponse
  unfolding check_rule create_job place announce
  submit_job req = do
    (λ w. (check_rule req.recurrence_rule w.now, w))
    job_record ← try_query (λ w. create_job w.fresh (new_job req) w.now)
    place job_record.id req
    announce job_record.id req
    pure (record { job_id = job_record.id; status = pending })

  -- The route, with the validation of its body.
  unfoldable pub post_job : JobCreateRequest → Exec JobCreateResponse
  unfolding submit_job
  post_job req = if is_accepted req then submit_job req else raise (http 422)

module _ (uuid_text : ℕ → String) where
  -- The best-effort part of a cancellation.
  unfoldable pub withdraw : ℕ → CancelRecord → Action
  unfolding lrem_all zrem emit_job_status_changed
  withdraw id record_ = attempt (do
    command_ (λ r. (lrem_all default_queue id r).0)
    command_ (λ r. (lrem_all high_queue id r).0)
    command_ (λ r. (lrem_all low_queue id r).0)
    command_ (λ r. zrem default_scheduled_set id r)
    emit_job_status_changed (uuid_text id) record_.type (status_text record_.status) none)

  unfoldable pub cancel_job_by_id : ℕ → Exec CancelRecord
  unfolding cancel_job withdraw
  cancel_job_by_id id = do
    found ← query (λ w. cancel_job id w.now)
    elim found [ none ↦ raise (http 404) | some r ↦ withdraw id r >> pure r ]

unfoldable pub get_job_by_id : ℕ → Exec Job
unfolding get_job
get_job_by_id id w = elim (get_job id w.db) [ none ↦ (err (http 404), w) | some j ↦ (ok j, w) ]

pub record ReplayResponse : Type 0 where
  pub job_id : ℕ
  pub dead_letter_id : ℕ
  pub status : JobStatus

-- `enqueue_job` is called without a priority.
unfoldable pub replay_dead_letter_job : ℕ → Exec ReplayResponse
unfolding replay_dead_letter enqueue_job
replay_dead_letter_job id = do
  result ← query (λ w. replay_dead_letter id w.now)
  elim result [
    | none ↦ raise (http 404)
    | some d ↦ do
      command_ (λ r. (enqueue_job d.job_id (pos 0) none r).0)
      pure (record { job_id = d.job_id; dead_letter_id = d.dead_letter_id; status = pending })
  ]
