-- ===== src/Events.antt =====
-- api/events.py: the event bus. The JSON text of an envelope is its fields.
use distribu_q.World.{Event, Action, catch, pure}
use distribu_q.Base.Int.{pos, ℤ}
use distribu_q.Base.{ℕ, String, Option, none, some, [], ◌∷◌, ◌++◌, str_eq, if◌then◌else◌}
use distribu_q.Result.{connection_error, err, ok}
use distribu_q.Json.{int, str, obj, end, field, put, Fields}

-- PUBLISH on EVENTS_CHANNEL.
abbrev publish : Event → Action
publish e w =
    if w.redis_up
    then (ok tt, record w { published = w.published ++ e ∷ [] })
    else (err connection_error, w)

-- Publishing is best-effort: an exception is logged and dropped.
unfoldable pub publish_event : String → Fields → Action
publish_event event_type payload w =
    catch (publish (record { event = event_type; timestamp = w.now; payload = payload }))
      (λ _. pure tt) w

-- `if x: data[k] = x`, for an optional text.
abbrev optional : String → Option String → Fields → Fields
optional k none fs = fs
optional k (some s) fs = if str_eq s "" then fs else put k (str s) fs

unfoldable pub emit_job_status_changed : String → String → String → Option String → Action
unfolding publish_event put
emit_job_status_changed job_id job_type status worker_id = publish_event "job.status_changed" (
    optional "worker_id" worker_id
      (field "job_id" (str job_id) (field "type" (str job_type) (field "status" (str status) end))))

unfoldable pub emit_job_submitted : String → String → ℤ → Option String → Action
unfolding publish_event put
emit_job_submitted job_id job_type priority scheduled_for = publish_event "job.submitted" (
    optional "scheduled_for" scheduled_for (
      field "job_id" (str job_id)
        (field "type" (str job_type) (field "priority" (int priority) end))))

-- `last_heartbeat` is the text of the time, which the caller gives.
unfoldable pub emit_worker_heartbeat : String → String → ℕ → String → Action
unfolding publish_event
emit_worker_heartbeat worker_id status jobs_processed now_iso = publish_event "worker.heartbeat" (
    field "worker_id" (str worker_id) (
      field "status" (str status) (
        field "jobs_processed" (int (pos jobs_processed))
          (field "last_heartbeat" (str now_iso) end))))

unfoldable pub emit_worker_dead : String → Action
unfolding publish_event
emit_worker_dead worker_id = publish_event "worker.dead" (field "worker_id" (str worker_id) end)

unfoldable pub emit_stats_snapshot : Fields → ℕ → Action
unfolding publish_event
emit_stats_snapshot counts active_workers =
    publish_event "stats.snapshot"
      (field "counts" (obj counts) (field "active_workers" (int (pos active_workers)) end))
