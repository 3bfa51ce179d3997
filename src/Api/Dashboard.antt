-- ===== src/Api/Dashboard.antt =====
-- The routes of api/main.py for the dashboard: workers, dead letters, statistics, the kill command,
-- and the WebSocket.
use distribu_q.Api.Counts.{JobCounts, get_job_counts}
use distribu_q.Events.{emit_stats_snapshot}
use distribu_q.Workers.{list_all_workers, get_active_worker_count}
use distribu_q.World.{Exec, World, Action, attempt, pure}
use distribu_q.Sockets.{connect, disconnect, connection_count, ConnectionManager}
use distribu_q.DeadLetters.{get_dead_letters, DeadLetterListing}
use distribu_q.Schema.{WorkerRow, is_alive}
use distribu_q.Base.Int.{pos}
use distribu_q.Base.{
  select, ℕ, zero, suc, ◌%◌, String, ◌&&◌, List, [], ◌∷◌, ◌++◌, ltb, leb, if◌then◌else◌, length,
}
use distribu_q.Result.{connection_error, http, err, ok}
use distribu_q.Json.{int, end, field, Fields}

-- The counts as the JSON object of an event.
abbrev pub counts_fields : JobCounts → Fields
counts_fields c = field "PENDING" (int (pos c.pending_count)) (
    field "RUNNING" (int (pos c.running_count)) (
      field "SUCCESS" (int (pos c.success_count)) (
        field "FAILED" (int (pos c.failed_count)) (
          field "RETRYING" (int (pos c.retrying_count))
            (field "DEAD_LETTER" (int (pos c.dead_letter_count)) end)))))

-- The two queries and the event.
unfoldable pub send_stats : Action
unfolding get_job_counts get_active_worker_count emit_stats_snapshot
send_stats w =
    emit_stats_snapshot (counts_fields (get_job_counts w.db)) (get_active_worker_count w.db) w

-- One round of `_stats_broadcast_loop`.
unfoldable pub stats_broadcast : ConnectionManager → Action
unfolding send_stats connection_count
stats_broadcast m = if ltb 0 (connection_count m) then attempt send_stats else pure tt

-- `websocket_dashboard`: what happens on a new connection, and at its end.
unfoldable pub websocket_open : ℕ → ConnectionManager → World → ConnectionManager × World
unfolding connect send_stats
websocket_open ws m w = (connect ws m, (attempt send_stats w).1)

unfoldable pub websocket_close : ℕ → ConnectionManager → ConnectionManager
unfolding disconnect
websocket_close ws m = disconnect ws m

unfoldable pub list_registered_workers : Exec (List WorkerRow)
unfolding list_all_workers
list_registered_workers w = (ok (list_all_workers w.db), w)

unfoldable pub list_dead_letters : ℕ → ℕ → Exec (List DeadLetterListing)
unfolding get_dead_letters
list_dead_letters limit offset w =
    if leb 1 limit && leb limit 100
    then (ok (get_dead_letters limit offset w.db), w)
    else (err (http 422), w)

-- The element of a list at an index, the last one where there is none.
abbrev pub pick : WorkerRow → List WorkerRow → ℕ → WorkerRow
pick x [] n = x
pick x (y ∷ ys) zero = x
pick x (y ∷ ys) (suc n) = pick y ys n

-- `random.choice`: the generator may give any index.
abbrev pub choice : ℕ → WorkerRow → List WorkerRow → WorkerRow
choice rand x xs = pick x xs (rand % suc (length xs))

-- PUBLISH of "kill" on the channel of a worker.
abbrev pub kill : String → Exec String
kill id w =
    if w.redis_up
    then (ok id, record w { kills = w.kills ++ id ∷ [] })
    else (err connection_error, w)

abbrev pub kill_one : List WorkerRow → Exec String
kill_one [] w = (err (http 404), w)
kill_one (x ∷ xs) w = kill (choice w.rand x xs).id w

-- The answer is the id of the target, which its channel repeats.
unfoldable pub kill_random_worker : Exec String
unfolding list_all_workers
kill_random_worker w = kill_one (select (λ r. is_alive r.status) (list_all_workers w.db)) w
