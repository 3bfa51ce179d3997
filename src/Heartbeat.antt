-- ===== src/Heartbeat.antt =====
-- worker/heartbeat.py: the worker's sign of life.
pub mod Liveness
mod Tests
use distribu_q.World.{◌>>=◌, ◌>>◌, Action, continue, attempt, update}
use distribu_q.Workers.{upsert_worker_heartbeat, mark_worker_dead}
use distribu_q.Base.{String, Bool, List, [], ◌∷◌, if◌then◌else◌}
use distribu_q.Result.{ok}

-- `upsert_worker_heartbeat` with the worker's own counter.
unfoldable pub beat : String → Action
unfolding upsert_worker_heartbeat
beat worker_id = update (λ w. upsert_worker_heartbeat worker_id w.jobs_processed w.now)

-- `_heartbeat_loop`: each element is `self.running` after one more sleep.
unfoldable pub heartbeat_loop : String → List Bool → Action
unfolding beat
heartbeat_loop worker_id [] w = (ok tt, w)
heartbeat_loop worker_id (alive_still ∷ rest) w =
    let next =
      continue (λ _. heartbeat_loop worker_id rest) (beat worker_id w).0 (beat worker_id w).1 in
    if alive_still then next else (ok tt, w)

-- `start`: a first heartbeat, whose exception is logged, and then the loop.
unfoldable pub start : String → List Bool → Action
unfolding heartbeat_loop
start worker_id rounds = do attempt (beat worker_id); heartbeat_loop worker_id rounds

unfoldable pub stop : String → Action
unfolding mark_worker_dead
stop worker_id = attempt (update (λ w. mark_worker_dead worker_id))
