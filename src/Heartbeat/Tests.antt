-- ===== src/Heartbeat/Tests.antt =====
-- A heartbeat at 1 s, and an expiry pass with a timeout of 10 s.
use distribu_q.Heartbeat.{beat}
use distribu_q.Redis.{no_keys}
use distribu_q.Workers.{mark_expired_workers_dead}
use distribu_q.Heartbeat.Liveness.{worker_of, beat-expiry}
use distribu_q.Schema.{WorkerRow, empty, is_alive}
use distribu_q.World.{World}
use distribu_q.Base.{◌≡◌, true, false, some, []}

abbrev quiet : World
quiet = record {
  db = empty;
  redis = no_keys;
  redis_up = true;
  now = 1000000;
  published = [];
  kills = [];
  jobs_processed = 6;
  fresh = 1;
  rand = 0;
  flaky_attempts = [];
}

beat-expiry_example :
    (r : WorkerRow) × (worker_of "worker-a"
        (mark_expired_workers_dead 10 12000000 (beat "worker-a" quiet).1.db).0
      ≡ some r)
    × (is_alive r.status ≡ false)
    × (r.last_heartbeat ≡ 1000000)
    × (r.jobs_processed ≡ 6)
beat-expiry_example = beat-expiry "worker-a" 12000000 10 quiet
