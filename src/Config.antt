-- ===== src/Config.antt =====
-- api/config.py: the defaults of `Settings` that the other files read. The environment may override
-- them; the queue names stay distinct wherever the program works at all.
use distribu_q.Base.{ℕ, String}

abbrev pub default_queue : String
default_queue = "queue:default"

abbrev pub high_queue : String
high_queue = "queue:high"

abbrev pub low_queue : String
low_queue = "queue:low"

abbrev pub default_processing_queue : String
default_processing_queue = "queue:processing"

abbrev pub default_scheduled_set : String
default_scheduled_set = "zset:scheduled"

abbrev pub default_visibility_timeout_sec : ℕ
default_visibility_timeout_sec = 60

abbrev pub heartbeat_interval_sec : ℕ
heartbeat_interval_sec = 3

abbrev pub worker_timeout_sec : ℕ
worker_timeout_sec = 10
