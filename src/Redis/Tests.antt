-- ===== src/Redis/Tests.antt =====
-- The Redis client at concrete inputs.
use distribu_q.Redis.Drain.{drain, drain-in_order}
use distribu_q.Config.{
  default_scheduled_set, default_queue, default_processing_queue, high_queue, low_queue,
}
use distribu_q.Redis.Client.{priority_reserve_job}
use distribu_q.Redis.Tiers.{Takes, IsOutside, priority_reserve_job-Takes}
use distribu_q.Redis.Schedule.{HasMembers}
use distribu_q.Redis.{Redis, no_keys, write}
use distribu_q.Base.{◌≡◌, refl, [], ◌∷◌, eq_iff}

abbrev loaded : Redis
loaded = record no_keys {
  lists = write default_queue (2 ∷ 1 ∷ []) (write low_queue (3 ∷ []) no_keys.lists);
}

abbrev delayed : Redis
delayed = record no_keys {
  zsets = write default_scheduled_set ((5, 10) ∷ (4, 30) ∷ []) no_keys.zsets;
}

processing_IsOutside : IsOutside default_processing_queue
processing_IsOutside = record {
  not_high = λ e. cc ((eq_iff default_processing_queue high_queue).1 e);
  not_default = λ e. cc ((eq_iff default_processing_queue default_queue).1 e);
  not_low = λ e. cc ((eq_iff default_processing_queue low_queue).1 e);
}

priority_reserve_job-Takes_example :
    Takes default_processing_queue loaded
      (priority_reserve_job default_processing_queue (λ r. r) loaded)
priority_reserve_job-Takes_example =
    priority_reserve_job-Takes default_processing_queue (λ r. r) loaded processing_IsOutside

delayed-HasMembers : HasMembers (delayed.zsets default_scheduled_set)
delayed-HasMembers = (refl, (refl, tt))

drain-in_order_example :
    ((drain default_processing_queue 2 loaded).1 ≡ 1 ∷ 2 ∷ [])
    × ((drain default_processing_queue 2 loaded).0.lists default_processing_queue ≡ 2 ∷ 1 ∷ [])
drain-in_order_example = drain-in_order default_processing_queue 2 loaded processing_IsOutside
