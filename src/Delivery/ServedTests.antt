-- ===== src/Delivery/ServedTests.antt =====
-- An echo job from its submission to its result.
use distribu_q.Api.Submit.{requested}
use distribu_q.Worker.Tests.{here, handlers}
use distribu_q.Redis.Client.{priority_reserve_job}
use distribu_q.Config.{high_queue, default_queue, low_queue}
use distribu_q.Jobs.{lock, job_row, locked_columns}
use distribu_q.Handlers.{get_handler, execute_handler}
use distribu_q.World.{World}
use distribu_q.Redis.Tiers.{IsOutside, tiers}
use distribu_q.Schema.{Job, job_of, success}
use distribu_q.Worker.{run_handler, handler_payload}
use distribu_q.Api.{check_rule, new_job}
use distribu_q.Base.{find_row, ◌≡◌, refl, none, some, [], eq_iff}
use distribu_q.Result.{ok}
use distribu_q.Json.{obj, end, filter_keys, truthy}
use distribu_q.Delivery.Tests.{nobody, request}
use distribu_q.Delivery.{request_job, reserve_with, process_by, worker_named, perform}
use distribu_q.Delivery.Served.{perform-serves, no_tiers}

abbrev from_request : World
from_request = perform "queue:processing" here handlers (λ t. "time") (request_job request) nobody

abbrev from_reserve : World
from_reserve =
    perform "queue:processing" here handlers (λ t. "time") (reserve_with (λ r. r)) from_request

abbrev from_work : World
from_work =
    perform "queue:processing" here handlers (λ t. "time") (process_by "worker-a" 8) from_reserve

abbrev in_hand : Job
in_hand = lock "worker-a" 1000 (job_row 8 1000 (new_job request))

echo_returns :
    (u : World)
    → run_handler here
        (worker_named "queue:processing" here handlers (λ t. "time") "worker-a")
        handlers
        (locked_columns in_hand)
        u
      ≡ (ok (obj end), u)
unfolding run_handler get_handler execute_handler handler_payload filter_keys truthy
echo_returns u = refl

fresh_key : job_of 8 nobody.db ≡ none
unfolding find_row
fresh_key = refl

outside : IsOutside "queue:processing"
outside = record {
  not_high = λ e. cc ((eq_iff "queue:processing" high_queue).1 e);
  not_default = λ e. cc ((eq_iff "queue:processing" default_queue).1 e);
  not_low = λ e. cc ((eq_iff "queue:processing" low_queue).1 e);
}

perform-serves_example :
    ((priority_reserve_job "queue:processing" (λ r. r) from_request.redis).1 ≡ some 8)
    × (tiers from_reserve.redis ≡ no_tiers)
    × (job_of 8 from_work.db
        ≡ some (record (requested 8 1000 request) {
          status = success;
          attempts = 1;
          result = some (obj end);
        }))
    × (from_work.redis.lists "queue:processing" ≡ [])
    × (from_work.jobs_processed ≡ 5)
unfolding check_rule
perform-serves_example =
    perform-serves "queue:processing" here handlers (λ t. "time") "worker-a" (λ r. r) request nobody
      (obj end) refl refl refl fresh_key refl refl outside refl tt echo_returns
