-- ===== src/Api/Tests.antt =====
-- The routes at concrete requests.
use distribu_q.Written.{called_off, renewed}
use distribu_q.Api.Tally.{get_job_counts-direct}
use distribu_q.Api.Counts.{get_job_counts, direct}
use distribu_q.Api.Cancel.{cancel_job_by_id-cancels}
use distribu_q.Api.Replay.{replay_dead_letter_job_lem}
use distribu_q.Redis.Tiers.{tiers, put_job}
use distribu_q.Config.{high_queue, default_queue, low_queue, default_scheduled_set}
use distribu_q.Redis.Schedule.{elem}
use distribu_q.Redis.{no_keys, up_to}
use distribu_q.Recurrence.{is_valid_recurrence_rule}
use distribu_q.Jobs.{job_row}
use distribu_q.Api.Submit.{submit_job-down, submit_job_lem, requested, IsPlaced}
use distribu_q.Api.Listing.{list_jobs}
use distribu_q.World.{World}
use distribu_q.Api.{
  submit_job, cancel_job_by_id, check_rule, JobCreateRequest, replay_dead_letter_job, new_job,
  get_job_by_id,
}
use distribu_q.Jobs.Lookup.{HasKeys}
use distribu_q.DeadLetters.{matches, archive, has_dl_id}
use distribu_q.Result.{connection_error, value_error, err, ok, Result}
use distribu_q.Schema.{pending, Job, DeadLetter, job_of, failed}
use distribu_q.Json.{end}
use distribu_q.Base.Int.{pos}
use distribu_q.Base.{
  [], ◌∷◌, none, some, select, find_row, order_desc, ℕ, String, ◌≡◌, refl, Bool, false, not, List,
  map,
}

abbrev no_cron : List ℕ → ℕ → Result ℕ
no_cron rule base = err value_error

abbrev text : ℕ → String
text n = "text"

abbrev request : JobCreateRequest
request = record {
  type = "echo";
  payload = end;
  priority = pos 5;
  max_attempts = pos 3;
  scheduled_for = none;
  recurrence_rule = some "@every 5m";
}

abbrev bad_request : JobCreateRequest
bad_request = record request { recurrence_rule = some "sometimes" }

-- One job waits in PENDING, one is a dead letter.
abbrev waiting_job : Job
waiting_job = job_row 1 10 (new_job request)

abbrev dead_job : Job
dead_job = archive "boom" (record (job_row 2 20 (new_job request)) { attempts = 3 })

abbrev letter : DeadLetter
letter = record { id = 30; job_id = 2; final_error = "boom"; attempts_made = 3; moved_at = 25 }

abbrev online : World
online = record {
  db = record { jobs = waiting_job ∷ dead_job ∷ []; workers = []; dead_letters = letter ∷ [] };
  redis = record no_keys { lists = λ q. 1 ∷ 4 ∷ [] };
  redis_up = Bool.true;
  now = 1000;
  published = [];
  kills = [];
  jobs_processed = 0;
  fresh = 3;
  rand = 0;
  flaky_attempts = [];
}

abbrev offline : World
offline = record online { redis_up = Bool.false }

rule_fits : check_rule no_cron text text request.recurrence_rule 1000 ≡ ok tt
unfolding check_rule is_valid_recurrence_rule
rule_fits = refl

three_is_new : job_of 3 online.db ≡ none
unfolding find_row
three_is_new = refl

submit_job_lem_example :
    ((submit_job no_cron text text request online).0 ≡ ok (record { job_id = 3; status = pending }))
    × ((submit_job no_cron text text request online).1.db
        ≡ record online.db { jobs = waiting_job ∷ dead_job ∷ requested 3 1000 request ∷ [] })
    × IsPlaced 3 (pos 5) none online.redis (submit_job no_cron text text request online).1.redis
    × ((get_job_by_id 3 (submit_job no_cron text text request online).1).0
        ≡ ok (requested 3 1000 request))
submit_job_lem_example =
    submit_job_lem no_cron text text request online none rule_fits refl three_is_new refl refl

submit_job-down_example : submit_job no_cron text text request offline ≡ (
  err connection_error,
  record offline {
    db = record online.db { jobs = waiting_job ∷ dead_job ∷ requested 3 1000 request ∷ [] };
  },
)
submit_job-down_example =
    submit_job-down no_cron text text request offline none rule_fits refl three_is_new refl refl

online-HasKeys : HasKeys online.db.jobs
unfolding find_row
online-HasKeys = (refl, (refl, tt))

one_found : job_of 1 online.db ≡ some waiting_job
unfolding find_row
one_found = refl

cancel_job_by_id-cancels_example :
    let w' = (cancel_job_by_id text 1 online).1 in
    ((cancel_job_by_id text 1 online).0
      ≡ ok (record { id = 1; status = failed; type = "echo"; priority = pos 5 }))
    × (job_of 1 w'.db ≡ some (called_off 1000 waiting_job))
    × (elem 1 (w'.redis.lists high_queue) ≡ false)
    × (elem 1 (w'.redis.lists default_queue) ≡ false)
    × (elem 1 (w'.redis.lists low_queue) ≡ false)
    × ((n : ℕ) → elem 1 (up_to n (w'.redis.zsets default_scheduled_set)) ≡ false)
cancel_job_by_id-cancels_example =
    cancel_job_by_id-cancels text 1 online waiting_job online-HasKeys one_found refl refl

letter_found : find_row (matches 2) online.db.dead_letters ≡ some letter
unfolding find_row
letter_found = refl

dead_found : job_of 2 online.db ≡ some dead_job
unfolding find_row
dead_found = refl

replay_dead_letter_job_lem_example :
    let w' = (replay_dead_letter_job 2 online).1 in
    ((replay_dead_letter_job 2 online).0
      ≡ ok (record { job_id = 2; dead_letter_id = 30; status = pending }))
    × (job_of 2 w'.db ≡ some (renewed 1000 dead_job))
    × (w'.db.dead_letters ≡ select (λ x. not (has_dl_id 30 x)) (letter ∷ []))
    × (tiers w'.redis ≡ put_job 2 (pos 0) (tiers online.redis))
replay_dead_letter_job_lem_example =
    replay_dead_letter_job_lem 2 online letter dead_job letter_found dead_found refl

-- The newest job comes first.
newest_first : map (λ j. j.id) (list_jobs none (some "") 1 0 online.db) ≡ 2 ∷ []
unfolding list_jobs select order_desc
newest_first = refl

get_job_counts-direct_example : get_job_counts online.db ≡ direct online.db.jobs
get_job_counts-direct_example = get_job_counts-direct online.db
