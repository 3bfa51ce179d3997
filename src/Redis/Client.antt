-- ===== src/Redis/Client.antt =====
-- api/redis_client.py. A function that waits takes what the other clients did to Redis while it
-- waited, `wait`.
use distribu_q.Config.{high_queue, default_queue, low_queue}
use distribu_q.Redis.{Redis, zadd, rpoplpush, lrem_first, rpush, lpush, up_to, zrem, brpop}
use distribu_q.Base.Int.{pos, negsuc, ℤ}
use distribu_q.Base.{ℕ, zero, suc, String, Option, none, some, List, [], ◌∷◌}

-- The queue of a priority.
abbrev pub queue_of : ℤ → String
queue_of (pos zero) = default_queue
queue_of (pos (suc n)) = high_queue
queue_of (negsuc n) = low_queue

unfoldable pub enqueue_job : ℕ → ℤ → Option String → Redis → Redis × ℕ
enqueue_job id priority none r = lpush (queue_of priority) id r
enqueue_job id priority (some queue) r = lpush queue id r

unfoldable pub atomic_reserve_job : String → String → (Redis → Redis) → Redis → Redis × Option ℕ
atomic_reserve_job source processing wait r = rpoplpush source processing (wait r)

abbrev pub ordered : List String
ordered = high_queue ∷ default_queue ∷ low_queue ∷ []

-- A reply with a job ends the function; with none it goes on.
abbrev pub or_else : Redis × Option ℕ → (Redis → Redis × Option ℕ) → Redis × Option ℕ
or_else (r, some v) next = (r, some v)
or_else (r, none) next = next r

-- The non-blocking pass over the queues, in their order.
unfoldable pub first_waiting : List String → String → Redis → Redis × Option ℕ
first_waiting [] processing r = (r, none)
first_waiting (q ∷ qs) processing r =
    or_else (rpoplpush q processing r) (λ r'. first_waiting qs processing r')

-- What BRPOP took goes onto the processing list by a command of its own.
unfoldable pub after_brpop : String → Redis × Option (String × ℕ) → Redis × Option ℕ
after_brpop processing (r, none) = (r, none)
after_brpop processing (r, some (q, v)) = ((lpush processing v r).0, some v)

unfoldable pub priority_reserve_job : String → (Redis → Redis) → Redis → Redis × Option ℕ
unfolding first_waiting after_brpop
priority_reserve_job processing wait r =
    or_else (first_waiting ordered processing r)
      (λ r'. after_brpop processing (brpop ordered (wait r')))

unfoldable pub ack_job : ℕ → String → Redis → Redis × ℕ
ack_job id processing r = lrem_first processing id r

unfoldable pub requeue_job : ℕ → String → String → Redis → Redis
requeue_job id processing target r = (rpush target id (lrem_first processing id r).0).0

-- `scheduled_for` is what its timestamp() returned: the callers that have a datetime from Postgres or
-- a next run in UTC always get one.
unfoldable pub schedule_job : ℕ → ℕ → String → Redis → Redis × ℕ
schedule_job id scheduled_for set r = zadd set id scheduled_for r

-- The loop of PROMOTE_SCHEDULED_LUA over the due members.
unfoldable pub promote_each : String → String → List ℕ → Redis → Redis
promote_each set target [] r = r
promote_each set target (v ∷ vs) r = promote_each set target vs (lpush target v (zrem set v r)).0

unfoldable pub promote_due_scheduled_jobs : String → String → ℕ → Redis → Redis × List ℕ
unfolding promote_each
promote_due_scheduled_jobs target set now r =
    let due = up_to now (r.zsets set) in (promote_each set target due r, due)
