-- ===== src/Connections/Lifespan.antt =====
-- The life of the connections of a process.
use distribu_q.Connections.{
  run_worker, Process, close_worker_db_pool, init_db_pool, lifespan_start, init_redis, Setup,
  lifespan_end, close_redis, Answer, close_db_pool, get_db_pool, get_redis, Answers,
}
use distribu_q.Base.{◌≡◌, refl, inl, inr, true, false, none, [], Option-cases}
use distribu_q.Result.{runtime_error, err, ok, Exn}

module _ (p : Process) (no_pool : p.db_pool ≡ none) (no_client : p.redis_client ≡ none) where
  -- A process without a pool and a client, where both servers answer and neither task has raised:
  -- between the start and the end of the API's lifespan the pool and the client are there and open; after it
  -- asking for either raises a RuntimeError, and no background task is left.
  pub lifespan_lem :
      (a : Answers)
      → a.open_db ≡ ok tt
      → a.ping ≡ ok tt
      → a.end_subscriber ≡ ok tt
      → a.end_stats ≡ ok tt
      → a.aclose ≡ ok tt
      → a.close_db ≡ ok tt
      → let p1 = (lifespan_start a p).1 in
        let p2 = (lifespan_end a p1).1 in
        ((get_db_pool p1).0 ≡ ok (record { opened = true }))
        × ((get_redis p1).0 ≡ ok (record { opened = true }))
        × ((get_db_pool p2).0 ≡ err (runtime_error "Database connection pool is not initialized."))
        × ((get_redis p2).0 ≡ err (runtime_error "Redis client is not initialized."))
        × (p2.tasks ≡ [])
  unfolding lifespan_start lifespan_end init_db_pool init_redis close_redis close_db_pool
      get_db_pool get_redis
  lifespan_lem a open_db ping subscriber stats aclose close_db =
      rw (no_pool, no_client, open_db, ping, subscriber, stats, aclose, close_db)
        (refl, refl, refl, refl, refl)

  -- Where the pool of the API cannot be opened, or the first PING of Redis is not answered, the caller gets the exception; every later call of the
  -- same function succeeds, whatever the server answers then, and returns a connection that was never opened.
  pub init-unopened :
      (x y : Exn) (later : Answer)
      → let p1 = (init_db_pool (err x) p).1 in
        let p2 = (init_redis (err y) p).1 in
        ((init_db_pool (err x) p).0 ≡ err x)
        × ((init_db_pool later p1).0 ≡ ok (record { opened = false }))
        × ((init_redis (err y) p).0 ≡ err y)
        × ((init_redis later p2).0 ≡ ok (record { opened = false }))
  unfolding init_db_pool init_redis
  init-unopened x y later = rw (no_pool, no_client) (refl, refl, refl, refl)

-- A worker that returns or raises has its pool closed, if it can be, and its own result is what is
-- seen.
pub run_worker-closes :
    (start : Setup (Unit {0})) (p : Process)
    → ((run_worker start (ok tt) p).0 ≡ (start p).0)
      × ((run_worker start (ok tt) p).1.worker_db_pool ≡ none)
unfolding run_worker close_worker_db_pool
run_worker-closes start p = elim (Option-cases (start p).1.worker_db_pool) [
  | inl e ↦ rw (e, run_worker) (refl, refl)
  | inr (c, e) ↦ rw (e, run_worker) (refl, refl)
]
