-- ===== src/Heartbeat/Liveness.antt =====
-- The worker's row between its heartbeats and the reaper's test for expiry.
use distribu_q.World.{World}
use distribu_q.Heartbeat.{beat}
use distribu_q.Workers.{
  upsert_worker_heartbeat, mark_expired_workers_dead, is_worker, is_expired, bury,
}
use distribu_q.Base.{
  find_row, find_row-update_where, find_row_holds, ℕ, ◌+◌, String, ◌≡◌, refl, ◌∙◌, inl, inr, Bool,
  true, not, Option, none, some, List, [], ◌∷◌, ◌++◌, arith, eq_iff, ltb, Option-cases, Bool-cases,
}
use distribu_q.Schema.{alive, Db, WorkerRow, is_alive, seconds}

-- The row of a worker.
abbrev pub worker_of : String → Db → Option WorkerRow
worker_of id db = find_row (is_worker id) db.workers

find_row-append_none :
    {R : Type 0} (q : R → Bool) (xs : List R) (r : R)
    → find_row q xs ≡ none
    → q r ≡ true
    → find_row q (xs ++ r ∷ []) ≡ some r
unfolding find_row
find_row-append_none q [] r e h = rw h refl
find_row-append_none q (x ∷ xs) r e h = ground (arith, find_row-append_none q xs r)

upsert-row :
    (id : String) (n now : ℕ) (db : Db)
    → (r : WorkerRow) × (worker_of id (upsert_worker_heartbeat id n now db) ≡ some r)
      × (is_alive r.status ≡ true)
      × (r.last_heartbeat ≡ now)
      × (r.jobs_processed ≡ n)
unfolding upsert_worker_heartbeat
upsert-row id n now db = elim (Option-cases (find_row (is_worker id) db.workers)) [
  | inl e ↦ (
    record { id = id; status = alive; last_heartbeat = now; jobs_processed = n; started_at = now },
    rw (e, upsert_worker_heartbeat)
        (find_row-append_none (is_worker id) db.workers _ e (ground (arith, eq_iff id id))),
    refl,
    refl,
    refl,
  )
  | inr (r, e) ↦ (
    record r { status = alive; last_heartbeat = now; jobs_processed = n },
    rw (e, upsert_worker_heartbeat)
        (find_row-update_where (is_worker id) (is_worker id)
            (λ w. record w { status = alive; last_heartbeat = now; jobs_processed = n }) db.workers
            (λ x. refl)
          ∙ rw e (rw (find_row_holds (is_worker id) db.workers r e) refl)),
    refl,
    refl,
    refl,
  )
]

-- A heartbeat at `now` is what decides on an expiry pass at `n`: the worker's row is DEAD after it
-- if the timeout has run out, and stays ALIVE with the counter of that heartbeat if it has not.
pub beat-expiry :
    (id : String) (n timeout : ℕ) (w : World)
    → (r : WorkerRow) × (worker_of id (mark_expired_workers_dead timeout n (beat id w).1.db).0
        ≡ some r)
      × (is_alive r.status ≡ not (ltb (w.now + seconds timeout) n))
      × (r.last_heartbeat ≡ w.now)
      × (r.jobs_processed ≡ w.jobs_processed)
unfolding beat mark_expired_workers_dead
beat-expiry id n timeout w =
    let (r, e, a, h, c) = upsert-row id w.jobs_processed w.now w.db in
    let after =
      find_row-update_where (is_worker id) (is_expired timeout n) bury
        (upsert_worker_heartbeat id w.jobs_processed w.now w.db).workers (λ x. refl) in
    elim (Bool-cases (ltb (w.now + seconds timeout) n)) [
      | inl late ↦ (bury r, after ∙ rw e (rw (a, h, late) refl), rw late refl, h, c)
      | inr fresh_still ↦
          (r, after ∙ rw e (rw (a, h, fresh_still) refl), rw (a, fresh_still) refl, h, c)
    ]
