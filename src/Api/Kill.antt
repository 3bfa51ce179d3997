-- ===== src/Api/Kill.antt =====
-- Whom the kill command may reach.
use distribu_q.Workers.{list_all_workers}
use distribu_q.Schema.{WorkerRow, is_alive}
use distribu_q.World.{World}
use distribu_q.Api.Dashboard.{kill_random_worker, pick, kill, kill_one, choice}
use distribu_q.Base.{
  select, ℕ, zero, suc, ◌%◌, String, ◌≡◌, refl, ap, ◌∙◌, inl, inr, Bool, true, false, ◌&&◌, ◌||◌,
  not, List, [], ◌∷◌, ◌++◌, arith, str_eq, eq_iff, Bool-cases, length, All, All-order_desc,
}
use distribu_q.Result.{ok}

-- The table has an ALIVE row of this id.
abbrev pub has_alive : String → List WorkerRow → Bool
has_alive id [] = false
has_alive id (r ∷ rs) = (is_alive r.status && str_eq r.id id) || has_alive id rs

-- A row that is ALIVE and of the table.
abbrev Lives : List WorkerRow → WorkerRow → Type 0
Lives ws r = (not (is_alive r.status) || has_alive r.id ws) ≡ true

All-Lives :
    (rs ws : List WorkerRow)
    → ((id : String) → has_alive id rs ≡ true → has_alive id ws ≡ true)
    → All (Lives ws) rs
All-Lives [] ws h = tt
All-Lives (r ∷ rs) ws h = (
  (elim (Bool-cases (is_alive r.status)) [
    | inl e ↦ rw (e, h r.id (rw e (rw ((eq_iff r.id r.id).1 refl) refl))) refl
    | inr e ↦ rw e refl
  ]),
  All-Lives rs ws (λ id e. h id (ground arith)),
)

All-select_and :
    (P : WorkerRow → Type 0) (p : WorkerRow → Bool) (rs : List WorkerRow)
    → All P rs
    → All (λ r. P r × (p r ≡ true)) (select p rs)
unfolding select
All-select_and P p [] all = tt
All-select_and P p (r ∷ rs) all = elim (Bool-cases (p r)) [
  | inl e ↦ rw e ((all.0, e), All-select_and P p rs all.1)
  | inr e ↦ rw e (All-select_and P p rs all.1)
]

All-pick :
    (P : WorkerRow → Type 0) (x : WorkerRow) (xs : List WorkerRow) (n : ℕ)
    → All P (x ∷ xs)
    → P (pick x xs n)
All-pick P x [] n h = h.0
All-pick P x (y ∷ ys) zero h = h.0
All-pick P x (y ∷ ys) (suc n) h = All-pick P y ys n h.1

kill-up :
    (id : String) (w : World)
    → w.redis_up ≡ true
    → kill id w ≡ (ok id, record w { kills = w.kills ++ id ∷ [] })
kill-up id w up = rw up refl

kill_one-alive :
    (rs ws : List WorkerRow) (w : World) (id : String)
    → All (λ r. Lives ws r × (is_alive r.status ≡ true)) rs
    → (kill_one rs w).0 ≡ ok id
    → (has_alive id ws ≡ true) × ((kill_one rs w).1 ≡ record w { kills = w.kills ++ id ∷ [] })
kill_one-alive [] ws w id all e = cc
kill_one-alive (x ∷ xs) ws w id all e =
    let r : WorkerRow = choice w.rand x xs in
    let (lives, living) =
      All-pick (λ y. Lives ws y × (is_alive y.status ≡ true)) x xs (w.rand % suc (length xs)) all in
    elim (Bool-cases w.redis_up) [
      | inr down ↦ absurd (ground arith)
      | inl up ↦
          let k = kill-up r.id w up in
          let f = ap (λ y. y.0) k in
          let same : r.id ≡ id = cc in
          (
            rw same at (rw living at lives),
            ap (λ y. y.1) k ∙ ap (λ i. record w { kills = w.kills ++ i ∷ [] }) same,
          )
    ]

-- Where the route answers with an id, the workers table has an ALIVE row of that id, and exactly one
-- kill command went out, to that worker; nothing else changed.
pub kill_random_worker-alive :
    (w : World) (id : String)
    → (kill_random_worker w).0 ≡ ok id
    → (has_alive id w.db.workers ≡ true)
      × ((kill_random_worker w).1 ≡ record w { kills = w.kills ++ id ∷ [] })
unfolding kill_random_worker list_all_workers
kill_random_worker-alive w id e =
    kill_one-alive (select (λ r. is_alive r.status) (list_all_workers w.db)) w.db.workers w id
      (All-select_and (Lives w.db.workers) (λ r. is_alive r.status) (list_all_workers w.db)
        (All-order_desc (Lives w.db.workers) (λ r. r.started_at) w.db.workers
          (All-Lives w.db.workers w.db.workers (λ i h. h))))
      e
