-- ===== src/Scheduler/Startup.antt =====
-- `sync_from_db`: the sorted set after a start.
use distribu_q.Jobs.{get_pending_scheduled_jobs, is_scheduled}
use distribu_q.World.Loops.{each, command_-up}
use distribu_q.Redis.Schedule.{elem, elem-insert_member, elem-without}
use distribu_q.Jobs.Lookup.{HasKeys, find_row-none_and, find_row-key}
use distribu_q.World.{World, for_each, continue}
use distribu_q.Redis.Client.{schedule_job, promote_due_scheduled_jobs}
use distribu_q.Redis.{up_to, zadd, without, Redis}
use distribu_q.Schema.{Job, has_id, pending, job_of, is_status}
use distribu_q.Scheduler.{Scheduler, sync_job, sync_from_db}
use distribu_q.Base.{
  find_row, ℕ, String, ◌≡◌, refl, ap, ◌∙◌, inl, inr, Bool, true, false, Option, none, some, List,
  [], ◌∷◌, arith, eq_iff, leb, ◌==◌, if◌then◌else◌, ==_iff, Bool-cases, Option-cases, select, ◌&&◌,
}
use distribu_q.Result.{ok}

elem-without_ne :
    (v u n : ℕ) (z : List (ℕ × ℕ))
    → (u == v) ≡ false
    → elem v (up_to n (without u z)) ≡ elem v (up_to n z)
unfolding up_to without
elem-without_ne v u n [] ne = refl
elem-without_ne v u n ((m, s) ∷ z) ne = ground (arith, elem-without_ne v u n z ne)

-- The due members after a ZADD.
elem-zadd :
    (set : String) (v u t n : ℕ) (r : Redis)
    → elem v (up_to n ((zadd set u t r).0.zsets set))
      ≡ (if u == v then leb t n else elem v (up_to n (r.zsets set)))
unfolding zadd
elem-zadd set v u t n r = ground (
  arith,
  eq_iff set set,
  elem-insert_member v n u t (without u (r.zsets set)),
  elem-without v n (r.zsets set),
  elem-without_ne v u n (r.zsets set),
)

find_row-select_and :
    (id : ℕ) (p : Job → Bool) (js : List Job)
    → find_row (has_id id) (select p js) ≡ find_row (λ r. has_id id r && p r) js
unfolding find_row select
find_row-select_and id p [] = refl
find_row-select_and id p (j ∷ js) = ground (arith, find_row-select_and id p js)

find_row-select :
    (id : ℕ) (p : Job → Bool) (js : List Job)
    → find_row (has_id id) js ≡ none
    → find_row (has_id id) (select p js) ≡ none
find_row-select id p js e = find_row-select_and id p js ∙ find_row-none_and id p js e

-- What an entry is worth: a row with a time replaces what the set held.
abbrev entry_of : Option Job → ℕ → Bool → Bool
entry_of none n b = b
entry_of (some j) n b = elim j.scheduled_for [ none ↦ b | some t ↦ leb t n ]

module _ (self : Scheduler) where
  open self use {scheduled_set}

  unfoldable pub sync_row : Job → Redis → Redis
  sync_row j r = elim j.scheduled_for [
    | none ↦ r
    | some t ↦ (schedule_job j.id t scheduled_set r).0
  ]

  sync_job-row :
      (j : Job) (w : World)
      → w.redis_up ≡ true
      → sync_job self j w ≡ (ok tt, record w { redis = sync_row j w.redis })
  unfolding sync_job sync_row
  sync_job-row j w up = elim (Option-cases j.scheduled_for) [
    | inl e ↦ rw e refl
    | inr (t, e) ↦ rw e (command_-up (λ r. (schedule_job j.id t scheduled_set r).0) w up)
  ]

  for_each-sync_job :
      (js : List Job) (w : World)
      → w.redis_up ≡ true
      → for_each (sync_job self) js w ≡ (ok tt, record w { redis = each sync_row js w.redis })
  for_each-sync_job [] w up = refl
  for_each-sync_job (j ∷ js) w up =
      ap (λ x. continue (λ _. for_each (sync_job self) js) x.0 x.1) (sync_job-row j w up)
      ∙ for_each-sync_job js (record w { redis = sync_row j w.redis }) up

  elem-sync_row :
      (id n : ℕ) (j : Job) (r : Redis)
      → elem id (up_to n ((sync_row j r).zsets scheduled_set)) ≡ (
          if j.id == id
          then entry_of (some j) n (elem id (up_to n (r.zsets scheduled_set)))
          else elem id (up_to n (r.zsets scheduled_set)))
  unfolding sync_row schedule_job
  elem-sync_row id n j r = elim (Option-cases j.scheduled_for) [
    | inl e ↦ rw e (ground arith)
    | inr (t, e) ↦ rw e (elem-zadd scheduled_set id j.id t n r)
  ]

  -- The due members after the loop over rows of different keys.
  elem-synced :
      (id n : ℕ) (js : List Job) (r : Redis)
      → HasKeys js
      → elem id (up_to n ((each sync_row js r).zsets scheduled_set))
        ≡ entry_of (find_row (has_id id) js) n (elem id (up_to n (r.zsets scheduled_set)))
  unfolding find_row
  elem-synced id n [] r k = refl
  elem-synced id n (j ∷ js) r k = elim (Bool-cases (j.id == id)) [
    | inr miss ↦ elem-synced id n js (sync_row j r) k.1 ∙ rw (elem-sync_row id n j r, miss) refl
    | inl hit ↦
        let same : j.id ≡ id = (==_iff j.id id).0 hit in
        let rest : find_row (has_id id) js ≡ none = rw same at k.0 in
        elem-synced id n js (sync_row j r) k.1 ∙ rw (rest, elem-sync_row id n j r, hit) refl
  ]

  HasKeys-select : (p : Job → Bool) (js : List Job) → HasKeys js → HasKeys (select p js)
  unfolding select
  HasKeys-select p [] k = tt
  HasKeys-select p (j ∷ js) k = elim (Bool-cases (p j)) [
    | inl e ↦ rw e (find_row-select j.id p js k.0, HasKeys-select p js k.1)
    | inr e ↦ rw e (HasKeys-select p js k.1)
  ]

  pub sync_from_db-up :
      (w : World)
      → w.redis_up ≡ true
      → (sync_from_db self w).1
        ≡ record w { redis = each sync_row (get_pending_scheduled_jobs w.db) w.redis }
  unfolding sync_from_db
  sync_from_db-up w up = rw (for_each-sync_job (get_pending_scheduled_jobs w.db) w up) refl

  -- Where no two jobs share an id, after a start of the scheduler while Redis answers, whatever the sorted set held before: the
  -- promotion at a time `n` returns a pending job that has a time `t` if and only if `t` is not
  -- after `n`.
  pub sync_from_db-promotes :
      (id t n : ℕ) (target : String) (j : Job) (w : World)
      → HasKeys w.db.jobs
      → w.redis_up ≡ true
      → job_of id w.db ≡ some j
      → is_status j.status pending ≡ true
      → j.scheduled_for ≡ some t
      → elem id (promote_due_scheduled_jobs target scheduled_set n (sync_from_db self w).1.redis).1
        ≡ leb t n
  unfolding promote_due_scheduled_jobs get_pending_scheduled_jobs
  sync_from_db-promotes id t n target j w keys up found free at =
      let js : List Job = select is_scheduled w.db.jobs in
      let there : find_row (has_id id) js ≡ some j =
        find_row-select_and id is_scheduled w.db.jobs
        ∙ find_row-key id is_scheduled w.db.jobs j keys found
        ∙ rw (free, at) refl in
      ap (λ w'. elem id (up_to n (w'.redis.zsets scheduled_set))) (sync_from_db-up w up)
      ∙ elem-synced id n js w.redis (HasKeys-select is_scheduled w.db.jobs keys)
      ∙ rw (there, at) refl
