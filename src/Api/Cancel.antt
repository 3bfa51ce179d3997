-- ===== src/Api/Cancel.antt =====
-- What a cancellation leaves in Postgres and in Redis.
use distribu_q.Written.{called_off}
use distribu_q.World.Loops.{attempt-ok, then-ok, command_-up}
use distribu_q.Worker.Settle.{publish_event-world}
use distribu_q.Jobs.Lookup.{HasKeys, find_row-key, job_of-update_hit}
use distribu_q.Events.{emit_job_status_changed}
use distribu_q.Jobs.{CancelRecord, cancel_job, cancel_columns, cancelled, can_cancel}
use distribu_q.Api.{withdraw, cancel_job_by_id}
use distribu_q.Config.{default_scheduled_set, low_queue, high_queue, default_queue}
use distribu_q.Schema.{
  Job, pending, status_text, job_of, is_status, update_updated_at_column, has_id, failed,
}
use distribu_q.Redis.Schedule.{elem, elem-without}
use distribu_q.Redis.{remove_all, Redis, zrem, lrem_all, up_to}
use distribu_q.World.{World, Event, ◌>>◌, Action, command_}
use distribu_q.Base.{
  ℕ, String, ◌≡◌, refl, true, false, List, [], ◌∷◌, arith, find_row_holds, ap, ◌∙◌, Option, none,
  some,
}
use distribu_q.Result.{ok}

elem-remove_all : (v : ℕ) (xs : List ℕ) → elem v (remove_all v xs) ≡ false
unfolding remove_all
elem-remove_all v [] = refl
elem-remove_all v (x ∷ xs) = ground (arith, elem-remove_all v xs)

-- Redis once the four removals are done.
abbrev pub withdrawn : ℕ → Redis → Redis
withdrawn id r =
    zrem default_scheduled_set id
      (lrem_all low_queue id (lrem_all high_queue id (lrem_all default_queue id r).0).0).0

status_changed-world :
    (id t s : String) (worker : Option String) (w : World)
    → (es : List Event) × (emit_job_status_changed id t s worker w
        ≡ (ok tt, record w { published = es }))
unfolding emit_job_status_changed
status_changed-world id t s worker w = publish_event-world _ _ w

module _ (uuid_text : ℕ → String) (id : ℕ) (w : World) (j : Job) where
  withdrawn-empty :
      (r : Redis)
      → (elem id ((withdrawn id r).lists high_queue) ≡ false)
        × (elem id ((withdrawn id r).lists default_queue) ≡ false)
        × (elem id ((withdrawn id r).lists low_queue) ≡ false)
        × ((n : ℕ) → elem id (up_to n ((withdrawn id r).zsets default_scheduled_set)) ≡ false)
  unfolding lrem_all zrem
  withdrawn-empty r = (
    elem-remove_all id (r.lists high_queue),
    elem-remove_all id (r.lists default_queue),
    elem-remove_all id (r.lists low_queue),
    λ n. elem-without id n (r.zsets default_scheduled_set),
  )

  pub withdraw-world :
      (c : CancelRecord) (v : World)
      → v.redis_up ≡ true
      → (es : List Event) × (withdraw uuid_text id c v
          ≡ (ok tt, record v { redis = withdrawn id v.redis; published = es }))
  unfolding withdraw
  withdraw-world c v up =
      let v1 : World = record v { redis = (lrem_all default_queue id v.redis).0 } in
      let v2 : World = record v { redis = (lrem_all high_queue id v1.redis).0 } in
      let v3 : World = record v { redis = (lrem_all low_queue id v2.redis).0 } in
      let v4 : World = record v { redis = zrem default_scheduled_set id v3.redis } in
      let (es, e) = status_changed-world (uuid_text id) c.type (status_text c.status) none v4 in
      let last : Action =
        emit_job_status_changed (uuid_text id) c.type (status_text c.status) none in
      let c4 : Action = command_ (λ r. zrem default_scheduled_set id r) in
      let c3 : Action = command_ (λ r. (lrem_all low_queue id r).0) in
      let c2 : Action = command_ (λ r. (lrem_all high_queue id r).0) in
      let c1 : Action = command_ (λ r. (lrem_all default_queue id r).0) in
      (
        es,
        attempt-ok (c1 >> (c2 >> (c3 >> (c4 >> last)))) v (record v4 { published = es })
            (then-ok c1 (c2 >> (c3 >> (c4 >> last))) v v1
                (command_-up (λ r. (lrem_all default_queue id r).0) v up)
              ∙ then-ok c2 (c3 >> (c4 >> last)) v1 v2
                  (command_-up (λ r. (lrem_all high_queue id r).0) v1 up)
              ∙ then-ok c3 (c4 >> last) v2 v3 (command_-up (λ r. (lrem_all low_queue id r).0) v2 up)
              ∙ then-ok c4 last v3 v4 (command_-up (λ r. zrem default_scheduled_set id r) v3 up)
              ∙ e),
      )

  cancel-result :
      HasKeys w.db.jobs
      → job_of id w.db ≡ some j
      → is_status j.status pending ≡ true
      → (cancel_job id w.now w.db).1 ≡ some (cancel_columns (cancelled j))
  unfolding cancel_job
  cancel-result keys found free =
      rw
        (
          found,
          free,
          find_row-key id (λ r. is_status r.status pending) w.db.jobs j keys found,
          cancel_job,
        )
        (rw free refl)

  cancel-row :
      job_of id w.db ≡ some j
      → is_status j.status pending ≡ true
      → job_of id (cancel_job id w.now w.db).0 ≡ some (update_updated_at_column w.now (cancelled j))
  unfolding cancel_job
  cancel-row found free =
      rw (found, free, cancel_job)
        (job_of-update_hit id w.now (can_cancel id) cancelled w.db (λ r. refl) j found
          (rw (find_row_holds (has_id id) w.db.jobs j found, free) refl))

  -- The cancellation of a PENDING job, where no two jobs share an id and Redis answers: the answer is FAILED,
  -- the row is FAILED with the error `Job cancelled by user` and without a lock, its other columns are
  -- as they were, and neither the three queues nor the sorted set hold its key.
  pub cancel_job_by_id-cancels :
      HasKeys w.db.jobs
      → job_of id w.db ≡ some j
      → is_status j.status pending ≡ true
      → w.redis_up ≡ true
      → let w' = (cancel_job_by_id uuid_text id w).1 in
        ((cancel_job_by_id uuid_text id w).0
          ≡ ok (record { id = j.id; status = failed; type = j.type; priority = j.priority }))
        × (job_of id w'.db ≡ some (called_off w.now j))
        × (elem id (w'.redis.lists high_queue) ≡ false)
        × (elem id (w'.redis.lists default_queue) ≡ false)
        × (elem id (w'.redis.lists low_queue) ≡ false)
        × ((n : ℕ) → elem id (up_to n (w'.redis.zsets default_scheduled_set)) ≡ false)
  unfolding cancel_job_by_id
  cancel_job_by_id-cancels keys found free up =
      let v : World = record w { db = (cancel_job id w.now w.db).0 } in
      let (es, d) = withdraw-world (cancel_columns (cancelled j)) v up in
      let e : cancel_job_by_id uuid_text id w ≡ (
        ok (cancel_columns (cancelled j)),
        record v { redis = withdrawn id v.redis; published = es },
      ) =
        rw (cancel-result keys found free, cancel_job_by_id, d) refl in
      let out = withdrawn-empty w.redis in
      (
        ap (λ x. x.0) e,
        ap (λ x. job_of id x.1.db) e ∙ cancel-row found free,
        ap (λ x. elem id (x.1.redis.lists high_queue)) e ∙ out.0,
        ap (λ x. elem id (x.1.redis.lists default_queue)) e ∙ out.1,
        ap (λ x. elem id (x.1.redis.lists low_queue)) e ∙ out.2,
        λ n. ap (λ x. elem id (up_to n (x.1.redis.zsets default_scheduled_set))) e ∙ out.3 n,
      )
