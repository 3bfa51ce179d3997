-- ===== src/History/Filing.antt =====
-- The archive through a history: what each transaction does to jobs in DEAD_LETTER and their letters.
use distribu_q.History.Archive.{
  IsArchived, All-rows, LetterKeys-select, IsFiled, All-append, LetterKeys-snoc, has_key-none,
  has_letter-delete, has_letter-append,
}
use distribu_q.DeadLetters.{
  replay_dead_letter, move_to_dead_letter, matches, has_dl_id, reset, archive,
}
use distribu_q.Workers.{
  upsert_worker_heartbeat, is_worker, mark_worker_dead, mark_expired_workers_dead,
}
use distribu_q.Jobs.{
  cancel_job, create_job, NewJob, fetch_and_lock_job, mark_job_success, can_cancel, mark_job_failed,
  is_smallint, cancelled, mark_job_retrying, job_row, reclaim_stale_jobs, reclaim_due_retry_jobs,
  can_lock, lock, succeed, fail, postpone_to, is_stale, release, is_due_retry,
}
use distribu_q.Base.{
  select, find_row, ℕ, String, ◌≡◌, refl, inl, inr, Bool, false, not, List, [], ◌∷◌, ◌++◌, arith,
  Bool-cases, Option-cases,
}
use distribu_q.Schema.{
  pending, dead_letter, Job, Db, is_status, job_of, update_jobs, DeadLetter,
  update_updated_at_column, has_id,
}
use distribu_q.History.{
  creates, locks, succeeds, fails, retries, archives, reclaims_stale, reclaims_due, cancels,
  replays, beats, stops, expires, run, commit, Tx, after, after_insert,
}

-- An update that writes a status other than DEAD_LETTER.
update-IsArchived :
    (now : ℕ) (p : Job → Bool) (f : Job → Job) (db : Db)
    → ((j : Job) → is_status (f j).status dead_letter ≡ false)
    → IsArchived db
    → IsArchived (update_jobs now p f db)
update-IsArchived now p f db g (keys, all) = (
  keys,
  All-rows (IsFiled db.dead_letters) (IsFiled db.dead_letters) p
      (λ j. update_updated_at_column now (f j)) db.jobs (λ j e h. rw (g j) refl) (λ j e h. h) all,
)

create-IsArchived :
    (now id : ℕ) (n : NewJob) (db : Db)
    → IsArchived db
    → IsArchived (after_insert db (create_job id n now db))
unfolding create_job
create-IsArchived now id n db (keys, all) = elim (Bool-cases (is_smallint n.priority)) [
  | inr e ↦ rw (e, create_job) (keys, all)
  | inl e ↦ elim (Option-cases (job_of id db)) [
    | inr (j, f) ↦ rw (e, f, create_job) (keys, all)
    | inl f ↦
        rw (e, f, create_job)
          (keys, All-append (IsFiled db.dead_letters) db.jobs (job_row id now n) all refl)
  ]
]

cancel-IsArchived : (now id : ℕ) (db : Db) → IsArchived db → IsArchived (cancel_job id now db).0
unfolding cancel_job
cancel-IsArchived now id db h = elim (Option-cases (job_of id db)) [
  | inl e ↦ rw (e, cancel_job) h
  | inr (j, e) ↦ elim (Bool-cases (is_status j.status pending)) [
    | inl f ↦
        rw (e, f, cancel_job) (update-IsArchived now (can_cancel id) cancelled db (λ j. refl) h)
    | inr f ↦ rw (e, f, cancel_job) h
  ]
]

upsert-IsArchived :
    (w : String) (n now : ℕ) (db : Db)
    → IsArchived db
    → IsArchived (upsert_worker_heartbeat w n now db)
unfolding upsert_worker_heartbeat
upsert-IsArchived w n now db h = elim (Option-cases (find_row (is_worker w) db.workers)) [
  | inl e ↦ rw (e, upsert_worker_heartbeat) h
  | inr (r, e) ↦ rw (e, upsert_worker_heartbeat) h
]

module _ (now : ℕ) (db : Db) where
  archive-IsArchived :
      (dl id : ℕ) (m : String) (n : ℕ)
      → IsArchived db
      → IsArchived (after db (move_to_dead_letter dl id m n now db))
  unfolding move_to_dead_letter
  archive-IsArchived dl id m n (keys, all) =
      let d : DeadLetter = record {
        id = dl;
        job_id = id;
        final_error = m;
        attempts_made = n;
        moved_at = now;
      } in
      elim (Option-cases (job_of id db)) [
        | inl e ↦ rw (e, move_to_dead_letter) (keys, all)
        | inr (j, e) ↦ elim (Option-cases (find_row (has_dl_id dl) db.dead_letters)) [
          | inr (x, f) ↦ rw (e, f, move_to_dead_letter) (keys, all)
          | inl f ↦
              rw (e, f, move_to_dead_letter)
                (
                  LetterKeys-snoc db.dead_letters d keys (has_key-none dl db.dead_letters f),
                  All-rows (IsFiled db.dead_letters) (IsFiled (db.dead_letters ++ d ∷ []))
                      (has_id id) (λ r. update_updated_at_column now (archive m r)) db.jobs
                      (λ r g h.
                        rw (has_letter-append r.id db.dead_letters (d ∷ [])) (ground (arith)))
                      (λ r g h.
                        rw (has_letter-append r.id db.dead_letters (d ∷ [])) (ground (arith)))
                      all,
                )
        ]
      ]

  replay-IsArchived : (ident : ℕ) → IsArchived db → IsArchived (replay_dead_letter ident now db).0
  unfolding replay_dead_letter
  replay-IsArchived ident (keys, all) =
      elim (Option-cases (find_row (matches ident) db.dead_letters)) [
        | inl e ↦ rw (e, replay_dead_letter) (keys, all)
        | inr (d, e) ↦
            rw (e, replay_dead_letter)
              (
                LetterKeys-select (λ x. not (has_dl_id d.id x)) db.dead_letters keys,
                All-rows (IsFiled db.dead_letters)
                    (IsFiled (select (λ x. not (has_dl_id d.id x)) db.dead_letters))
                    (has_id d.job_id) (λ r. update_updated_at_column now (reset r)) db.jobs
                    (λ r g h. refl)
                    (λ r g h.
                      rw
                        (has_letter-delete r.id (matches ident) db.dead_letters d keys e
                          (ground arith))
                        h)
                    all,
              )
      ]

commit-IsArchived : (t : ℕ × Tx) (db : Db) → IsArchived db → IsArchived (commit t db)
unfolding commit fetch_and_lock_job mark_job_success mark_job_failed mark_job_retrying
    reclaim_stale_jobs reclaim_due_retry_jobs mark_worker_dead mark_expired_workers_dead
commit-IsArchived (now, creates id n) db h = create-IsArchived now id n db h
commit-IsArchived (now, locks id w) db h =
    update-IsArchived now (can_lock id) (lock w now) db (λ j. refl) h
commit-IsArchived (now, succeeds id v) db h =
    update-IsArchived now (has_id id) (succeed v) db (λ j. refl) h
commit-IsArchived (now, fails id m) db h =
    update-IsArchived now (has_id id) (fail m) db (λ j. refl) h
commit-IsArchived (now, retries id m t) db h =
    update-IsArchived now (has_id id) (postpone_to m t) db (λ j. refl) h
commit-IsArchived (now, archives dl id m n) db h = archive-IsArchived now db dl id m n h
commit-IsArchived (now, reclaims_stale t) db h =
    update-IsArchived now (is_stale t now db.workers) (release pending) db (λ j. refl) h
commit-IsArchived (now, reclaims_due) db h =
    update-IsArchived now (is_due_retry now) (release pending) db (λ j. refl) h
commit-IsArchived (now, cancels id) db h = cancel-IsArchived now id db h
commit-IsArchived (now, replays id) db h = replay-IsArchived now db id h
commit-IsArchived (now, beats w n) db h = upsert-IsArchived w n now db h
commit-IsArchived (now, stops w) db h = h
commit-IsArchived (now, expires t) db h = h

-- Every history that starts so keeps this: the keys of the dead letters differ, and each job in DEAD_LETTER has a
-- dead letter, so that it can be replayed.
pub run-IsArchived : (ts : List (ℕ × Tx)) (db : Db) → IsArchived db → IsArchived (run ts db)
unfolding run
run-IsArchived [] db h = h
run-IsArchived (t ∷ ts) db h = run-IsArchived ts (commit t db) (commit-IsArchived t db h)
