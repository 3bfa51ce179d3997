-- ===== src/Api/Replay.antt =====
-- What a replay of a dead letter leaves in Postgres and in Redis.
use distribu_q.Written.{renewed}
use distribu_q.World.Loops.{command_-up}
use distribu_q.Redis.Client.{enqueue_job}
use distribu_q.Redis.Tiers.{tiers, put_job, tiers-enqueue_job}
use distribu_q.Jobs.Lookup.{job_of-update_hit}
use distribu_q.DeadLetters.{replay_dead_letter, matches, reset, has_dl_id}
use distribu_q.Api.{replay_dead_letter_job}
use distribu_q.World.{World}
use distribu_q.Base.Int.{pos}
use distribu_q.Base.{select, find_row, find_row_holds, ℕ, ◌≡◌, refl, ap, ◌∙◌, true, not, none, some}
use distribu_q.Result.{ok}
use distribu_q.Schema.{pending, DeadLetter, Job, Db, update_jobs, has_id, job_of}

module _ (identifier : ℕ) (w : World) (d : DeadLetter) (j : Job) where
  abbrev pub replayed_db : Db
  replayed_db = record (update_jobs w.now (has_id d.job_id) reset w.db) {
    dead_letters = select (λ x. not (has_dl_id d.id x)) w.db.dead_letters;
  }

  pub replay-result :
      find_row (matches identifier) w.db.dead_letters ≡ some d
      → replay_dead_letter identifier w.now w.db
        ≡ (replayed_db, some (record { dead_letter_id = d.id; job_id = d.job_id }))
  unfolding replay_dead_letter
  replay-result there = rw (there, replay_dead_letter) refl

  -- A replay by the key of a dead letter or of its job, while Redis answers and the job
  -- has a row: the job's row is
  -- PENDING with no attempts, no error, no result, no retry time and no lock, and its submission is
  -- the one it had; that dead letter is gone and the others stay; the job goes to the end of the
  -- default queue, whatever its priority.
  pub replay_dead_letter_job_lem :
      find_row (matches identifier) w.db.dead_letters ≡ some d
      → job_of d.job_id w.db ≡ some j
      → w.redis_up ≡ true
      → let w' = (replay_dead_letter_job identifier w).1 in
        ((replay_dead_letter_job identifier w).0
          ≡ ok (record { job_id = d.job_id; dead_letter_id = d.id; status = pending }))
        × (job_of d.job_id w'.db ≡ some (renewed w.now j))
        × (w'.db.dead_letters ≡ select (λ x. not (has_dl_id d.id x)) w.db.dead_letters)
        × (tiers w'.redis ≡ put_job d.job_id (pos 0) (tiers w.redis))
  unfolding replay_dead_letter_job
  replay_dead_letter_job_lem there found up =
      let e : replay_dead_letter_job identifier w ≡ (
        ok (record { job_id = d.job_id; dead_letter_id = d.id; status = pending }),
        record w { db = replayed_db; redis = (enqueue_job d.job_id (pos 0) none w.redis).0 },
      ) =
        rw (replay-result there, replay_dead_letter_job)
          (rw
            (command_-up (λ r. (enqueue_job d.job_id (pos 0) none r).0)
              (record w { db = replayed_db }) up)
            refl) in
      (
        ap (λ x. x.0) e,
        ap (λ x. job_of d.job_id x.1.db) e
            ∙ job_of-update_hit d.job_id w.now (has_id d.job_id) reset w.db (λ r. refl) j found
                (find_row_holds (has_id d.job_id) w.db.jobs j found),
        ap (λ x. x.1.db.dead_letters) e,
        ap (λ x. tiers x.1.redis) e ∙ tiers-enqueue_job d.job_id (pos 0) w.redis,
      )
