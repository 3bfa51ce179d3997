-- ===== src/DeadLetters.antt =====
-- The dead-letter table: worker/db.py (archive, lookup) and api/db.py (listing, replay).
use distribu_q.Base.{
  ℕ, Bool, ◌||◌, not, String, Option, none, some, List, [], ◌∷◌, ◌++◌, map, ◌==◌, select, find_row,
  order_desc, take, drop,
}
use distribu_q.Json.{Json}
use distribu_q.Result.{Result, ok, err, unique_violation, foreign_key_violation}
use distribu_q.Schema.{Job, DeadLetter, Db, pending, dead_letter, update_jobs, has_id, job_of}

abbrev pub has_dl_id : ℕ → DeadLetter → Bool
has_dl_id id d = d.id == id

abbrev pub is_of_job : ℕ → DeadLetter → Bool
is_of_job id d = d.job_id == id

abbrev pub archive : String → Job → Job
archive final_error j = record j {
  status = dead_letter;
  error = some final_error;
  locked_by = none;
  locked_at = none;
}

-- Both statements commit together, so an INSERT that the foreign key or the primary key refuses
-- undoes the UPDATE. `dl_id` is what gen_random_uuid() gave.
unfoldable pub move_to_dead_letter : ℕ → ℕ → String → ℕ → ℕ → Db → Result Db
move_to_dead_letter dl_id id final_error attempts_made now db = elim (job_of id db) [
  | none ↦ err foreign_key_violation
  | some _ ↦ elim (find_row (has_dl_id dl_id) db.dead_letters) [
    | some _ ↦ err unique_violation
    | none ↦ ok (record (update_jobs now (has_id id) (archive final_error) db) {
      dead_letters =
          db.dead_letters
          ++ record {
            id = dl_id;
            job_id = id;
            final_error = final_error;
            attempts_made = attempts_made;
            moved_at = now;
          }
            ∷ [];
    })
  ]
]

unfoldable pub get_dead_letter : ℕ → Db → Option DeadLetter
get_dead_letter id db = find_row (is_of_job id) db.dead_letters

-- A row of the listing, with the job's columns that the LEFT JOIN adds.
pub record DeadLetterListing : Type 0 where
  pub dead_letter : DeadLetter
  pub job_type : Option String
  pub payload : Option Json

abbrev pub join_job : Db → DeadLetter → DeadLetterListing
join_job db d = elim (job_of d.job_id db) [
  | none ↦ record { dead_letter = d; job_type = none; payload = none }
  | some j ↦ record { dead_letter = d; job_type = some j.type; payload = some j.payload }
]

-- ORDER BY moved_at DESC LIMIT … OFFSET ….
unfoldable pub get_dead_letters : ℕ → ℕ → Db → List DeadLetterListing
get_dead_letters limit offset db =
    map (join_job db) (take limit (drop offset (order_desc (λ d. d.moved_at) db.dead_letters)))

-- WHERE dl.id = … OR dl.job_id = ….
abbrev pub matches : ℕ → DeadLetter → Bool
matches identifier d = has_dl_id identifier d || is_of_job identifier d

abbrev pub reset : Job → Job
reset j = record j {
  status = pending;
  attempts = 0;
  error = none;
  result = none;
  next_retry_at = none;
  locked_by = none;
  locked_at = none;
}

pub record Replayed : Type 0 where
  pub dead_letter_id : ℕ
  pub job_id : ℕ

unfoldable pub replay_dead_letter : ℕ → ℕ → Db → Db × Option Replayed
replay_dead_letter identifier now db = elim (find_row (matches identifier) db.dead_letters) [
  | none ↦ (db, none)
  | some d ↦ (
    record (update_jobs now (has_id d.job_id) reset db) {
      dead_letters = select (λ x. not (has_dl_id d.id x)) db.dead_letters;
    },
    some (record { dead_letter_id = d.id; job_id = d.job_id }),
  )
]
