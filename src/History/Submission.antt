-- ===== src/History/Submission.antt =====
-- The jobs of a history, and what their clients submitted.
use distribu_q.Jobs.{job_row}
use mathlib.Core.List.{append-nil, append_assoc, map-append}
use distribu_q.Base.Int.{ℤ}
use distribu_q.Schema.{Job, Db}
use distribu_q.History.{run, Tx, commit}
use distribu_q.Json.{Json}
use distribu_q.History.Steps.{
  finish, break_off, give_up, replay, done, stay, move, steps, Step, Rows, Evolves, commit-Evolves,
  claim, postpone, reclaim, wake, cancel, grows,
}
use distribu_q.Base.{ℕ, String, ◌≡◌, refl, sym, ap, ◌∙◌, Option, List, [], ◌∷◌, ◌++◌, map}

-- The columns that the client of a job chose, and its key and time of creation.
pub record Submission : Type 0 where
  pub id : ℕ
  pub type : String
  pub payload : Json
  pub priority : ℤ
  pub max_attempts : ℕ
  pub scheduled_for : Option ℕ
  pub recurrence_rule : Option String
  pub created_at : ℕ

abbrev pub submission : Job → Submission
submission j = record {
  id = j.id;
  type = j.type;
  payload = j.payload;
  priority = j.priority;
  max_attempts = j.max_attempts;
  scheduled_for = j.scheduled_for;
  recurrence_rule = j.recurrence_rule;
  created_at = j.created_at;
}

pub submission-Step : {j k : Job} → Step j k → submission k ≡ submission j
submission-Step (claim j w now h) = refl
submission-Step (finish j r now) = refl
submission-Step (break_off j m now) = refl
submission-Step (postpone j m t now) = refl
submission-Step (give_up j m now) = refl
submission-Step (reclaim j now h) = refl
submission-Step (wake j now h) = refl
submission-Step (cancel j now h) = refl
submission-Step (replay j now) = refl

-- The submissions of a table, in the order of insertion.
abbrev pub submissions : List Job → List Submission
submissions = map submission

submissions-Rows : {js ks : List Job} → Rows js ks → submissions ks ≡ submissions js
submissions-Rows done = refl
submissions-Rows (stay j r) = ap (λ xs. submission j ∷ xs) (submissions-Rows r)
submissions-Rows (move s r) = cc (submission-Step s, submissions-Rows r)

submissions-Evolves :
    {js ks : List Job}
    → Evolves js ks
    → (new : List Submission) × (submissions ks ≡ submissions js ++ new)
submissions-Evolves {js} (steps r) = ([], submissions-Rows r ∙ sym (append-nil (submissions js)))
submissions-Evolves {js} (grows id now n fresh e) =
    (submission (job_row id now n) ∷ [], rw e (map-append submission js (job_row id now n ∷ [])))

-- After any sequence of transactions the submissions are those from before, in the same order,
-- followed by those of the jobs that the sequence created: no job is lost, and none has its key,
-- type, payload, priority, attempt limit, schedule or recurrence rule changed.
pub submissions-run :
    (ts : List (ℕ × Tx)) (db : Db)
    → (new : List Submission) × (submissions (run ts db).jobs ≡ submissions db.jobs ++ new)
unfolding run
submissions-run [] db = ([], sym (append-nil (submissions db.jobs)))
submissions-run (t ∷ ts) db =
    let (n, p) = submissions-Evolves (commit-Evolves t db) in
    let (m, q) = submissions-run ts (commit t db) in
    (n ++ m, q ∙ ap (λ xs. xs ++ m) p ∙ append_assoc (submissions db.jobs) n m)
