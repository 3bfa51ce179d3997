-- ===== src/History/Validity.antt =====
-- The consistency of the rows of jobs: locks, retry times and errors by status.

use distribu_q.History.{run, Tx, commit}
use distribu_q.Jobs.{NewJob, job_row}
use distribu_q.History.Steps.{
  finish, break_off, give_up, replay, done, stay, move, steps, Step, Rows, Evolves, commit-Evolves,
  claim, postpone, reclaim, wake, cancel, grows,
}
use distribu_q.Base.{
  ℕ, ◌≡◌, Bool, true, false, ◌||◌, Option, none, some, List, [], ◌∷◌, ◌++◌, arith, All,
}
use distribu_q.Schema.{
  running, success, failed, retrying, Db, Job, JobStatus, is_status, dead_letter,
}

abbrev pub is_some {ℓ} : {A : Type ℓ} → Option A → Bool
is_some none = false
is_some (some a) = true

-- A status that follows a raised exception or a cancellation.
abbrev pub is_faulty : JobStatus → Bool
is_faulty s = is_status s failed || is_status s retrying || is_status s dead_letter

pub record IsValid (j : Job) : Type 0 where
  pub owner : is_some j.locked_by ≡ is_status j.status running
  pub since : is_some j.locked_at ≡ is_status j.status running
  pub retry_time : is_status j.status retrying ≡ true → is_some j.next_retry_at ≡ true
  pub faulty : is_faulty j.status ≡ true → is_some j.error ≡ true
  pub clean : is_status j.status success ≡ true → is_some j.error ≡ false

abbrev pub IsValidDb : Db → Type 0
IsValidDb db = All IsValid db.jobs

job_row-IsValid : (id now : ℕ) (n : NewJob) → IsValid (job_row id now n)
job_row-IsValid id now n = ground arith

Step-IsValid : {j k : Job} → Step j k → IsValid j → IsValid k
Step-IsValid (claim j w now h) v = ground arith
Step-IsValid (finish j r now) v = ground arith
Step-IsValid (break_off j m now) v = ground arith
Step-IsValid (postpone j m t now) v = ground arith
Step-IsValid (give_up j m now) v = ground arith
Step-IsValid (reclaim j now h) v = ground arith
Step-IsValid (wake j now h) v = ground arith
Step-IsValid (cancel j now h) v = ground arith
Step-IsValid (replay j now) v = ground arith

Rows-IsValid : {js ks : List Job} → Rows js ks → All IsValid js → All IsValid ks
Rows-IsValid done v = v
Rows-IsValid (stay j r) v = (v.0, Rows-IsValid r v.1)
Rows-IsValid (move s r) v = (Step-IsValid s v.0, Rows-IsValid r v.1)

All-snoc {ℓ κ} :
    {A : Type ℓ} (P : A → Type κ) (xs : List A) (x : A) → All P xs → P x → All P (xs ++ x ∷ [])
All-snoc P [] x v h = (h, tt)
All-snoc P (y ∷ xs) x v h = (v.0, All-snoc P xs x v.1 h)

Evolves-IsValid : {js ks : List Job} → Evolves js ks → All IsValid js → All IsValid ks
Evolves-IsValid (steps r) v = Rows-IsValid r v
Evolves-IsValid {js} (grows id now n fresh e) v =
    rw e (All-snoc IsValid js (job_row id now n) v (job_row-IsValid id now n))

-- From valid rows, after any sequence of transactions: a job has a lock owner and a lock time
-- exactly while it is RUNNING, a RETRYING job has a retry time, a FAILED, RETRYING or DEAD_LETTER
-- job has an error, and a SUCCESS job has none.
pub run-IsValid : (ts : List (ℕ × Tx)) (db : Db) → IsValidDb db → IsValidDb (run ts db)
unfolding run
run-IsValid [] db v = v
run-IsValid (t ∷ ts) db v = run-IsValid ts (commit t db) (Evolves-IsValid (commit-Evolves t db) v)
