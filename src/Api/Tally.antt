-- ===== src/Api/Tally.antt =====
-- The counts by groups against a count of each status on its own.
use distribu_q.Api.Statuses.{
  not_status, count_in, is_status-eq, by_fields, direct_is, count_in-put_count,
}
use distribu_q.Api.Counts.{
  get_job_counts, fill, group_by_status, StatusRow, JobCounts, add_to, total, direct, zeros,
  put_count, count_of,
}
use distribu_q.Base.{
  select, ℕ, ◌+◌, ◌≡◌, refl, sym, ap, ◌∙◌, inl, inr, Bool, true, false, Option, none, some, List,
  [], ◌∷◌, arith, if◌then◌else◌, Bool-cases, length,
}
use distribu_q.Schema.{
  pending, running, success, failed, retrying, dead_letter, JobStatus, Job, Db, is_status,
}

lookup : JobStatus → List StatusRow → Option ℕ
lookup t [] = none
lookup t ((s, n) ∷ rows) = if is_status s t then some n else lookup t rows

-- No status has two rows.
abbrev IsGrouped : List StatusRow → Type 0
IsGrouped [] = Unit
IsGrouped ((s, n) ∷ rows) = (lookup s rows ≡ none) × IsGrouped rows

count_in-fill :
    (t : JobStatus) (rows : List StatusRow) (c : JobCounts)
    → IsGrouped rows
    → count_in t (fill rows c) ≡ elim (lookup t rows) [ none ↦ count_in t c | some n ↦ n ]
unfolding fill lookup
count_in-fill t [] c g = refl
count_in-fill t ((s, n) ∷ rows) c g = elim (Bool-cases (is_status s t)) [
  | inl e ↦
      let same : s ≡ t = is_status-eq s t e in
      let gone : lookup t rows ≡ none = rw same at g.0 in
      count_in-fill t rows (put_count s n c) g.1
      ∙ rw (gone, e) (count_in-put_count s t n c ∙ rw e refl)
  | inr e ↦
      count_in-fill t rows (put_count s n c) g.1
      ∙ rw e (
          ap (λ m. elim (lookup t rows) [ none ↦ m | some k ↦ k ])
            (count_in-put_count s t n c ∙ rw e refl))
]

abbrev or_zero : Option ℕ → ℕ
or_zero none = 0
or_zero (some n) = n

lookup-hit :
    (s t : JobStatus) (n : ℕ) (rows : List StatusRow)
    → lookup t ((s, n + 1) ∷ rows) ≡ (
        if is_status s t
        then some (or_zero (lookup t ((s, n) ∷ rows)) + 1)
        else lookup t ((s, n) ∷ rows))
unfolding lookup
lookup-hit s t n rows = elim (Bool-cases (is_status s t)) [ inl e ↦ rw e refl | inr e ↦ rw e refl ]

lookup-add_to :
    (s t : JobStatus) (rows : List StatusRow)
    → lookup t (add_to s rows)
      ≡ (if is_status s t then some (or_zero (lookup t rows) + 1) else lookup t rows)
unfolding lookup add_to
lookup-add_to s t [] = ground arith
lookup-add_to s t ((r, n) ∷ rows) = elim (Bool-cases (is_status r s)) [
  | inl e ↦ let same : r ≡ s = is_status-eq r s e in rw (e, same) (lookup-hit s t n rows)
  | inr e ↦ elim (Bool-cases (is_status r t)) [
    | inl f ↦
        let same : r ≡ t = is_status-eq r t f in
        let other : is_status s t ≡ false = not_status t s (rw same at e) in rw (e, f, other) refl
    | inr f ↦ rw (e, f) (lookup-add_to s t rows)
  ]
]

add_to-IsGrouped :
    (s : JobStatus) (rows : List StatusRow) → IsGrouped rows → IsGrouped (add_to s rows)
unfolding lookup add_to
add_to-IsGrouped s [] g = (refl, tt)
add_to-IsGrouped s ((r, n) ∷ rows) g = elim (Bool-cases (is_status r s)) [
  | inl e ↦ rw e g
  | inr e ↦
      let other : is_status s r ≡ false = not_status r s e in
      rw e (lookup-add_to s r rows ∙ rw other g.0, add_to-IsGrouped s rows g.1)
]

group_by_status-IsGrouped : (jobs : List Job) → IsGrouped (group_by_status jobs)
unfolding group_by_status
group_by_status-IsGrouped [] = tt
group_by_status-IsGrouped (j ∷ jobs) =
    add_to-IsGrouped j.status (group_by_status jobs) (group_by_status-IsGrouped jobs)

count_of-cons :
    (t : JobStatus) (j : Job) (jobs : List Job)
    → count_of t (j ∷ jobs)
      ≡ (if is_status j.status t then count_of t jobs + 1 else count_of t jobs)
unfolding select
count_of-cons t j jobs = elim (Bool-cases (is_status j.status t)) [
  | inl e ↦ rw e (omega arith)
  | inr e ↦ rw e refl
]

count_step :
    (t : JobStatus) (j : Job) (jobs : List Job)
    → or_zero (lookup t (group_by_status jobs)) ≡ count_of t jobs
    → or_zero (
        if is_status j.status t
        then some (or_zero (lookup t (group_by_status jobs)) + 1)
        else lookup t (group_by_status jobs))
      ≡ count_of t (j ∷ jobs)
count_step t j jobs e = elim (Bool-cases (is_status j.status t)) [
  | inl f ↦ rw (f, e) (sym (count_of-cons t j jobs ∙ rw f refl))
  | inr f ↦ rw f (e ∙ sym (count_of-cons t j jobs ∙ rw f refl))
]

lookup-group_by_status :
    (t : JobStatus) (jobs : List Job) → or_zero (lookup t (group_by_status jobs)) ≡ count_of t jobs
unfolding group_by_status lookup select
lookup-group_by_status t [] = refl
lookup-group_by_status t (j ∷ jobs) =
    ap or_zero (lookup-add_to j.status t (group_by_status jobs))
    ∙ count_step t j jobs (lookup-group_by_status t jobs)

zero_or :
    (t : JobStatus) (o : Option ℕ) → (elim o [ none ↦ count_in t zeros | some n ↦ n ]) ≡ or_zero o
zero_or pending none = refl
zero_or running none = refl
zero_or success none = refl
zero_or failed none = refl
zero_or retrying none = refl
zero_or dead_letter none = refl
zero_or t (some n) = refl

count_in-get_job_counts :
    (t : JobStatus) (db : Db) → count_in t (get_job_counts db) ≡ count_of t db.jobs
unfolding get_job_counts
count_in-get_job_counts t db =
    count_in-fill t (group_by_status db.jobs) zeros (group_by_status-IsGrouped db.jobs)
    ∙ zero_or t (lookup t (group_by_status db.jobs))
    ∙ lookup-group_by_status t db.jobs

-- The loop over the groups of Postgres ends with the number of jobs of each of the six statuses, zero where a status has
-- no group.
pub get_job_counts-direct : (db : Db) → get_job_counts db ≡ direct db.jobs
get_job_counts-direct db =
    by_fields (get_job_counts db) (direct db.jobs)
      (λ t. count_in-get_job_counts t db ∙ direct_is t db.jobs)

abbrev bit : Bool → ℕ
bit true = 1
bit false = 0

count_of-bit :
    (s : JobStatus) (j : Job) (jobs : List Job)
    → count_of s (j ∷ jobs) ≡ bit (is_status j.status s) + count_of s jobs
count_of-bit s j jobs = elim (Bool-cases (is_status j.status s)) [
  | inl e ↦ count_of-cons s j jobs ∙ rw e (omega arith)
  | inr e ↦ count_of-cons s j jobs ∙ rw e (omega arith)
]

-- A status is one of the six.
one_of_six :
    (s : JobStatus)
    → bit (is_status s pending)
        + bit (is_status s running)
        + bit (is_status s success)
        + bit (is_status s failed)
        + bit (is_status s retrying)
        + bit (is_status s dead_letter)
      ≡ 1
one_of_six pending = refl
one_of_six running = refl
one_of_six success = refl
one_of_six failed = refl
one_of_six retrying = refl
one_of_six dead_letter = refl

total-direct : (jobs : List Job) → total (direct jobs) ≡ length jobs
unfolding select
total-direct [] = refl
total-direct (j ∷ jobs) =
    rw
      (
        count_of-bit pending j jobs,
        count_of-bit running j jobs,
        count_of-bit success j jobs,
        count_of-bit failed j jobs,
        count_of-bit retrying j jobs,
        count_of-bit dead_letter j jobs,
      )
      (omega (arith, one_of_six j.status, total-direct jobs))

-- The counts of the six statuses add up to the number of jobs.
pub total-get_job_counts : (db : Db) → total (get_job_counts db) ≡ length db.jobs
total-get_job_counts db = rw (get_job_counts-direct db) (total-direct db.jobs)
