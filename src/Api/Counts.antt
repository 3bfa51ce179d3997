-- ===== src/Api/Counts.antt =====
-- The counts of api/db.py: the groups that Postgres returns, folded into the zeros of `base`.
use distribu_q.Base.{select, ℕ, ◌+◌, List, [], ◌∷◌, if◌then◌else◌, length}
use distribu_q.Schema.{
  pending, running, success, failed, retrying, dead_letter, Job, Db, JobStatus, is_status,
}

pub record JobCounts : Type 0 where
  pub pending_count : ℕ
  pub running_count : ℕ
  pub success_count : ℕ
  pub failed_count : ℕ
  pub retrying_count : ℕ
  pub dead_letter_count : ℕ

-- A row of the answer: a status and its count.
abbrev pub StatusRow : Type 0
StatusRow = JobStatus × ℕ

unfoldable pub add_to : JobStatus → List StatusRow → List StatusRow
add_to s [] = (s, 1) ∷ []
add_to s ((t, n) ∷ rows) = if is_status t s then (t, n + 1) ∷ rows else (t, n) ∷ add_to s rows

-- SELECT status, COUNT(*) … GROUP BY status. A status without a job has no row.
unfoldable pub group_by_status : List Job → List StatusRow
unfolding add_to
group_by_status [] = []
group_by_status (j ∷ jobs) = add_to j.status (group_by_status jobs)

-- `base[status] = n`.
abbrev pub put_count : JobStatus → ℕ → JobCounts → JobCounts
put_count pending n c = record c { pending_count = n }
put_count running n c = record c { running_count = n }
put_count success n c = record c { success_count = n }
put_count failed n c = record c { failed_count = n }
put_count retrying n c = record c { retrying_count = n }
put_count dead_letter n c = record c { dead_letter_count = n }

unfoldable pub fill : List StatusRow → JobCounts → JobCounts
fill [] base = base
fill ((s, n) ∷ rows) base = fill rows (put_count s n base)

abbrev pub zeros : JobCounts
zeros = record {
  pending_count = 0;
  running_count = 0;
  success_count = 0;
  failed_count = 0;
  retrying_count = 0;
  dead_letter_count = 0;
}

unfoldable pub get_job_counts : Db → JobCounts
unfolding group_by_status fill
get_job_counts db = fill (group_by_status db.jobs) zeros

-- The reference: each status counted on its own.
abbrev pub count_of : JobStatus → List Job → ℕ
count_of s jobs = length (select (λ j. is_status j.status s) jobs)

abbrev pub direct : List Job → JobCounts
direct jobs = record {
  pending_count = count_of pending jobs;
  running_count = count_of running jobs;
  success_count = count_of success jobs;
  failed_count = count_of failed jobs;
  retrying_count = count_of retrying jobs;
  dead_letter_count = count_of dead_letter jobs;
}

abbrev pub total : JobCounts → ℕ
total c =
    c.pending_count + c.running_count + c.success_count + c.failed_count + c.retrying_count
    + c.dead_letter_count
