-- ===== src/Jobs/Lookup.antt =====
-- A lookup by primary key after an UPDATE or an INSERT of jobs.
use distribu_q.Jobs.{create_job, NewJob, job_row, is_smallint}
use distribu_q.Result.{ok, err}
use distribu_q.Schema.{Job, Db, has_id, job_of, update_jobs, update_updated_at_column}
use distribu_q.Base.{
  find_row, find_row-update_where, find_row_holds, ℕ, ◌≡◌, refl, ◌∙◌, Bool, true, false, ◌&&◌, none,
  some, List, [], ◌∷◌, ◌++◌, arith, if◌then◌else◌, ==_iff, inl, inr, ◌==◌, Bool-cases, update_where,
  ap, Option-cases, sym,
}

abbrev pub KeepsId : ℕ → (Job → Job) → Type 0
KeepsId id f = (r : Job) → has_id id (f r) ≡ has_id id r

module _ (id now : ℕ) (p : Job → Bool) (f : Job → Job) (db : Db) (keep : KeepsId id f) (j : Job)
    (found : job_of id db ≡ some j) where
  pub job_of-update_hit :
      p j ≡ true → job_of id (update_jobs now p f db) ≡ some (update_updated_at_column now (f j))
  job_of-update_hit hit =
      find_row-update_where (has_id id) p (λ r. update_updated_at_column now (f r)) db.jobs keep
      ∙ ground arith

  pub job_of-update_miss : p j ≡ false → job_of id (update_jobs now p f db) ≡ some j
  job_of-update_miss miss =
      find_row-update_where (has_id id) p (λ r. update_updated_at_column now (f r)) db.jobs keep
      ∙ ground arith

pub find_row-append {ℓ} :
    {R : Type ℓ} (q : R → Bool) (xs ys : List R) (r : R)
    → find_row q xs ≡ some r
    → find_row q (xs ++ ys) ≡ some r
unfolding find_row
find_row-append q [] ys r e = cc
find_row-append q (x ∷ xs) ys r e = ground (arith, find_row-append q xs ys r)

pub find_row-append_none {ℓ} :
    {R : Type ℓ} (q : R → Bool) (xs ys : List R)
    → find_row q xs ≡ none
    → find_row q (xs ++ ys) ≡ find_row q ys
unfolding find_row
find_row-append_none q [] ys e = refl
find_row-append_none q (x ∷ xs) ys e = ground (arith, find_row-append_none q xs ys)

-- What a lookup finds has the key that was looked up.
pub id-job_of : (id : ℕ) (db : Db) (j : Job) → job_of id db ≡ some j → j.id ≡ id
id-job_of id db j e = (==_iff j.id id).0 (find_row_holds (has_id id) db.jobs j e)

-- The primary key: no two rows of jobs have one id.
abbrev pub HasKeys : List Job → Type 0
HasKeys [] = Unit
HasKeys (j ∷ js) = (find_row (has_id j.id) js ≡ none) × HasKeys js

pub find_row-none_and :
    (id : ℕ) (q : Job → Bool) (js : List Job)
    → find_row (has_id id) js ≡ none
    → find_row (λ r. has_id id r && q r) js ≡ none
unfolding find_row
find_row-none_and id q [] e = refl
find_row-none_and id q (r ∷ js) e = ground (arith, find_row-none_and id q js)

-- With a primary key, a search for a row of one id that meets one more condition tests one row.
pub find_row-key :
    (id : ℕ) (q : Job → Bool) (js : List Job) (j : Job)
    → HasKeys js
    → find_row (has_id id) js ≡ some j
    → find_row (λ r. has_id id r && q r) js ≡ (if q j then some j else none)
unfolding find_row
find_row-key id q [] j k e = cc
find_row-key id q (r ∷ js) j k e = elim (Bool-cases (r.id == id)) [
  | inr miss ↦ ground (arith, find_row-key id q js j k.1)
  | inl hit ↦
      let same : r.id ≡ id = (==_iff r.id id).0 hit in
      let rest : find_row (has_id id) js ≡ none = rw same at k.0 in
      ground (arith, find_row-none_and id q js rest)
]

-- An insertion leaves the rows that are there.
pub job_of-create_job :
    (id i now : ℕ) (n : NewJob) (db db' : Db) (k j : Job)
    → create_job i n now db ≡ ok (db', k)
    → job_of id db ≡ some j
    → job_of id db' ≡ some j
unfolding create_job
job_of-create_job id i now n db db' k j e found =
    ground (arith, find_row-append (has_id id) db.jobs (job_row i now n ∷ []) j found)

-- An UPDATE that leaves the ids keeps the primary key.
pub HasKeys-update_where :
    (p : Job → Bool) (f : Job → Job) (js : List Job)
    → ((r : Job) → (f r).id ≡ r.id)
    → HasKeys js
    → HasKeys (update_where p f js)
unfolding update_where
HasKeys-update_where p f [] keep h = tt
HasKeys-update_where p f (j ∷ js) keep h =
    let same : (if p j then f j else j).id ≡ j.id = ground (arith, keep j) in
    (
      rw same (
          find_row-update_where (has_id j.id) p f js (λ r. ap (λ i. i == j.id) (keep r))
          ∙ rw h.0 refl),
      HasKeys-update_where p f js keep h.1,
    )

-- What an INSERT that is accepted has found and leaves.
pub create_job-ok :
    (i now : ℕ) (n : NewJob) (db db' : Db) (k : Job)
    → create_job i n now db ≡ ok (db', k)
    → (job_of i db ≡ none)
      × (db' ≡ record db { jobs = db.jobs ++ job_row i now n ∷ [] })
      × (k ≡ job_row i now n)
unfolding create_job
create_job-ok i now n db db' k e = elim (Bool-cases (is_smallint n.priority)) [
  | inr misfit ↦ absurd (ground arith)
  | inl fits ↦ elim (Option-cases (job_of i db)) [
    | inl new ↦
        let made = rw (fits, new) at e in
        (
          new,
          sym (ap (λ r. elim r [ err x ↦ db | ok y ↦ y.0 ]) made),
          sym (ap (λ r. elim r [ err x ↦ k | ok y ↦ y.1 ]) made),
        )
    | inr (j, taken) ↦ absurd (ground arith)
  ]
]
