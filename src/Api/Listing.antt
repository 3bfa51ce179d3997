-- ===== src/Api/Listing.antt =====
-- The queries of api/main.py and the counts of api/db.py.
use distribu_q.Api.Counts.{JobCounts, get_job_counts}
use distribu_q.World.{Exec}
use distribu_q.Workers.{get_active_worker_count, list_all_workers}
use distribu_q.Base.{
  select, order_desc, ℕ, zero, suc, ◌+◌, String, ◌≡◌, Bool, true, ◌&&◌, ◌||◌, Option, none, some,
  List, [], ◌∷◌, ◌++◌, str_eq, leb, if◌then◌else◌, take, drop, refl, sym, ap, ◌∙◌, arith,
}
use distribu_q.Result.{http, err, ok}
use distribu_q.Schema.{JobStatus, WorkerRow, Job, Db, is_status}

-- `if status_filter: status = …`.
abbrev pub of_status : Option JobStatus → Job → Bool
of_status none j = true
of_status (some s) j = is_status j.status s

-- `if job_type: type = …`; an empty text filters nothing.
abbrev pub of_type : Option String → Job → Bool
of_type none j = true
of_type (some t) j = str_eq t "" || str_eq j.type t

abbrev pub is_listed : Option JobStatus → Option String → Job → Bool
is_listed s t j = of_status s j && of_type t j

-- SELECT … WHERE … ORDER BY created_at DESC LIMIT … OFFSET ….
unfoldable pub list_jobs : Option JobStatus → Option String → ℕ → ℕ → Db → List Job
list_jobs s t limit offset db =
    take limit (drop offset (order_desc (λ j. j.created_at) (select (is_listed s t) db.jobs)))

-- `limit: Query(ge=1, le=100)`; an `offset` below 0 is no number here.
unfoldable pub get_jobs : Option JobStatus → Option String → ℕ → ℕ → Exec (List Job)
unfolding list_jobs
get_jobs s t limit offset w =
    if leb 1 limit && leb limit 100
    then (ok (list_jobs s t limit offset w.db), w)
    else (err (http 422), w)

pub record Stats : Type 0 where
  pub job_counts : JobCounts
  pub active_workers : ℕ
  pub workers : List WorkerRow

unfoldable pub get_stats : Db → Stats
unfolding get_job_counts get_active_worker_count list_all_workers
get_stats db = record {
  job_counts = get_job_counts db;
  active_workers = get_active_worker_count db;
  workers = list_all_workers db;
}

take-nil {ℓ} : {A : Type ℓ} (n : ℕ) → take {A = A} n [] ≡ []
take-nil zero = refl
take-nil (suc n) = refl

drop-nil {ℓ} : {A : Type ℓ} (n : ℕ) → drop {A = A} n [] ≡ []
drop-nil zero = refl
drop-nil (suc n) = refl

take-drop {ℓ} :
    {A : Type ℓ} (m n : ℕ) (xs : List A) → take m xs ++ take n (drop m xs) ≡ take (m + n) xs
take-drop zero n xs = ap (λ k. take k xs) (omega arith)
take-drop (suc m) n [] = take-nil n ∙ sym (take-nil (suc m + n))
take-drop (suc m) n (x ∷ xs) =
    let e : suc (m + n) ≡ suc m + n = omega arith in
    ap (λ l. x ∷ l) (take-drop m n xs) ∙ ap (λ k. take k (x ∷ xs)) e

drop-drop {ℓ} : {A : Type ℓ} (k m : ℕ) (xs : List A) → drop (k + m) xs ≡ drop m (drop k xs)
drop-drop zero m xs = ap (λ n. drop n xs) (omega arith)
drop-drop (suc k) m [] = drop-nil (suc k + m) ∙ sym (drop-nil m)
drop-drop (suc k) m (x ∷ xs) =
    let e : suc k + m ≡ suc (k + m) = omega arith in ap (λ n. drop n (x ∷ xs)) e ∙ drop-drop k m xs

-- Two pages in a row are one page of both lengths: while the table stays, no job of a listing is
-- missed or shown twice.
pub list_jobs-pages :
    (s : Option JobStatus) (t : Option String) (m n k : ℕ) (db : Db)
    → list_jobs s t m k db ++ list_jobs s t n (k + m) db ≡ list_jobs s t (m + n) k db
unfolding list_jobs
list_jobs-pages s t m n k db =
    let rows : List Job = order_desc (λ j. j.created_at) (select (is_listed s t) db.jobs) in
    ap (λ l. take m (drop k rows) ++ take n l) (drop-drop k m rows) ∙ take-drop m n (drop k rows)
