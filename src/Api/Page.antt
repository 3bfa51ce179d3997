-- ===== src/Api/Page.antt =====
-- The rows of one page of the listing.
use distribu_q.Schema.{Job, JobStatus, Db}
use distribu_q.Api.Listing.{list_jobs, is_listed}
use distribu_q.Base.{
  select, insert_desc, order_desc, All-insert_desc, All-order_desc, All-condition, ℕ, zero, suc,
  String, ◌≡◌, refl, inl, inr, true, Option, List, [], ◌∷◌, arith, leb, Bool-cases, length, take,
  drop, All,
}

-- The newest row first.
abbrev pub IsNewestFirst : List Job → Type 0
IsNewestFirst [] = Unit
IsNewestFirst (j ∷ js) = All (λ k. leb k.created_at j.created_at ≡ true) js × IsNewestFirst js

abbrev IsOlder : Job → Job → Type 0
IsOlder j k = leb k.created_at j.created_at ≡ true

All-IsOlder :
    (j k : Job) (js : List Job)
    → leb k.created_at j.created_at ≡ true
    → All (IsOlder k) js
    → All (IsOlder j) js
All-IsOlder j k [] h all = tt
All-IsOlder j k (x ∷ js) h all = (ground arith, All-IsOlder j k js h all.1)

IsNewestFirst-insert_desc :
    (j : Job) (js : List Job)
    → IsNewestFirst js
    → IsNewestFirst (insert_desc (λ k. k.created_at) j js)
unfolding insert_desc
IsNewestFirst-insert_desc j [] h = (tt, tt)
IsNewestFirst-insert_desc j (x ∷ js) h = elim (Bool-cases (leb x.created_at j.created_at)) [
  | inl e ↦ rw e ((e, All-IsOlder j x js e h.0), h)
  | inr e ↦ rw e (
    All-insert_desc (IsOlder x) (λ k. k.created_at) j js (ground arith) h.0,
    IsNewestFirst-insert_desc j js h.1,
  )
]

IsNewestFirst-order_desc : (js : List Job) → IsNewestFirst (order_desc (λ k. k.created_at) js)
unfolding order_desc
IsNewestFirst-order_desc [] = tt
IsNewestFirst-order_desc (j ∷ js) =
    IsNewestFirst-insert_desc j (order_desc (λ k. k.created_at) js) (IsNewestFirst-order_desc js)

All-take : (P : Job → Type 0) (n : ℕ) (js : List Job) → All P js → All P (take n js)
All-take P zero js h = tt
All-take P (suc n) [] h = tt
All-take P (suc n) (j ∷ js) h = (h.0, All-take P n js h.1)

All-drop : (P : Job → Type 0) (n : ℕ) (js : List Job) → All P js → All P (drop n js)
All-drop P zero js h = h
All-drop P (suc n) [] h = tt
All-drop P (suc n) (j ∷ js) h = All-drop P n js h.1

IsNewestFirst-take : (n : ℕ) (js : List Job) → IsNewestFirst js → IsNewestFirst (take n js)
IsNewestFirst-take zero js h = tt
IsNewestFirst-take (suc n) [] h = tt
IsNewestFirst-take (suc n) (j ∷ js) h = (All-take (IsOlder j) n js h.0, IsNewestFirst-take n js h.1)

IsNewestFirst-drop : (n : ℕ) (js : List Job) → IsNewestFirst js → IsNewestFirst (drop n js)
IsNewestFirst-drop zero js h = h
IsNewestFirst-drop (suc n) [] h = tt
IsNewestFirst-drop (suc n) (j ∷ js) h = IsNewestFirst-drop n js h.1

length-take : (n : ℕ) (js : List Job) → leb (length (take n js)) n ≡ true
length-take zero js = refl
length-take (suc n) [] = ground arith
length-take (suc n) (j ∷ js) = ground (arith, length-take n js)

-- A page has at most as many rows as its limit, each of them meets both filters, and the newest
-- comes first.
pub list_jobs-page :
    (s : Option JobStatus) (t : Option String) (limit offset : ℕ) (db : Db)
    → (leb (length (list_jobs s t limit offset db)) limit ≡ true)
      × All (λ j. is_listed s t j ≡ true) (list_jobs s t limit offset db)
      × IsNewestFirst (list_jobs s t limit offset db)
unfolding list_jobs
list_jobs-page s t limit offset db =
    let listed : List Job = select (is_listed s t) db.jobs in
    let rows : List Job = order_desc (λ j. j.created_at) listed in
    let P : Job → Type 0 = λ j. is_listed s t j ≡ true in
    (
      length-take limit (drop offset rows),
      All-take P limit (drop offset rows) (
          All-drop P offset rows
            (All-order_desc P (λ j. j.created_at) listed (All-condition (is_listed s t) db.jobs))),
      IsNewestFirst-take limit (drop offset rows)
          (IsNewestFirst-drop offset rows (IsNewestFirst-order_desc listed)),
    )
