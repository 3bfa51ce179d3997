-- ===== src/History/Independence.antt =====
-- What workers commit for different jobs does not depend on the order in which it is committed.
-- The transactions of a worker that touch the row of the job `id` and no other.
use distribu_q.Jobs.{
  fetch_and_lock_job, can_lock, mark_job_success, lock, mark_job_failed, mark_job_retrying, succeed,
  fail, postpone_to,
}
use distribu_q.Schema.{Db, Job, update_updated_at_column, has_id}
use distribu_q.Base.{
  update_where, ℕ, ◌≡◌, refl, ap, ◌∙◌, inl, inr, Bool, true, false, List, [], ◌∷◌, arith, ◌==◌,
  Bool-cases, All,
}
use distribu_q.History.{
  creates, locks, succeeds, fails, retries, archives, reclaims_stale, reclaims_due, cancels,
  replays, beats, stops, expires, commit, Tx, run,
}

abbrev pub is_own : ℕ → Tx → Bool
is_own id (locks i w) = i == id
is_own id (succeeds i v) = i == id
is_own id (fails i m) = i == id
is_own id (retries i m at) = i == id
is_own id _ = false

-- The condition and the effect of their UPDATE.
abbrev condition : ℕ × Tx → Job → Bool
condition (now, locks i w) = can_lock i
condition (now, succeeds i v) = has_id i
condition (now, fails i m) = has_id i
condition (now, retries i m at) = has_id i
condition (now, _) = λ j. false

abbrev effect : ℕ × Tx → Job → Job
effect (now, locks i w) j = update_updated_at_column now (lock w now j)
effect (now, succeeds i v) j = update_updated_at_column now (succeed v j)
effect (now, fails i m) j = update_updated_at_column now (fail m j)
effect (now, retries i m at) j = update_updated_at_column now (postpone_to m at j)
effect (now, _) j = j

-- The interleavings of two sequences.
pub data Merge : List (ℕ × Tx) → List (ℕ × Tx) → List (ℕ × Tx) → Type 0 where
  neither : Merge [] [] []
  left : (t : ℕ × Tx) → {ts us ws : List (ℕ × Tx)} → Merge ts us ws → Merge (t ∷ ts) us (t ∷ ws)
  right : (u : ℕ × Tx) → {us ts ws : List (ℕ × Tx)} → Merge ts us ws → Merge ts (u ∷ us) (u ∷ ws)

-- Two updates commute where no row is in reach of both.
update_where-commutes {ℓ} :
    {R : Type ℓ} (p q : R → Bool) (f g : R → R) (rs : List R)
    → ((r : R) → p r ≡ true → (q r ≡ false) × (q (f r) ≡ false))
    → ((r : R) → q r ≡ true → p (g r) ≡ false)
    → update_where p f (update_where q g rs) ≡ update_where q g (update_where p f rs)
unfolding update_where
update_where-commutes p q f g [] h k = refl
update_where-commutes p q f g (r ∷ rs) h k =
    let rest = update_where-commutes p q f g rs h k in
    elim (Bool-cases (p r)) [
      | inl e ↦ rw (e, (h r e).0, e, (h r e).1, rest) refl
      | inr e ↦ elim (Bool-cases (q r)) [
        | inl c ↦ rw (e, c, k r c, rest) refl
        | inr c ↦ rw (e, c, e, rest) refl
      ]
    ]

module _ (id : ℕ) where
  commit-own :
      (t : ℕ × Tx) (db : Db)
      → is_own id t.1 ≡ true
      → commit t db ≡ record db { jobs = update_where (condition t) (effect t) db.jobs }
  unfolding commit fetch_and_lock_job mark_job_success mark_job_failed mark_job_retrying
  commit-own (now, creates i n) db e = absurd (ground arith)
  commit-own (now, locks i w) db e = refl
  commit-own (now, succeeds i v) db e = refl
  commit-own (now, fails i m) db e = refl
  commit-own (now, retries i m at) db e = refl
  commit-own (now, archives dl i m n) db e = absurd (ground arith)
  commit-own (now, reclaims_stale s) db e = absurd (ground arith)
  commit-own (now, reclaims_due) db e = absurd (ground arith)
  commit-own (now, cancels i) db e = absurd (ground arith)
  commit-own (now, replays i) db e = absurd (ground arith)
  commit-own (now, beats w n) db e = absurd (ground arith)
  commit-own (now, stops w) db e = absurd (ground arith)
  commit-own (now, expires s) db e = absurd (ground arith)

  reach : (t : ℕ × Tx) (j : Job) → is_own id t.1 ≡ true → condition t j ≡ true → (j.id == id) ≡ true
  reach (now, creates i n) j e c = absurd (ground arith)
  reach (now, locks i w) j e c = ground arith
  reach (now, succeeds i v) j e c = ground arith
  reach (now, fails i m) j e c = ground arith
  reach (now, retries i m at) j e c = ground arith
  reach (now, archives dl i m n) j e c = absurd (ground arith)
  reach (now, reclaims_stale s) j e c = absurd (ground arith)
  reach (now, reclaims_due) j e c = absurd (ground arith)
  reach (now, cancels i) j e c = absurd (ground arith)
  reach (now, replays i) j e c = absurd (ground arith)
  reach (now, beats w n) j e c = absurd (ground arith)
  reach (now, stops w) j e c = absurd (ground arith)
  reach (now, expires s) j e c = absurd (ground arith)

  effect-id : (t : ℕ × Tx) (j : Job) → (effect t j).id ≡ j.id
  effect-id (now, creates i n) j = refl
  effect-id (now, locks i w) j = refl
  effect-id (now, succeeds i v) j = refl
  effect-id (now, fails i m) j = refl
  effect-id (now, retries i m at) j = refl
  effect-id (now, archives dl i m n) j = refl
  effect-id (now, reclaims_stale s) j = refl
  effect-id (now, reclaims_due) j = refl
  effect-id (now, cancels i) j = refl
  effect-id (now, replays i) j = refl
  effect-id (now, beats w n) j = refl
  effect-id (now, stops w) j = refl
  effect-id (now, expires s) j = refl

  -- A row of another job is out of reach.
  out_of_reach :
      (t : ℕ × Tx) (j : Job) → is_own id t.1 ≡ true → (j.id == id) ≡ false → condition t j ≡ false
  out_of_reach t j own other = elim (Bool-cases (condition t j)) [
    | inr e ↦ e
    | inl e ↦ let hit = reach t j own e in absurd (ground arith)
  ]

module _ (a b : ℕ) (different : (a == b) ≡ false) where
  not_other : (i : ℕ) → (i == a) ≡ true → (i == b) ≡ false
  not_other i e = ground arith

  commit-commutes :
      (t u : ℕ × Tx) (db : Db)
      → is_own a t.1 ≡ true
      → is_own b u.1 ≡ true
      → commit t (commit u db) ≡ commit u (commit t db)
  commit-commutes t u db mine yours =
      rw
        (
          commit-own b u db yours,
          commit-own a t db mine,
          commit-own a t (record db { jobs = update_where (condition u) (effect u) db.jobs }) mine,
          commit-own b u (record db { jobs = update_where (condition t) (effect t) db.jobs }) yours,
        )
        (ap (λ js. record db { jobs = js })
          (update_where-commutes (condition t) (condition u) (effect t) (effect u) db.jobs
            (λ j e.
              let here = reach a t j mine e in
              (
                out_of_reach b u j yours (not_other j.id here),
                out_of_reach b u (effect t j) yours
                    (ap (λ i. i == b) (effect-id a t j) ∙ not_other j.id here),
              ))
            (λ j e.
              let there = reach b u j yours e in
              out_of_reach a t (effect u j) mine
                (ap (λ i. i == a) (effect-id b u j) ∙ ground arith))))

  -- A transaction of the other job may be moved before the whole sequence.
  run-past :
      (ts : List (ℕ × Tx)) (u : ℕ × Tx) (db : Db)
      → All (λ t. is_own a t.1 ≡ true) ts
      → is_own b u.1 ≡ true
      → run ts (commit u db) ≡ commit u (run ts db)
  unfolding run
  run-past [] u db mine yours = refl
  run-past (t ∷ ts) u db mine yours =
      ap (run ts) (commit-commutes t u db mine.0 yours) ∙ run-past ts u (commit t db) mine.1 yours

  -- Two workers and two different jobs, one for each; each worker locks its job or marks it a success,
  -- failed or to be retried (and does not archive it), any number of times, in its order: whatever the interleaving of their
  -- transactions, the database ends as if one had worked after the other.
  pub interleaving-run :
      {ts us ws : List (ℕ × Tx)} (m : Merge ts us ws) (db : Db)
      → All (λ t. is_own a t.1 ≡ true) ts
      → All (λ u. is_own b u.1 ≡ true) us
      → run ws db ≡ run us (run ts db)
  unfolding run
  interleaving-run neither db mine yours = refl
  interleaving-run (left t m) db mine yours = interleaving-run m (commit t db) mine.1 yours
  interleaving-run {ts} (right u {us} m) db mine yours =
      interleaving-run m (commit u db) mine yours.1 ∙ ap (run us) (run-past ts u db mine yours.0)
