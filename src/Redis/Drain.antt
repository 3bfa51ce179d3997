-- ===== src/Redis/Drain.antt =====
-- One reservation after another, while nobody submits.
-- The jobs of the tiers in the order in which they are due.
use mathlib.Core.List.{reverse, reverse-cons, append_assoc}
use mathlib.Core.Path.{subst}
use distribu_q.Redis.Client.{priority_reserve_job}
use distribu_q.Redis.Tiers.{
  Tiers, IsOutside, take_job, served_from, Takes, tiers, priority_reserve_job-Takes, Took,
}
use distribu_q.Redis.{Redis}
use distribu_q.Base.{
  ℕ, zero, suc, String, ◌≡◌, refl, sym, ap, ◌∙◌, inl, inr, none, some, List, [], ◌∷◌, ◌++◌, arith,
  Option-cases, take, List-cases, Option,
}

abbrev pub in_order : Tiers → List ℕ
in_order t = t.high ++ t.default ++ t.low

-- Up to `n` reservations, as workers make them; each returns at once.
unfoldable pub drain : String → ℕ → Redis → Redis × List ℕ
unfolding priority_reserve_job
drain p zero r = (r, [])
drain p (suc n) r =
    let (r', reserved) = priority_reserve_job p (λ s. s) r in
    let (last, ids) = drain p n r' in elim reserved [ none ↦ (r', []) | some id ↦ (last, id ∷ ids) ]

module _ (p : String) (n : ℕ) (r : Redis) where
  abbrev first : Redis × Option ℕ
  first = priority_reserve_job p (λ s. s) r

  -- How a run goes on after its first reservation.
  abbrev after : Option ℕ → Redis × List ℕ
  after none = (first.0, [])
  after (some id) = ((drain p n first.0).0, id ∷ (drain p n first.0).1)

  drain-suc : (o : Option ℕ) → first.1 ≡ o → drain p (suc n) r ≡ after o
  unfolding drain
  drain-suc o e = split first.1 ∙ ap after e
    where
      split :
          (o : Option ℕ)
          → (elim o [
            | none ↦ (first.0, [])
            | some id ↦ ((drain p n first.0).0, id ∷ (drain p n first.0).1)
          ])
            ≡ after o
      split none = refl
      split (some id) = refl

take_job-none : (t : Tiers) → take_job t ≡ none → in_order t ≡ []
take_job-none t e = elim (List-cases t.high) [
  | inr (x, xs, f) ↦ absurd (ground arith)
  | inl f ↦ elim (List-cases t.default) [
    | inr (x, xs, g) ↦ absurd (ground arith)
    | inl g ↦ elim (List-cases t.low) [
      | inr (x, xs, h) ↦ absurd (ground arith)
      | inl h ↦ rw (f, g, h) refl
    ]
  ]
]

take_job-some : (t u : Tiers) (v : ℕ) → take_job t ≡ some (v, u) → in_order t ≡ v ∷ in_order u
take_job-some t u v e = elim (List-cases t.high) [
  | inr (x, xs, f) ↦ ground arith
  | inl f ↦ elim (List-cases t.default) [
    | inr (x, xs, g) ↦ ground arith
    | inl g ↦ elim (List-cases t.low) [
      | inr (x, xs, h) ↦ ground arith
      | inl h ↦ absurd (ground arith)
    ]
  ]
]

-- With nobody else at work the wait changes nothing.
served_from-id : (r : Redis) → served_from (λ s. s) r ≡ r
served_from-id r = elim (Option-cases (take_job (tiers r))) [
  | inl e ↦ rw e refl
  | inr (x, e) ↦ rw e refl
]

reserve-Takes :
    (p : String) (r : Redis) → IsOutside p → Takes p r (priority_reserve_job p (λ s. s) r)
reserve-Takes p r out =
    subst (λ s. Takes p s (priority_reserve_job p (λ u. u) r)) (served_from-id r)
      (priority_reserve_job-Takes p (λ s. s) r out)

drain-reserved :
    (p : String) (n : ℕ) (r : Redis)
    → IsOutside p
    → let (r', ids) = drain p n r in
      (ids ≡ take n (in_order (tiers r))) × (r'.lists p ≡ reverse ids ++ r.lists p)
unfolding drain
drain-reserved p zero r out = (refl, refl)
drain-reserved p (suc n) r out =
    let x = priority_reserve_job p (λ s. s) r in
    let t = reserve-Takes p r out in
    elim (Option-cases (take_job (tiers r))) [
      | inl e ↦
          let h : Took p r none x = subst (λ o. Took p r o x) e t in
          rw (drain-suc p n r none h.0, take_job-none (tiers r) e) (refl, ap (λ s. s.lists p) h.1)
      | inr ((v, u), e) ↦
          let h : Took p r (some (v, u)) x = subst (λ o. Took p r o x) e t in
          let (ids, lists) = drain-reserved p n x.0 out in
          rw (drain-suc p n r (some v) h.0, take_job-some (tiers r) u v e)
            (
              ap (λ l. v ∷ l) (ids ∙ ap (λ y. take n (in_order y)) h.1),
              lists
                  ∙ ap (λ l. reverse (drain p n x.0).1 ++ l) h.2
                  ∙ sym (
                      ap (λ l. l ++ r.lists p) (reverse-cons v (drain p n x.0).1)
                      ∙ append_assoc (reverse (drain p n x.0).1) (v ∷ []) (r.lists p)),
            )
    ]

-- While nobody submits, the first `n` reservations return the first `n` of all jobs that wait: those of the high queue
-- first, then those of the default queue, then those of the low queue, the oldest first in each; all of them are on the processing
-- list then. So a job is reserved after as many reservations as there are jobs before it, and one.
pub drain-in_order :
    (p : String) (n : ℕ) (r : Redis)
    → IsOutside p
    → let due = take n (in_order (tiers r)) in
      ((drain p n r).1 ≡ due) × ((drain p n r).0.lists p ≡ reverse due ++ r.lists p)
drain-in_order p n r out =
    let (ids, lists) = drain-reserved p n r out in
    (ids, lists ∙ ap (λ l. reverse l ++ r.lists p) ids)
