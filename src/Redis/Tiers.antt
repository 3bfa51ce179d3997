-- ===== src/Redis/Tiers.antt =====
-- The priority tiers against their specification: three queues, oldest job first.
use mathlib.Core.Path.{subst₂, subst}
use mathlib.Core.List.{reverse-cons}
use distribu_q.Config.{high_queue, default_queue, low_queue}
use distribu_q.Redis.Lists.{
  waiting, rpoplpush_empty, pop_last-empty, rpoplpush_full, pop_last-waiting, moved, lists-moved,
  waiting-moved, waiting-moved_ne,
}
use distribu_q.Redis.{Redis, lpush, brpop}
use distribu_q.Redis.Client.{
  enqueue_job, first_waiting, ordered, after_brpop, priority_reserve_job, or_else,
}
use distribu_q.Base.Int.{pos, negsuc, ℤ}
use distribu_q.Base.{
  ℕ, zero, suc, ◌≡◌, Option, none, some, List, [], ◌∷◌, ◌++◌, String, refl, ap, ◌≢◌, inl, inr, sym,
  eq_iff, arith, Option-cases, ◌∙◌, List-cases,
}

pub record Tiers : Type 0 where
  pub high : List ℕ
  pub default : List ℕ
  pub low : List ℕ

-- What the queues hold, seen as tiers.
abbrev pub tiers : Redis → Tiers
tiers r = record {
  high = waiting high_queue r;
  default = waiting default_queue r;
  low = waiting low_queue r;
}

-- A new job goes to the end of the tier of its priority.
abbrev pub put_job : ℕ → ℤ → Tiers → Tiers
put_job id (pos zero) t = record t { default = t.default ++ id ∷ [] }
put_job id (pos (suc n)) t = record t { high = t.high ++ id ∷ [] }
put_job id (negsuc n) t = record t { low = t.low ++ id ∷ [] }

-- The oldest job of the highest tier that holds one.
abbrev pub take_job : Tiers → Option (ℕ × Tiers)
take_job t = elim t.high [
  | x ∷ xs ↦ some (x, record t { high = xs })
  | [] ↦ elim t.default [
    | x ∷ xs ↦ some (x, record t { default = xs })
    | [] ↦ elim t.low [ x ∷ xs ↦ some (x, record t { low = xs }) | [] ↦ none ]
  ]
]

-- `enqueue_job` without an explicit queue appends the job to the tier of its priority, above zero,
-- zero or below, and leaves the other two tiers as they are.
pub tiers-enqueue_job :
    (id : ℕ) (priority : ℤ) (r : Redis)
    → tiers (enqueue_job id priority none r).0 ≡ put_job id priority (tiers r)
unfolding enqueue_job lpush
tiers-enqueue_job id (pos zero) r =
    ap (λ l. record (tiers r) { default = l }) (reverse-cons id (r.lists default_queue))
tiers-enqueue_job id (pos (suc n)) r =
    ap (λ l. record (tiers r) { high = l }) (reverse-cons id (r.lists high_queue))
tiers-enqueue_job id (negsuc n) r =
    ap (λ l. record (tiers r) { low = l }) (reverse-cons id (r.lists low_queue))

-- The non-blocking pass takes the job that BRPOP would have taken.
first_waiting-brpop :
    (qs : List String) (p : String) (r : Redis) → first_waiting qs p r ≡ after_brpop p (brpop qs r)
unfolding first_waiting brpop
first_waiting-brpop [] p r = unfold after_brpop in refl
first_waiting-brpop (q ∷ qs) p r = elim (List-cases (waiting q r)) [
  | inl e ↦
      rw (rpoplpush_empty q p r e, pop_last-empty (r.lists q) e, brpop) (first_waiting-brpop qs p r)
  | inr (v, rest, e) ↦
      rw (rpoplpush_full q p r v rest e, pop_last-waiting (r.lists q) v rest e, brpop)
        (unfold after_brpop lpush in refl)
]

-- A processing list that is none of the tiers.
pub record IsOutside (p : String) : Type 0 where
  pub not_high : p ≢ high_queue
  pub not_default : p ≢ default_queue
  pub not_low : p ≢ low_queue

-- What a reservation from `r` gives, where the specification gives `o`.
abbrev pub Took : String → Redis → Option (ℕ × Tiers) → Redis × Option ℕ → Type 0
Took p r none (r', v) = (v ≡ none) × (r' ≡ r)
Took p r (some (w, t)) (r', v) = (v ≡ some w) × (tiers r' ≡ t) × (r'.lists p ≡ w ∷ r.lists p)

abbrev pub Takes : String → Redis → Redis × Option ℕ → Type 0
Takes p r = Took p r (take_job (tiers r))

Takes-of :
    (p : String) (r : Redis) (o : Option (ℕ × Tiers)) (s t : Redis × Option ℕ)
    → take_job (tiers r) ≡ o
    → s ≡ t
    → Took p r o t
    → Takes p r s
Takes-of p r o s t e f h = subst₂ (λ x y. Took p r x y) (sym e) (sym f) h

high≢default : high_queue ≢ default_queue
high≢default e = cc ((eq_iff high_queue default_queue).1 e)

high≢low : high_queue ≢ low_queue
high≢low e = cc ((eq_iff high_queue low_queue).1 e)

default≢low : default_queue ≢ low_queue
default≢low e = cc ((eq_iff default_queue low_queue).1 e)

module _ (p : String) (r : Redis) (out : IsOutside p) (v : ℕ) (rest : List ℕ) where
  tiers-moved_high : tiers (moved high_queue p v rest r) ≡ record (tiers r) { high = rest }
  tiers-moved_high = cc (
    waiting-moved high_queue p v rest r out.not_high,
    waiting-moved_ne high_queue p v rest r default_queue out.not_default high≢default,
    waiting-moved_ne high_queue p v rest r low_queue out.not_low high≢low,
  )

  tiers-moved_default : tiers (moved default_queue p v rest r) ≡ record (tiers r) { default = rest }
  tiers-moved_default = cc (
    waiting-moved default_queue p v rest r out.not_default,
    waiting-moved_ne default_queue p v rest r high_queue out.not_high (λ e. high≢default (sym e)),
    waiting-moved_ne default_queue p v rest r low_queue out.not_low default≢low,
  )

  tiers-moved_low : tiers (moved low_queue p v rest r) ≡ record (tiers r) { low = rest }
  tiers-moved_low = cc (
    waiting-moved low_queue p v rest r out.not_low,
    waiting-moved_ne low_queue p v rest r high_queue out.not_high (λ e. high≢low (sym e)),
    waiting-moved_ne low_queue p v rest r default_queue out.not_default (λ e. default≢low (sym e)),
  )

module _ (p : String) (r : Redis) (out : IsOutside p) where
  first_waiting-Takes : Takes p r (first_waiting ordered p r)
  unfolding first_waiting
  first_waiting-Takes = elim (List-cases (waiting high_queue r)) [
    | inr (v, rest, e) ↦
        Takes-of p r (some (v, record (tiers r) { high = rest })) _
          (moved high_queue p v rest r, some v) (ground arith)
          (rw (rpoplpush_full high_queue p r v rest e))
          (
            refl,
            tiers-moved_high p r out v rest,
            lists-moved high_queue p v rest r (λ x. out.not_high (sym x)),
          )
    | inl e ↦ elim (List-cases (waiting default_queue r)) [
      | inr (v, rest, f) ↦
          Takes-of p r (some (v, record (tiers r) { default = rest })) _
            (moved default_queue p v rest r, some v) (ground arith)
            (rw (rpoplpush_empty high_queue p r e, rpoplpush_full default_queue p r v rest f))
            (
              refl,
              tiers-moved_default p r out v rest,
              lists-moved default_queue p v rest r (λ x. out.not_default (sym x)),
            )
      | inl f ↦ elim (List-cases (waiting low_queue r)) [
        | inr (v, rest, g) ↦
            Takes-of p r (some (v, record (tiers r) { low = rest })) _
              (moved low_queue p v rest r, some v) (ground arith)
              (rw (
                rpoplpush_empty high_queue p r e,
                rpoplpush_empty default_queue p r f,
                rpoplpush_full low_queue p r v rest g,
              ))
              (
                refl,
                tiers-moved_low p r out v rest,
                lists-moved low_queue p v rest r (λ x. out.not_low (sym x)),
              )
        | inl g ↦
            Takes-of p r none _ (r, none) (ground arith)
              (rw (
                rpoplpush_empty high_queue p r e,
                rpoplpush_empty default_queue p r f,
                rpoplpush_empty low_queue p r g,
              ))
              (refl, refl)
      ]
    ]
  ]

or_else-some :
    (x : Redis × Option ℕ) (next : Redis → Redis × Option ℕ) (v : ℕ)
    → x.1 ≡ some v
    → or_else x next ≡ x
or_else-some (r, none) next v e = cc
or_else-some (r, some w) next v e = refl

or_else-none :
    (x : Redis × Option ℕ) (next : Redis → Redis × Option ℕ)
    → x.1 ≡ none
    → or_else x next ≡ next x.0
or_else-none (r, none) next e = refl
or_else-none (r, some w) next e = cc

-- The state that a reservation takes from: the first one, or the one that the wait ends in.
abbrev pub served : (Redis → Redis) → Redis → Option (ℕ × Tiers) → Redis
served wait r none = wait r
served wait r (some x) = r

abbrev pub served_from : (Redis → Redis) → Redis → Redis
served_from wait r = served wait r (take_job (tiers r))

-- `priority_reserve_job` takes the oldest job of the highest tier that holds one and puts it on the
-- processing list; it looks at the queues as it finds them or, where all three are empty, as they
-- are after the wait; it returns no job exactly if they are empty then too, and changes nothing.
pub priority_reserve_job-Takes :
    (p : String) (wait : Redis → Redis) (r : Redis)
    → IsOutside p
    → Takes p (served_from wait r) (priority_reserve_job p wait r)
unfolding priority_reserve_job
priority_reserve_job-Takes p wait r out =
    let first : Redis × Option ℕ = first_waiting ordered p r in
    let second : Redis → Redis × Option ℕ = λ s. after_brpop p (brpop ordered (wait s)) in
    elim (Option-cases (take_job (tiers r))) [
      | inr ((v, t), e) ↦
          let h : Took p r (some (v, t)) first =
            subst (λ o. Took p r o first) e (first_waiting-Takes p r out) in
          subst₂ (λ s x. Takes p s x) (ap (served wait r) (sym e))
            (sym (or_else-some first second v h.0)) (first_waiting-Takes p r out)
      | inl e ↦
          let h : Took p r none first =
            subst (λ o. Took p r o first) e (first_waiting-Takes p r out) in
          subst₂ (λ s x. Takes p s x) (ap (served wait r) (sym e))
            (first_waiting-brpop ordered p (wait r)
              ∙ sym (or_else-none first second h.0 ∙ ap second h.1))
            (first_waiting-Takes p (wait r) out)
    ]
