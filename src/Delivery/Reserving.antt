-- ===== src/Delivery/Reserving.antt =====
-- A reservation moves a key from a queue to the processing list and drops none.
use distribu_q.Delivery.Commands.{lpush-Held, lpush-Keeps}
use mathlib.Core.Path.{subst}
use distribu_q.Redis.Client.{priority_reserve_job, first_waiting, after_brpop, ordered, or_else}
use distribu_q.Redis.{Redis, rpoplpush, pop_last, brpop, lpush, write}
use distribu_q.Delivery.Held.{is_key, Keeps, Held, elem-pop_last}
use distribu_q.Base.{
  ℕ, String, ◌≡◌, sym, inl, inr, true, false, some, List, [], ◌∷◌, arith, eq_iff, ◌==◌, ==_iff,
  Bool-cases, Option-cases, Option, none,
}

module _ (p : String) where
  take-Held :
      (k : String) (rest : List ℕ) (v id : ℕ) (r : Redis)
      → pop_last (r.lists k) ≡ some (rest, v)
      → (id == v) ≡ false
      → Held p r id
      → Held p (record r { lists = write k rest r.lists }) id
  take-Held k rest v id r popped ne (inr e) = inr e
  take-Held k rest v id r popped ne (inl (j, key, e)) =
      inl (j, key, ground (arith, eq_iff k j, elem-pop_last id v (r.lists k) rest popped))

  -- The key that was popped goes onto a list that counts, so none is lost.
  move-Keeps :
      (k target : String) (rest : List ℕ) (v id : ℕ) (r : Redis)
      → is_key p target ≡ true
      → pop_last (r.lists k) ≡ some (rest, v)
      → Held p r id
      → Held p (lpush target v (record r { lists = write k rest r.lists })).0 id
  move-Keeps k target rest v id r key popped h = elim (Bool-cases (id == v)) [
    | inl hit ↦
        subst (Held p (lpush target v (record r { lists = write k rest r.lists })).0)
          (sym ((==_iff id v).0 hit))
          (lpush-Held p target v (record r { lists = write k rest r.lists }) key)
    | inr miss ↦
        lpush-Keeps p target v (record r { lists = write k rest r.lists }) id
          (take-Held k rest v id r popped miss h)
  ]

  rpoplpush-Keeps :
      (k target : String) → is_key p target ≡ true → Keeps p (λ r. (rpoplpush k target r).0)
  unfolding rpoplpush
  rpoplpush-Keeps k target key r id h = elim (Option-cases (pop_last (r.lists k))) [
    | inl e ↦ rw (e, rpoplpush) h
    | inr ((rest, v), e) ↦ rw (e, rpoplpush) (move-Keeps k target rest v id r key e h)
  ]

  or_else-Held :
      (x : Redis × Option ℕ) (next : Redis → Redis × Option ℕ) (id : ℕ)
      → Held p x.0 id
      → Keeps p (λ r. (next r).0)
      → Held p (or_else x next).0 id
  or_else-Held (r, none) next id h keeps = keeps r id h
  or_else-Held (r, some v) next id h keeps = h

  module _ (key : is_key p p ≡ true) where
    first_waiting-Keeps : (qs : List String) → Keeps p (λ r. (first_waiting qs p r).0)
    unfolding first_waiting
    first_waiting-Keeps [] r id h = h
    first_waiting-Keeps (q ∷ qs) r id h =
        or_else-Held (rpoplpush q p r) (λ r'. first_waiting qs p r') id
          (rpoplpush-Keeps q p key r id h) (first_waiting-Keeps qs)

    after_brpop-Keeps : (qs : List String) → Keeps p (λ r. (after_brpop p (brpop qs r)).0)
    unfolding after_brpop brpop
    after_brpop-Keeps [] r id h = h
    after_brpop-Keeps (q ∷ qs) r id h = elim (Option-cases (pop_last (r.lists q))) [
      | inl e ↦ rw (e, brpop) (after_brpop-Keeps qs r id h)
      | inr ((rest, v), e) ↦ rw (e, brpop) (move-Keeps q p rest v id r key e h)
    ]

    pub priority_reserve_job-Keeps :
        (wait : Redis → Redis) → Keeps p wait → Keeps p (λ r. (priority_reserve_job p wait r).0)
    unfolding priority_reserve_job
    priority_reserve_job-Keeps wait others r id h =
        or_else-Held (first_waiting ordered p r) (λ r'. after_brpop p (brpop ordered (wait r'))) id
          (first_waiting-Keeps ordered r id h)
          (λ r' i held. after_brpop-Keeps ordered (wait r') i (others r' i held))
