-- ===== src/Redis/Schedule.antt =====
-- The sorted set of delayed jobs: `schedule_job` and the promotion script.
use mathlib.Core.List.{append-nil, reverse-cons, append_assoc}
use distribu_q.Redis.Lists.{waiting}
use distribu_q.Redis.Client.{promote_due_scheduled_jobs, promote_each, schedule_job}
use distribu_q.Redis.{without, up_to, Redis, insert_member, lpush, zadd, zrem}
use distribu_q.Base.{
  ℕ, String, ◌≡◌, refl, sym, ◌∙◌, ◌≢◌, Bool, false, ◌&&◌, ◌||◌, List, [], ◌∷◌, ◌++◌, map, arith,
  eq_iff, leb, ◌==◌, if◌then◌else◌,
}

-- The entries of a sorted set whose score lies after `now`.
abbrev pub later : ℕ → List (ℕ × ℕ) → List (ℕ × ℕ)
later now [] = []
later now ((m, s) ∷ z) = let rest = later now z in if leb s now then rest else (m, s) ∷ rest

abbrev pub elem : ℕ → List ℕ → Bool
elem v [] = false
elem v (x ∷ xs) = (x == v) || elem v xs

abbrev pub members : List (ℕ × ℕ) → List ℕ
members = map (λ e. e.0)

-- A sorted set holds a member once.
abbrev pub HasMembers : List (ℕ × ℕ) → Type 0
HasMembers [] = Unit
HasMembers ((m, s) ∷ z) = (elem m (members z) ≡ false) × HasMembers z

without_all : List ℕ → List (ℕ × ℕ) → List (ℕ × ℕ)
without_all [] z = z
without_all (v ∷ vs) z = without_all vs (without v z)

without-absent : (v : ℕ) (z : List (ℕ × ℕ)) → elem v (members z) ≡ false → without v z ≡ z
unfolding without
without-absent v [] h = refl
without-absent v ((m, s) ∷ z) h = ground (arith, without-absent v z)

pub elem-up_to :
    (v now : ℕ) (z : List (ℕ × ℕ)) → elem v (members z) ≡ false → elem v (up_to now z) ≡ false
unfolding up_to
elem-up_to v now [] h = refl
elem-up_to v now ((m, s) ∷ z) h = ground (arith, elem-up_to v now z)

without_all-cons :
    (vs : List ℕ) (m s : ℕ) (z : List (ℕ × ℕ))
    → elem m vs ≡ false
    → without_all vs ((m, s) ∷ z) ≡ (m, s) ∷ without_all vs z
unfolding without_all without
without_all-cons [] m s z h = refl
without_all-cons (v ∷ vs) m s z h = ground (arith, without_all-cons vs m s (without v z))

without_all-up_to :
    (now : ℕ) (z : List (ℕ × ℕ)) → HasMembers z → without_all (up_to now z) z ≡ later now z
unfolding without_all up_to without
without_all-up_to now [] h = refl
without_all-up_to now ((m, s) ∷ z) h = ground (
  arith,
  without-absent m z h.0,
  elem-up_to m now z h.0,
  without_all-cons (up_to now z) m s z,
  without_all-up_to now z h.1,
)

module _ (set target : String) where
  waiting-promote_each :
      (vs : List ℕ) (r : Redis)
      → waiting target (promote_each set target vs r) ≡ waiting target r ++ vs
  unfolding promote_each lpush zrem
  waiting-promote_each [] r = sym (append-nil (waiting target r))
  waiting-promote_each (v ∷ vs) r =
      waiting-promote_each vs (lpush target v (zrem set v r)).0
      ∙ ground (
        arith,
        eq_iff target target,
        reverse-cons v (r.lists target),
        append_assoc (waiting target r) (v ∷ []) vs,
      )

  zset-promote_each :
      (vs : List ℕ) (r : Redis)
      → (promote_each set target vs r).zsets set ≡ without_all vs (r.zsets set)
  unfolding promote_each lpush zrem without_all
  zset-promote_each [] r = refl
  zset-promote_each (v ∷ vs) r =
      zset-promote_each vs (lpush target v (zrem set v r)).0 ∙ ground (arith, eq_iff set set)

  lists-promote_each :
      (vs : List ℕ) (r : Redis) (k : String)
      → target ≢ k
      → (promote_each set target vs r).lists k ≡ r.lists k
  unfolding promote_each lpush zrem
  lists-promote_each [] r k h = refl
  lists-promote_each (v ∷ vs) r k h =
      lists-promote_each vs (lpush target v (zrem set v r)).0 k h ∙ ground (arith, eq_iff target k)

-- The promotion moves exactly the members whose score is at most `now`, those of the lowest score
-- first, to the end of the target queue, and returns them; the later members stay scheduled in
-- their order, and no other list changes.
pub promote_due_scheduled_jobs_lem :
    (target set : String) (now : ℕ) (r : Redis)
    → HasMembers (r.zsets set)
    → let (r', promoted) = promote_due_scheduled_jobs target set now r in
      (promoted ≡ up_to now (r.zsets set))
      × (waiting target r' ≡ waiting target r ++ promoted)
      × (r'.zsets set ≡ later now (r.zsets set))
      × ((k : String) → target ≢ k → r'.lists k ≡ r.lists k)
unfolding promote_due_scheduled_jobs
promote_due_scheduled_jobs_lem target set now r h =
    let due : List ℕ = up_to now (r.zsets set) in
    (
      refl,
      waiting-promote_each set target due r,
      zset-promote_each set target due r ∙ without_all-up_to now (r.zsets set) h,
      lists-promote_each set target due r,
    )

pub elem-insert_member :
    (v now m s : ℕ) (z : List (ℕ × ℕ))
    → elem v (up_to now (insert_member (m, s) z)) ≡ ((leb s now && m == v) || elem v (up_to now z))
unfolding up_to insert_member
elem-insert_member v now m s [] = ground arith
elem-insert_member v now m s ((n, t) ∷ z) = ground (arith, elem-insert_member v now m s z)

pub elem-without : (v now : ℕ) (z : List (ℕ × ℕ)) → elem v (up_to now (without v z)) ≡ false
unfolding up_to without
elem-without v now [] = refl
elem-without v now ((m, s) ∷ z) = ground (arith, elem-without v now z)

-- A job that was scheduled last for the time `t` is among those that a promotion at `now` returns
-- if and only if `t` is not after `now`, whatever its entry was before.
pub promoted-schedule_job :
    (id t now : ℕ) (target set : String) (r : Redis)
    → elem id (promote_due_scheduled_jobs target set now (schedule_job id t set r).0).1 ≡ leb t now
unfolding promote_due_scheduled_jobs schedule_job zadd
promoted-schedule_job id t now target set r = ground (
  arith,
  eq_iff set set,
  elem-insert_member id now id t (without id (r.zsets set)),
  elem-without id now (r.zsets set),
)
