-- ===== src/Redis.antt =====
-- The Redis keys that the program uses, and the commands that it sends. Redis itself is not part of
-- the repository: each command below has the effect that its documentation gives. A list's first
-- element is its left end. A member is a job's key, and a score the microseconds of a timestamp.
pub mod Lists
pub mod Client
pub mod Tiers
pub mod Drain
pub mod Schedule
mod Tests
use distribu_q.Base.{
  ℕ, suc, ◌-◌, String, Bool, ◌&&◌, ◌||◌, Option, none, some, List, [], ◌∷◌, ◌++◌, str_eq, ltb, leb,
  ◌==◌, if◌then◌else◌, length,
}

pub record Redis : Type 0 where
  pub lists : String → List ℕ
  pub zsets : String → List (ℕ × ℕ)

abbrev pub no_keys : Redis
no_keys = record { lists = λ k. []; zsets = λ k. [] }

abbrev pub write {ℓ} : {A : Type ℓ} → String → A → (String → A) → String → A
write k v f j = if str_eq k j then v else f j

-- LPUSH: the new length is the reply.
unfoldable pub lpush : String → ℕ → Redis → Redis × ℕ
lpush k v r = (record r { lists = write k (v ∷ r.lists k) r.lists }, suc (length (r.lists k)))

unfoldable pub rpush : String → ℕ → Redis → Redis × ℕ
rpush k v r = (record r { lists = write k (r.lists k ++ v ∷ []) r.lists }, suc (length (r.lists k)))

-- A list without its right end, and that end.
unfoldable pub pop_last {ℓ} : {A : Type ℓ} → List A → Option (List A × A)
pop_last [] = none
pop_last (x ∷ xs) = elim (pop_last xs) [ none ↦ some ([], x) | some (ys, y) ↦ some (x ∷ ys, y) ]

unfoldable pub rpop : String → Redis → Redis × Option ℕ
unfolding pop_last
rpop k r = elim (pop_last (r.lists k)) [
  | none ↦ (r, none)
  | some (rest, v) ↦ (record r { lists = write k rest r.lists }, some v)
]

unfoldable pub rpoplpush : String → String → Redis → Redis × Option ℕ
unfolding rpop lpush
rpoplpush source target r = elim (pop_last (r.lists source)) [
  | none ↦ (r, none)
  | some (rest, v) ↦ ((lpush target v (record r { lists = write source rest r.lists })).0, some v)
]

-- BRPOP on the first of its keys that holds something.
unfoldable pub brpop : List String → Redis → Redis × Option (String × ℕ)
brpop [] r = (r, none)
brpop (k ∷ ks) r = elim (pop_last (r.lists k)) [
  | none ↦ brpop ks r
  | some (rest, v) ↦ (record r { lists = write k rest r.lists }, some (k, v))
]

-- LREM with the count 1: the first occurrence from the left goes.
unfoldable pub remove_first : ℕ → List ℕ → List ℕ
remove_first v [] = []
remove_first v (x ∷ xs) = if x == v then xs else x ∷ remove_first v xs

-- LREM with the count 0: every occurrence goes.
unfoldable pub remove_all : ℕ → List ℕ → List ℕ
remove_all v [] = []
remove_all v (x ∷ xs) = let rest = remove_all v xs in if x == v then rest else x ∷ rest

unfoldable pub lrem_first : String → ℕ → Redis → Redis × ℕ
unfolding remove_first
lrem_first k v r = (
  record r { lists = write k (remove_first v (r.lists k)) r.lists },
  length (r.lists k) - length (remove_first v (r.lists k)),
)

unfoldable pub lrem_all : String → ℕ → Redis → Redis × ℕ
unfolding remove_all
lrem_all k v r = (
  record r { lists = write k (remove_all v (r.lists k)) r.lists },
  length (r.lists k) - length (remove_all v (r.lists k)),
)

-- A sorted set: its members with their scores, in the order of scores and then of members.
unfoldable pub without : ℕ → List (ℕ × ℕ) → List (ℕ × ℕ)
without v [] = []
without v ((m, s) ∷ z) = let rest = without v z in if m == v then rest else (m, s) ∷ rest

abbrev pub comes_before : ℕ × ℕ → ℕ × ℕ → Bool
comes_before (m, s) (n, t) = ltb s t || (s == t && leb m n)

unfoldable pub insert_member : ℕ × ℕ → List (ℕ × ℕ) → List (ℕ × ℕ)
insert_member e [] = e ∷ []
insert_member e (x ∷ z) = if comes_before e x then e ∷ x ∷ z else x ∷ insert_member e z

-- ZADD of one member; the reply counts the members that are new.
unfoldable pub zadd : String → ℕ → ℕ → Redis → Redis × ℕ
unfolding without insert_member
zadd k v score r = (
  record r { zsets = write k (insert_member (v, score) (without v (r.zsets k))) r.zsets },
  if length (without v (r.zsets k)) == length (r.zsets k) then 1 else 0,
)

unfoldable pub zrem : String → ℕ → Redis → Redis
unfolding without
zrem k v r = record r { zsets = write k (without v (r.zsets k)) r.zsets }

-- ZRANGEBYSCORE k -inf max.
unfoldable pub up_to : ℕ → List (ℕ × ℕ) → List ℕ
up_to top [] = []
up_to top ((m, s) ∷ z) = let rest = up_to top z in if leb s top then m ∷ rest else rest
