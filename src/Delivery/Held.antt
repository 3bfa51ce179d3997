-- ===== src/Delivery/Held.antt =====
-- Where Redis may hold the key of a job, and what keeps it there.
use distribu_q.Redis.Schedule.{elem, members}
use distribu_q.Redis.{pop_last, remove_first, remove_all, without, Redis, insert_member}
use distribu_q.Config.{high_queue, default_queue, default_scheduled_set, low_queue}
use distribu_q.Base.{
  ℕ, String, ◌≡◌, refl, ◌⊎◌, inl, inr, Bool, true, false, ◌||◌, none, some, List, [], ◌∷◌, ◌++◌,
  arith, str_eq, ◌==◌, Option-cases,
}

abbrev pub is_key : String → String → Bool
is_key p k = str_eq k high_queue || (str_eq k default_queue || (str_eq k low_queue || str_eq k p))

-- One of the three queues, the processing list `p`, or the sorted set of delayed jobs.
abbrev pub Held : String → Redis → ℕ → Type 0
Held p r id =
    ((k : String) × (is_key p k ≡ true) × (elem id (r.lists k) ≡ true))
    ⊎ (elem id (members (r.zsets default_scheduled_set)) ≡ true)

-- What other clients may do without losing a key.
abbrev pub Keeps : String → (Redis → Redis) → Type 0
Keeps p f = (r : Redis) (id : ℕ) → Held p r id → Held p (f r) id

pub elem-append : (v : ℕ) (xs ys : List ℕ) → elem v (xs ++ ys) ≡ (elem v xs || elem v ys)
elem-append v [] ys = refl
elem-append v (x ∷ xs) ys = ground (arith, elem-append v xs ys)

pub elem-remove_first :
    (v u : ℕ) (xs : List ℕ) → (v == u) ≡ false → elem v (remove_first u xs) ≡ elem v xs
unfolding remove_first
elem-remove_first v u [] ne = refl
elem-remove_first v u (x ∷ xs) ne = ground (arith, elem-remove_first v u xs)

pub elem-remove_all :
    (v u : ℕ) (xs : List ℕ) → (v == u) ≡ false → elem v (remove_all u xs) ≡ elem v xs
unfolding remove_all
elem-remove_all v u [] ne = refl
elem-remove_all v u (x ∷ xs) ne = ground (arith, elem-remove_all v u xs)

pub elem-members-without :
    (v u : ℕ) (z : List (ℕ × ℕ))
    → (v == u) ≡ false
    → elem v (members (without u z)) ≡ elem v (members z)
unfolding without
elem-members-without v u [] ne = refl
elem-members-without v u ((m, s) ∷ z) ne = ground (arith, elem-members-without v u z)

pub elem-members_insert :
    (v m s : ℕ) (z : List (ℕ × ℕ))
    → elem v (members (insert_member (m, s) z)) ≡ ((m == v) || elem v (members z))
unfolding insert_member
elem-members_insert v m s [] = refl
elem-members_insert v m s ((n, t) ∷ z) = ground (arith, elem-members_insert v m s z)

pop_last-none : (xs : List ℕ) → pop_last xs ≡ none → xs ≡ []
unfolding pop_last
pop_last-none [] h = refl
pop_last-none (x ∷ xs) h = elim (Option-cases (pop_last xs)) [
  | inl f ↦ absurd (ground arith)
  | inr (q, f) ↦ absurd (ground arith)
]

-- What is popped from a list and what stays is the list.
pub elem-pop_last :
    (v u : ℕ) (xs ys : List ℕ) → pop_last xs ≡ some (ys, u) → elem v xs ≡ (elem v ys || (u == v))
unfolding pop_last
elem-pop_last v u [] ys e = cc
elem-pop_last v u (x ∷ xs) ys e = elim (Option-cases (pop_last xs)) [
  | inl last ↦ ground (arith, pop_last-none xs)
  | inr ((zs, z), more) ↦ ground (arith, elem-pop_last v z xs zs more)
]
