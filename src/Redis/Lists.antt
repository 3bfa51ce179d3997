-- ===== src/Redis/Lists.antt =====
-- A Redis list read as a queue: its right end is the front.
use mathlib.Core.List.{reverse, reverse-reverse, reverse-cons}
use distribu_q.Redis.{Redis, pop_last, write, rpoplpush}
use distribu_q.Base.{
  ℕ, String, ◌≡◌, refl, sym, ap, ◌∙◌, none, some, List, [], ◌∷◌, ◌++◌, ◌≢◌, arith, eq_iff,
}

-- The jobs of a list, the one that a worker takes next first.
abbrev pub waiting : String → Redis → List ℕ
waiting q r = reverse (r.lists q)

-- The right end of a list is the head of its reverse.
pub pop_last-snoc {ℓ} : {A : Type ℓ} (xs : List A) (x : A) → pop_last (xs ++ x ∷ []) ≡ some (xs, x)
unfolding pop_last
pop_last-snoc [] x = refl
pop_last-snoc (y ∷ xs) x = rw (pop_last-snoc xs x, pop_last) refl

pub pop_last-waiting {ℓ} :
    {A : Type ℓ} (l : List A) (x : A) (rest : List A)
    → reverse l ≡ x ∷ rest
    → pop_last l ≡ some (reverse rest, x)
pop_last-waiting l x rest e =
    ap pop_last (sym (reverse-reverse l) ∙ ap reverse e ∙ reverse-cons x rest)
    ∙ pop_last-snoc (reverse rest) x

pub pop_last-empty {ℓ} : {A : Type ℓ} (l : List A) → reverse l ≡ [] → pop_last l ≡ none
unfolding pop_last
pop_last-empty l e = ap pop_last (sym (reverse-reverse l) ∙ ap reverse e)

-- What taking the front job `v` of `q`, with `rest` behind it, to the list `p` leaves.
abbrev pub moved : String → String → ℕ → List ℕ → Redis → Redis
moved q p v rest r = record r {
  lists = write p (v ∷ write q (reverse rest) r.lists p) (write q (reverse rest) r.lists);
}

module _ (q p : String) (r : Redis) where
  pub rpoplpush_empty : waiting q r ≡ [] → rpoplpush q p r ≡ (r, none)
  unfolding rpoplpush
  rpoplpush_empty e = rw (pop_last-empty (r.lists q) e, rpoplpush) refl

  pub rpoplpush_full :
      (v : ℕ) (rest : List ℕ)
      → waiting q r ≡ v ∷ rest
      → rpoplpush q p r ≡ (moved q p v rest r, some v)
  unfolding rpoplpush
  rpoplpush_full v rest e = rw (pop_last-waiting (r.lists q) v rest e, rpoplpush) refl

module _ (q p : String) (v : ℕ) (rest : List ℕ) (r : Redis) where
  pub waiting-moved : p ≢ q → waiting q (moved q p v rest r) ≡ rest
  waiting-moved h = ground (arith, eq_iff p q, eq_iff q q, reverse-reverse rest)

  pub waiting-moved_ne : (k : String) → p ≢ k → q ≢ k → waiting k (moved q p v rest r) ≡ waiting k r
  waiting-moved_ne k h g = ground (arith, eq_iff p k, eq_iff q k)

  pub lists-moved : q ≢ p → (moved q p v rest r).lists p ≡ v ∷ r.lists p
  lists-moved h = ground (arith, eq_iff p p, eq_iff q p)
