-- ===== src/Sockets/Fanout.antt =====
-- What a broadcast delivers, and whom it prunes.
use mathlib.Core.List.{reverse, reverse-cons, append_assoc}
use distribu_q.Sockets.{send_each, elem_of, add, broadcast, discard, ConnectionManager, discard_all}
use distribu_q.Base.{
  select, ℕ, String, ◌≡◌, refl, ◌∙◌, inl, inr, Bool, false, ◌&&◌, ◌||◌, not, List, [], ◌∷◌, ◌++◌,
  map, arith, ◌==◌, ==_iff, Bool-cases, sym, ap,
}

-- A set holds an element once.
abbrev pub IsDistinct : List ℕ → Type 0
IsDistinct [] = Unit
IsDistinct (x ∷ xs) = (elem_of x xs ≡ false) × IsDistinct xs

elem_of-discard :
    (v u : ℕ) (xs : List ℕ)
    → IsDistinct xs
    → elem_of v (discard u xs) ≡ (elem_of v xs && not (u == v))
unfolding discard
elem_of-discard v u [] d = refl
elem_of-discard v u (x ∷ xs) d = ground (arith, elem_of-discard v u xs d.1, d.0)

pub IsDistinct-discard : (u : ℕ) (xs : List ℕ) → IsDistinct xs → IsDistinct (discard u xs)
unfolding discard
IsDistinct-discard u [] d = tt
IsDistinct-discard u (x ∷ xs) d = elim (Bool-cases (x == u)) [
  | inl e ↦ rw e d.1
  | inr e ↦ rw e (rw (elem_of-discard x u xs d.1, d.0) refl, IsDistinct-discard u xs d.1)
]

elem_of-discard_all :
    (v : ℕ) (us xs : List ℕ)
    → IsDistinct xs
    → elem_of v (discard_all us xs) ≡ (elem_of v xs && not (elem_of v us))
elem_of-discard_all v [] xs d = ground arith
elem_of-discard_all v (u ∷ us) xs d =
    elem_of-discard_all v us (discard u xs) (IsDistinct-discard u xs d)
    ∙ rw (elem_of-discard v u xs d) (ground arith)

elem_of-add : (v u : ℕ) (xs : List ℕ) → elem_of v (add u xs) ≡ ((u == v) || elem_of v xs)
unfolding add
elem_of-add v u xs = elim (Bool-cases (elem_of u xs)) [
  | inr e ↦ rw e refl
  | inl e ↦ elim (Bool-cases (u == v)) [
    | inr f ↦ rw (e, f) refl
    | inl f ↦ let same : u ≡ v = (==_iff u v).0 f in rw (e, f) (rw same at e)
  ]
]

reverse-cons_onto {ℓ} :
    {A : Type ℓ} (f : ℕ → A) (x : ℕ) (xs : List ℕ) (ys : List A)
    → reverse (map f (x ∷ xs)) ++ ys ≡ reverse (map f xs) ++ f x ∷ ys
reverse-cons_onto f x xs ys =
    ap (λ l. l ++ ys) (reverse-cons (f x) (map f xs))
    ∙ append_assoc (reverse (map f xs)) (f x ∷ []) ys

module _ (is_open : ℕ → Bool) (message : String) where
  sent-send_each :
      (xs : List ℕ) (sent : List (ℕ × String)) (ds : List ℕ)
      → (send_each is_open message xs sent ds).0
        ≡ reverse (map (λ ws. (ws, message)) (select is_open xs)) ++ sent
  unfolding send_each select
  sent-send_each [] sent ds = refl
  sent-send_each (x ∷ xs) sent ds = elim (Bool-cases (is_open x)) [
    | inl e ↦
        rw (e, send_each)
          (sent-send_each xs ((x, message) ∷ sent) ds
            ∙ sym (reverse-cons_onto (λ ws. (ws, message)) x (select is_open xs) sent))
    | inr e ↦ rw (e, send_each) (sent-send_each xs sent (add x ds))
  ]

  dead-send_each :
      (v : ℕ) (xs : List ℕ) (sent : List (ℕ × String)) (ds : List ℕ)
      → elem_of v (send_each is_open message xs sent ds).1
        ≡ ((elem_of v xs && not (is_open v)) || elem_of v ds)
  unfolding send_each
  dead-send_each v [] sent ds = refl
  dead-send_each v (x ∷ xs) sent ds = elim (Bool-cases (is_open x)) [
    | inl e ↦ rw (e, send_each) (dead-send_each v xs ((x, message) ∷ sent) ds ∙ ground arith)
    | inr e ↦
        rw (e, send_each)
          (dead-send_each v xs sent (add x ds) ∙ rw (elem_of-add v x ds) (ground arith))
  ]

  -- Where the connections differ, a broadcast sends the message once to every connection that works, in their order, and to no
  -- other; the connections after it are exactly those that work.
  pub broadcast_lem :
      (m : ConnectionManager)
      → IsDistinct m.connections
      → ((broadcast is_open message m).sent
          ≡ reverse (map (λ ws. (ws, message)) (select is_open m.connections)) ++ m.sent)
        × ((v : ℕ)
            → elem_of v (broadcast is_open message m).connections
              ≡ (elem_of v m.connections && is_open v))
  unfolding broadcast
  broadcast_lem m d = (
    sent-send_each m.connections m.sent [],
    λ v.
        elem_of-discard_all v (send_each is_open message m.connections m.sent []).1 m.connections d
        ∙ rw (dead-send_each v m.connections m.sent []) (ground arith),
  )
