-- ===== src/Base/Rows.antt =====
-- The rows of a table, and the three ways in which a statement reaches them: UPDATE … WHERE,
-- SELECT … WHERE, and the one row of a lookup. A condition is the set of rows at which it is TRUE;
-- the conditions of this program join their parts by AND and OR alone, so a part that is NULL
-- counts as one that is false.
use Prim.Native.Nat.{ℕ}
use mathlib.Core.Path.{◌≡◌, refl}
use mathlib.Core.Bool.{Bool, true, false}
use mathlib.Core.Option.{Option, none, some}
use mathlib.Core.List.{List, [], ◌∷◌}
use native.Mathlib.Omega.{arith}
use distribu_q.Base.Tests.{if◌then◌else◌, leb, Bool-cases}
use distribu_q.Base.Lists.{All}
use mathlib.Core.Logic.{inl, inr}

module _ {ℓ} {R : Type ℓ} where
  unfoldable pub update_where : (R → Bool) → (R → R) → List R → List R
  update_where p f [] = []
  update_where p f (r ∷ rs) = (if p r then f r else r) ∷ update_where p f rs

  unfoldable pub select : (R → Bool) → List R → List R
  select p [] = []
  select p (r ∷ rs) = let rest = select p rs in if p r then r ∷ rest else rest

  unfoldable pub find_row : (R → Bool) → List R → Option R
  find_row p [] = none
  find_row p (r ∷ rs) = if p r then some r else find_row p rs

  -- ORDER BY key DESC; rows of one key keep the table's order.
  unfoldable pub insert_desc : (R → ℕ) → R → List R → List R
  insert_desc key r [] = r ∷ []
  insert_desc key r (x ∷ xs) =
      let rest = insert_desc key r xs in if leb (key x) (key r) then r ∷ x ∷ xs else x ∷ rest

  unfoldable pub order_desc : (R → ℕ) → List R → List R
  unfolding insert_desc
  order_desc key [] = []
  order_desc key (r ∷ rs) = insert_desc key r (order_desc key rs)

  -- What an update takes out of its own condition is not there for the next one.
  pub select-update_where :
      (p : R → Bool) (f : R → R) (rs : List R)
      → ((r : R) → p r ≡ true → p (f r) ≡ false)
      → select p (update_where p f rs) ≡ []
  unfolding update_where select
  select-update_where p f [] h = refl
  select-update_where p f (r ∷ rs) h = ground (arith, h r, select-update_where p f rs h)

  -- A lookup after an update, where the update keeps what is looked up.
  pub find_row-update_where :
      (q p : R → Bool) (f : R → R) (rs : List R)
      → ((r : R) → q (f r) ≡ q r)
      → find_row q (update_where p f rs)
        ≡ elim (find_row q rs) [ none ↦ none | some r ↦ some (if p r then f r else r) ]
  unfolding update_where find_row
  find_row-update_where q p f [] h = refl
  find_row-update_where q p f (r ∷ rs) h = ground (arith, h r, find_row-update_where q p f rs h)

  -- What a lookup finds meets its condition.
  pub find_row_holds : (q : R → Bool) (rs : List R) (r : R) → find_row q rs ≡ some r → q r ≡ true
  unfolding find_row
  find_row_holds q [] r e = cc
  find_row_holds q (x ∷ rs) r e = ground (arith, find_row_holds q rs r)

  pub All-select {κ} :
      (P : R → Type κ) (p : R → Bool) (rs : List R) → All P rs → All P (select p rs)
  unfolding select
  All-select P p [] all = tt
  All-select P p (r ∷ rs) all = elim (Bool-cases (p r)) [
    | inl e ↦ rw e (all.0, All-select P p rs all.1)
    | inr e ↦ rw e (All-select P p rs all.1)
  ]

  pub All-update_where {κ} :
      (P : R → Type κ) (p : R → Bool) (f : R → R) (rs : List R)
      → ((r : R) → p r ≡ true → P r → P (f r))
      → All P rs
      → All P (update_where p f rs)
  unfolding update_where
  All-update_where P p f [] h all = tt
  All-update_where P p f (r ∷ rs) h all = elim (Bool-cases (p r)) [
    | inl e ↦ rw e (h r e all.0, All-update_where P p f rs h all.1)
    | inr e ↦ rw e (all.0, All-update_where P p f rs h all.1)
  ]

  -- An update of rows that a condition excludes before and after does not change its rows.
  pub select-update_where_apart :
      (p q : R → Bool) (f : R → R) (rs : List R)
      → ((r : R) → q r ≡ true → p r ≡ false)
      → ((r : R) → q r ≡ true → p (f r) ≡ false)
      → select p (update_where q f rs) ≡ select p rs
  unfolding update_where select
  select-update_where_apart p q f [] h g = refl
  select-update_where_apart p q f (r ∷ rs) h g =
      ground (arith, h r, g r, select-update_where_apart p q f rs h g)

  pub All-insert_desc {κ} :
      (P : R → Type κ) (key : R → ℕ) (r : R) (rs : List R)
      → P r
      → All P rs
      → All P (insert_desc key r rs)
  unfolding insert_desc
  All-insert_desc P key r [] p all = (p, tt)
  All-insert_desc P key r (x ∷ rs) p all = elim (Bool-cases (leb (key x) (key r))) [
    | inl e ↦ rw e (p, all)
    | inr e ↦ rw e (all.0, All-insert_desc P key r rs p all.1)
  ]

  pub All-order_desc {κ} :
      (P : R → Type κ) (key : R → ℕ) (rs : List R) → All P rs → All P (order_desc key rs)
  unfolding order_desc
  All-order_desc P key [] all = tt
  All-order_desc P key (r ∷ rs) all =
      All-insert_desc P key r (order_desc key rs) all.0 (All-order_desc P key rs all.1)

  -- The rows that a SELECT gives meet its condition.
  pub All-condition : (p : R → Bool) (rs : List R) → All (λ r. p r ≡ true) (select p rs)
  unfolding select
  All-condition p [] = tt
  All-condition p (r ∷ rs) = elim (Bool-cases (p r)) [
    | inl e ↦ rw e (e, All-condition p rs)
    | inr e ↦ rw e (All-condition p rs)
  ]
