-- ===== src/Delivery/Rows.antt =====
-- The rows that wait for a worker, and their keys in Redis.
use mathlib.Core.List.{append-nil}
use distribu_q.History.Exclusion.{HasKeys-snoc}
use distribu_q.Jobs.Lookup.{HasKeys, HasKeys-update_where}
use mathlib.Core.Path.{subst}
use distribu_q.Delivery.Held.{Held, Keeps}
use distribu_q.Redis.{Redis}
use distribu_q.Base.{
  update_where, select, find_row, ℕ, String, ◌≡◌, refl, sym, inl, inr, Bool, false, none, some,
  List, [], ◌∷◌, ◌++◌, arith, ◌==◌, ==_iff, Bool-cases, All,
}
use distribu_q.Schema.{pending, Job, has_id, is_status, update_updated_at_column}

abbrev pub is_pending : Job → Bool
is_pending j = is_status j.status pending

-- The key of every PENDING row is in Redis, and no two rows have one key.
abbrev pub Tracked : String → List Job → Redis → Type 0
Tracked p js r = HasKeys js × All (λ j. Held p r j.id) (select is_pending js)

-- Commands that may drop the key `v` and no other.
abbrev pub KeepsOthers : String → ℕ → (Redis → Redis) → Type 0
KeepsOthers p v f = (r : Redis) (id : ℕ) → (id == v) ≡ false → Held p r id → Held p (f r) id

pub All-imp {ℓ κ} :
    {A : Type ℓ} (P Q : A → Type κ) (xs : List A) → ((x : A) → P x → Q x) → All P xs → All Q xs
All-imp P Q [] h all = tt
All-imp P Q (x ∷ xs) h all = (h x all.0, All-imp P Q xs h all.1)

All-snoc {ℓ κ} :
    {A : Type ℓ} (P : A → Type κ) (xs : List A) (y : A) → All P xs → P y → All P (xs ++ y ∷ [])
All-snoc P [] y all h = (h, tt)
All-snoc P (x ∷ xs) y all h = (all.0, All-snoc P xs y all.1 h)

select-append {ℓ} :
    {R : Type ℓ} (q : R → Bool) (xs ys : List R) → select q (xs ++ ys) ≡ select q xs ++ select q ys
unfolding select
select-append q [] ys = refl
select-append q (x ∷ xs) ys = ground (arith, select-append q xs ys)

-- What holds of the rows that wait holds of those after the first row.
pub All-tail {ℓ κ} :
    {R : Type ℓ} (P : R → Type κ) (q : R → Bool) (x : R) (xs : List R)
    → All P (select q (x ∷ xs))
    → All P (select q xs)
unfolding select
All-tail P q x xs all = elim (Bool-cases (q x)) [ inl e ↦ (rw e at all).1 | inr e ↦ rw e at all ]

-- An update whose rows wait no more adds none that waits.
All-leave {κ} :
    (P : Job → Type κ) (q : Job → Bool) (f : Job → Job) (js : List Job)
    → ((j : Job) → is_pending (f j) ≡ false)
    → All P (select is_pending js)
    → All P (select is_pending (update_where q f js))
unfolding select update_where
All-leave P q f [] out all = tt
All-leave P q f (j ∷ js) out all =
    let rest = All-leave P q f js out (All-tail P is_pending j js all) in
    elim (Bool-cases (q j)) [
      | inl hit ↦ rw (hit, out j) rest
      | inr miss ↦ elim (Bool-cases (is_pending j)) [
        | inl w ↦ rw (miss, w) ((rw w at all).0, rest)
        | inr w ↦ rw (miss, w) rest
      ]
    ]

-- An update makes no row wait but those that it selects.
All-wake {κ} :
    (P : ℕ → Type κ) (q : Job → Bool) (f : Job → Job) (js : List Job)
    → ((j : Job) → (f j).id ≡ j.id)
    → All (λ j. P j.id) (select q js)
    → All (λ j. P j.id) (select is_pending js)
    → All (λ j. P j.id) (select is_pending (update_where q f js))
unfolding select update_where
All-wake P q f [] keep new all = tt
All-wake P q f (j ∷ js) keep new all =
    let rest =
      All-wake P q f js keep (All-tail (λ k. P k.id) q j js new)
        (All-tail (λ k. P k.id) is_pending j js all) in
    elim (Bool-cases (q j)) [
      | inl hit ↦ elim (Bool-cases (is_pending (f j))) [
        | inl w ↦ rw (hit, w) (subst P (sym (keep j)) (rw hit at new).0, rest)
        | inr w ↦ rw (hit, w) rest
      ]
      | inr miss ↦ elim (Bool-cases (is_pending j)) [
        | inl w ↦ rw (miss, w) ((rw w at all).0, rest)
        | inr w ↦ rw (miss, w) rest
      ]
    ]

-- The key of a row that a condition excludes is the key of no row that it selects.
pub absent-none :
    (q : Job → Bool) (v : ℕ) (js : List Job)
    → find_row (has_id v) js ≡ none
    → All (λ j. (j.id == v) ≡ false) (select q js)
unfolding find_row select
absent-none q v [] e = tt
absent-none q v (j ∷ js) e = elim (Bool-cases (j.id == v)) [
  | inl hit ↦ absurd (ground arith)
  | inr miss ↦ elim (Bool-cases (q j)) [
    | inl w ↦ rw w (miss, absent-none q v js (rw miss at e))
    | inr w ↦ rw w (absent-none q v js (rw miss at e))
  ]
]

pub absent :
    (q : Job → Bool) (v : ℕ) (js : List Job) (j : Job)
    → HasKeys js
    → find_row (has_id v) js ≡ some j
    → q j ≡ false
    → All (λ k. (k.id == v) ≡ false) (select q js)
unfolding find_row select
absent q v [] j keys found out = tt
absent q v (k ∷ js) j keys found out = elim (Bool-cases (k.id == v)) [
  | inl hit ↦
      let same : k.id ≡ v = (==_iff k.id v).0 hit in
      let here : some k ≡ some j = rw hit at found in
      let is : k ≡ j = cc in
      let idle : q k ≡ false = rw is out in rw idle (absent-none q v js (rw same at keys.0))
  | inr miss ↦ elim (Bool-cases (q k)) [
    | inl w ↦ rw w (miss, absent q v js j keys.1 (rw miss at found) out)
    | inr w ↦ rw w (absent q v js j keys.1 (rw miss at found) out)
  ]
]

module _ (p : String) (js : List Job) (r : Redis) where
  pub Tracked-redis : (f : Redis → Redis) → Keeps p f → Tracked p js r → Tracked p js (f r)
  Tracked-redis f keeps (keys, all) =
      (keys, All-imp _ _ (select is_pending js) (λ j h. keeps r j.id h) all)

  -- A key may go once its row does not wait.
  pub Tracked-drop :
      (v : ℕ) (f : Redis → Redis)
      → KeepsOthers p v f
      → All (λ j. (j.id == v) ≡ false) (select is_pending js)
      → Tracked p js r
      → Tracked p js (f r)
  Tracked-drop v f keeps others (keys, all) = (keys, both (select is_pending js) others all)
    where
      both :
          (xs : List Job)
          → All (λ j. (j.id == v) ≡ false) xs
          → All (λ j. Held p r j.id) xs
          → All (λ j. Held p (f r) j.id) xs
      both [] o a = tt
      both (x ∷ xs) o a = (keeps r x.id o.0 a.0, both xs o.1 a.1)

  module _ (now : ℕ) (q : Job → Bool) (f : Job → Job) (keep : (j : Job) → (f j).id ≡ j.id) where
    pub Tracked-leave :
        ((j : Job) → is_pending (f j) ≡ false)
        → Tracked p js r
        → Tracked p (update_where q (λ j. update_updated_at_column now (f j)) js) r
    Tracked-leave out (keys, all) = (
      HasKeys-update_where q (λ j. update_updated_at_column now (f j)) js keep keys,
      All-leave (λ j. Held p r j.id) q (λ j. update_updated_at_column now (f j)) js out all,
    )

    pub Tracked-wake :
        All (λ j. Held p r j.id) (select q js)
        → Tracked p js r
        → Tracked p (update_where q (λ j. update_updated_at_column now (f j)) js) r
    Tracked-wake new (keys, all) = (
      HasKeys-update_where q (λ j. update_updated_at_column now (f j)) js keep keys,
      All-wake (Held p r) q (λ j. update_updated_at_column now (f j)) js keep new all,
    )

  pub Tracked-insert :
      (j : Job)
      → find_row (has_id j.id) js ≡ none
      → Held p r j.id
      → Tracked p js r
      → Tracked p (js ++ j ∷ []) r
  unfolding select
  Tracked-insert j new held (keys, all) = (
    HasKeys-snoc js j keys new,
    rw (select-append is_pending js (j ∷ [])) (elim (Bool-cases (is_pending j)) [
      | inl w ↦ rw w (All-snoc (λ k. Held p r k.id) (select is_pending js) j all held)
      | inr w ↦ rw (w, append-nil (select is_pending js)) all
    ]),
  )
