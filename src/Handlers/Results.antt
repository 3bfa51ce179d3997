-- ===== src/Handlers/Results.antt =====
-- What the default handlers return: a JSON object, with the payload's other keys.
use distribu_q.Handlers.{HandlerFunc}
use distribu_q.World.{World}
use distribu_q.Base.Int.{◌+ℤ◌, ◌*ℤ◌, pos, ℤ}
use distribu_q.Result.{ok}
use distribu_q.Handlers.Defaults.{merge, Builtins, handle_math_add, handle_math_multiply, argument}
use distribu_q.Base.{
  String, ◌≡◌, refl, Bool, ◌||◌, none, some, arith, str_eq, eq_iff, if◌then◌else◌, ◌∙◌, inl, inr,
  not, Option, Bool-cases, ap,
}
use distribu_q.Json.{end, field, get, Fields, put, filter_keys, Json, int, obj}

pub get-put :
    (j k : String) (v : Json) (fs : Fields)
    → get k (put j v fs) ≡ (if str_eq j k then some v else get k fs)
unfolding get put
get-put j k v end = refl
get-put j k v (field i w fs) = ground (arith, eq_iff i j, eq_iff i k, eq_iff j k, get-put j k v fs)

-- No key stands twice, as in any dict.
abbrev pub IsDict : Fields → Type 0
IsDict end = Unit
IsDict (field k v fs) = (get k fs ≡ none) × IsDict fs

-- The later dict wins.
pub get-merge :
    (k : String) (base fs : Fields)
    → IsDict fs
    → get k (merge base fs) ≡ elim (get k fs) [ none ↦ get k base | some v ↦ some v ]
unfolding get merge
get-merge k base end d = refl
get-merge k base (field j v fs) d =
    ground (arith, eq_iff j k, get-put j k v base, get-merge k (put j v base) fs d.1)

pub get-filter_keys :
    (keep : String → Bool) (k : String) (fs : Fields)
    → get k (filter_keys keep fs) ≡ (if keep k then get k fs else none)
unfolding get filter_keys
get-filter_keys keep k end = ground arith
get-filter_keys keep k (field j v fs) = ground (arith, eq_iff j k, get-filter_keys keep k fs)

IsDict-filter_keys : (keep : String → Bool) (fs : Fields) → IsDict fs → IsDict (filter_keys keep fs)
unfolding filter_keys
IsDict-filter_keys keep end d = tt
IsDict-filter_keys keep (field k v fs) d = elim (Bool-cases (keep k)) [
  | inl e ↦ rw e (get-filter_keys keep k fs ∙ rw (e, d.0) refl, IsDict-filter_keys keep fs d.1)
  | inr e ↦ rw e (IsDict-filter_keys keep fs d.1)
]

-- The entry at `k` of the dict that a handler builds from its answer `v` and the payload.
abbrev pub entry_of : String → Json → (String → Bool) → Fields → String → Option Json
entry_of name v keep fs k = elim (if keep k then get k fs else none) [
  | none ↦ if str_eq name k then some v else none
  | some u ↦ some u
]

get-answer :
    (name : String) (v : Json) (keep : String → Bool) (fs : Fields) (k : String)
    → IsDict fs
    → get k (merge (field name v end) (filter_keys keep fs)) ≡ entry_of name v keep fs k
unfolding get
get-answer name v keep fs k d =
    get-merge k (field name v end) (filter_keys keep fs) (IsDict-filter_keys keep fs d)
    ∙ rw (get-filter_keys keep k fs) refl

module _ (py : Builtins) (fs : Fields) (w : World) (d : IsDict fs) where
  -- A run that returns a dict whose entry at each key is given.
  abbrev pub Returns : HandlerFunc → (String → Option Json) → Type 0
  Returns h entry = (r : Fields) × (h fs w ≡ (ok (obj r), w)) × ((k : String) → get k r ≡ entry k)

  int_of-argument :
      (name : String) (default v : Json) (x : ℤ)
      → get name fs ≡ some v
      → py.int_of v ≡ ok x
      → py.int_of (argument name default fs) ≡ ok x
  int_of-argument name default v x e f =
      ap (λ o. py.int_of (elim o [ none ↦ default | some u ↦ u ])) e ∙ f

  -- Where no key stands twice in the payload and it has both arguments, which convert to integers:
  -- `handle_math_add` returns their sum and `handle_math_multiply` their product, and nothing else in
  -- the world changes; what they return is a dict whose entry at any key is the payload's, where the
  -- payload has one there and the key is neither of the arguments, and otherwise the answer at the key
  -- of the answer and none at any other key.
  pub handle_math_lem :
      (u v : Json) (x y : ℤ)
      → get "a" fs ≡ some u
      → get "b" fs ≡ some v
      → py.int_of u ≡ ok x
      → py.int_of v ≡ ok y
      → let keep = λ (k : String). not (str_eq k "a" || str_eq k "b") in
        Returns (handle_math_add py) (entry_of "sum" (int (x +ℤ y)) keep fs)
        × Returns (handle_math_multiply py) (entry_of "product" (int (x *ℤ y)) keep fs)
  unfolding handle_math_add handle_math_multiply
  handle_math_lem u v x y a b e f =
      let keep = λ (k : String). not (str_eq k "a" || str_eq k "b") in
      (
        (
          _,
          rw
              (
                int_of-argument "a" (int (pos 10)) u x a e,
                int_of-argument "b" (int (pos 20)) v y b f,
              )
              refl,
          λ k. get-answer "sum" (int (x +ℤ y)) keep fs k d,
        ),
        (
          _,
          rw (int_of-argument "a" (int (pos 1)) u x a e, int_of-argument "b" (int (pos 1)) v y b f)
              refl,
          λ k. get-answer "product" (int (x *ℤ y)) keep fs k d,
        ),
      )
