-- ===== src/Handlers/Defaults.antt =====
-- worker/handlers/default_handlers.py. The counters of the flaky handler belong to the process, so
-- they are a part of its world.
-- What the handlers use of Python.
use Prim.Native.String.{◌++◌ as ◌<>◌}
use distribu_q.World.{◌>>=◌, ◌>>◌, Exec, pure, raise, Action, lift}
use distribu_q.Handlers.{register_handler, Registry, HandlerFunc}
use distribu_q.Base.Int.{◌+ℤ◌, ◌*ℤ◌, pos, negsuc, ℤ}
use distribu_q.Base.{
  ℕ, ◌+◌, String, Bool, ◌||◌, not, none, some, List, [], ◌∷◌, str_eq, if◌then◌else◌,
}
use distribu_q.Result.{type_error, runtime_error, err, ok, Result}
use distribu_q.Json.{int, dec, str, obj, end, field, get, Fields, Json, filter_keys, put}

pub record Builtins : Type 1 where
  -- int(v); TypeError and ValueError are its refusals.
  pub int_of : Json → Result ℤ
  -- float(v), the JSON number of a float, and asyncio.sleep: other processes work meanwhile.
  pub Float : Type 0
  pub float_of : Json → Result Float
  pub json_of_float : Float → Json
  pub sleep : Float → Action
  -- str(v).
  pub text_of : Json → String
  -- Whether a value may be a key of a dict, and whether two values are one key.
  pub hashable : Json → Bool
  pub same_key : Json → Json → Bool
  -- `n < v`; TypeError where v is not a number.
  pub less : ℕ → Json → Result Bool

-- A named argument, with its default.
abbrev pub argument : String → Json → Fields → Json
argument name default fs = elim (get name fs) [ none ↦ default | some v ↦ v ]

-- What is left for `**kwargs` by one named argument, and by two.
abbrev pub others : String → Fields → Fields
others a = filter_keys (λ k. not (str_eq k a))

abbrev pub others2 : String → String → Fields → Fields
others2 a b = filter_keys (λ k. not (str_eq k a || str_eq k b))

-- `{…, **kwargs}`: a key of kwargs takes the place of one that is there.
unfoldable pub merge : Fields → Fields → Fields
merge base end = base
merge base (field k v fs) = merge (put k v base) fs

-- `d.get(key, 0)`.
unfoldable pub count_at : (Json → Json → Bool) → Json → List (Json × ℕ) → ℕ
count_at same key [] = 0
count_at same key ((k, n) ∷ rest) = if same k key then n else count_at same key rest

-- `d[key] = n`.
unfoldable pub set_count : (Json → Json → Bool) → Json → ℕ → List (Json × ℕ) → List (Json × ℕ)
set_count same key n [] = (key, n) ∷ []
set_count same key n ((k, m) ∷ rest) =
    if same k key then (k, n) ∷ rest else (k, m) ∷ set_count same key n rest

-- Decorators, one after another.
unfoldable pub register_all : List (String × HandlerFunc) → Registry → Registry
unfolding register_handler
register_all [] rs = rs
register_all ((t, h) ∷ hs) rs = register_all hs (register_handler t h rs)

module _ (py : Builtins) where
  open py use {int_of, float_of, json_of_float, sleep, text_of, hashable, same_key, less}

  -- The answer of a handler that computes one value.
  abbrev pub answer : String → Json → Fields → Json
  answer name v kwargs = obj (merge (field name v end) kwargs)

  unfoldable pub handle_math_add : HandlerFunc
  unfolding get filter_keys merge
  handle_math_add fs = do
    a ← lift (int_of (argument "a" (int (pos 10)) fs))
    b ← lift (int_of (argument "b" (int (pos 20)) fs))
    pure (answer "sum" (int (a +ℤ b)) (others2 "a" "b" fs))

  unfoldable pub handle_math_multiply : HandlerFunc
  unfolding get filter_keys merge
  handle_math_multiply fs = do
    a ← lift (int_of (argument "a" (int (pos 1)) fs))
    b ← lift (int_of (argument "b" (int (pos 1)) fs))
    pure (answer "product" (int (a *ℤ b)) (others2 "a" "b" fs))

  unfoldable pub handle_echo : HandlerFunc
  unfolding get filter_keys merge
  handle_echo fs =
      pure
        (answer "echo" (argument "message" (str "Hello from DistribuQ!") fs) (others "message" fs))

  unfoldable pub handle_sleep : HandlerFunc
  unfolding get filter_keys merge
  handle_sleep fs = do
    let kwargs = others "seconds" fs
    let seconds = argument "seconds" (dec (record { mantissa = pos 30; exponent = negsuc 0 })) fs
    sec ← lift (float_of (argument "duration" seconds kwargs))
    sleep sec
    pure (answer "slept_seconds" (json_of_float sec) kwargs)

  unfoldable pub handle_fail : HandlerFunc
  unfolding get
  handle_fail fs =
      raise (runtime_error (text_of (argument "reason" (str "Simulated job failure") fs)))

  -- `_FLAKY_ATTEMPTS[key] = _FLAKY_ATTEMPTS.get(key, 0) + 1`.
  unfoldable pub count_attempt : Json → Exec ℕ
  unfolding count_at set_count
  count_attempt key w =
      let n = count_at same_key key w.flaky_attempts + 1 in
      if hashable key
      then (ok n, record w { flaky_attempts = set_count same_key key n w.flaky_attempts })
      else (err type_error, w)

  unfoldable pub settle_flaky : Json → ℕ → Bool → Fields → Exec Json
  unfolding merge
  settle_flaky task_key count early kwargs =
      if early
      then raise
          (runtime_error ("Simulated transient error on attempt " <> text_of (int (pos count))))
      else pure (
          obj (
            merge (field "recovered_at_attempt" (int (pos count)) (field "task_key" task_key end))
              kwargs))

  unfoldable pub handle_flaky : HandlerFunc
  unfolding get filter_keys count_attempt settle_flaky
  handle_flaky fs = do
    let task_key = argument "task_key" (str "default") fs
    count ← count_attempt task_key
    early ← lift (less count (argument "fail_until_attempt" (int (pos 2)) fs))
    settle_flaky task_key count early (others2 "task_key" "fail_until_attempt" fs)

  -- The decorators of the module, in the order in which they run: of two on one function the lower
  -- is first.
  abbrev pub default_handlers : List (String × HandlerFunc)
  default_handlers =
      ("test_math", handle_math_add)
      ∷ ("math.add", handle_math_add)
      ∷ ("math.multiply", handle_math_multiply)
      ∷ ("test_echo", handle_echo)
      ∷ ("echo", handle_echo)
      ∷ ("test_slow", handle_sleep)
      ∷ ("sleep", handle_sleep)
      ∷ ("test_fail", handle_fail)
      ∷ ("fail", handle_fail)
      ∷ ("flaky", handle_flaky)
      ∷ []

  -- `_REGISTRY` once the module has been imported.
  unfoldable pub default_registry : Registry
  unfolding register_all
  default_registry = register_all default_handlers []
