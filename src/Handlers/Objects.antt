-- ===== src/Handlers/Objects.antt =====
-- What a job of one of the default types may return.
use distribu_q.Base.Int.{pos, negsuc}
use mathlib.Core.Path.{subst}
use distribu_q.Handlers.Defaults.{
  Builtins, handle_math_multiply, handle_fail, default_registry, settle_flaky, handle_sleep,
  handle_math_add, handle_echo, handle_flaky, argument, count_attempt, others, others2,
  register_all, default_handlers,
}
use distribu_q.Handlers.{get_handler, register_handler, HandlerFunc, Registry}
use distribu_q.World.{World}
use distribu_q.Base.{ℕ, String, ◌≡◌, refl, inl, inr, Bool, [], ◌∷◌, str_eq, Bool-cases, All, List}
use distribu_q.Result.{err, ok, Result, Result-cases}
use distribu_q.Json.{obj, Json, Fields, int, dec, str}

abbrev pub IsObjectOr : Result Json → Type 0
IsObjectOr (err x) = Unit
IsObjectOr (ok v) = (r : Fields) × (v ≡ obj r)

abbrev pub ReturnsObject : HandlerFunc → Type 0
ReturnsObject h = (fs : Fields) (w : World) → IsObjectOr (h fs w).0

register_handler-All :
    (P : String × HandlerFunc → Type 0) (t : String) (h : HandlerFunc) (rs : Registry)
    → P (t, h)
    → All P rs
    → All P (register_handler t h rs)
unfolding register_handler
register_handler-All P t h [] p all = (p, tt)
register_handler-All P t h ((k, g) ∷ rs) p all = elim (Bool-cases (str_eq k t)) [
  | inl e ↦ rw e (p, all.1)
  | inr e ↦ rw e (all.0, register_handler-All P t h rs p all.1)
]

pub get_handler-All :
    (P : HandlerFunc → Type 0) (t : String) (h : HandlerFunc) (rs : Registry)
    → All (λ e. P e.1) rs
    → get_handler t rs ≡ ok h
    → P h
unfolding get_handler
get_handler-All P t h [] all e = cc
get_handler-All P t h ((k, g) ∷ rs) all e = elim (Bool-cases (str_eq k t)) [
  | inl hit ↦ let same : ok g ≡ ok h = rw hit at e in let equal : g ≡ h = cc in subst P equal all.0
  | inr miss ↦ get_handler-All P t h rs all.1 (rw miss at e)
]

pub register_all-All :
    (P : String × HandlerFunc → Type 0) (hs : List (String × HandlerFunc)) (rs : Registry)
    → All P hs
    → All P rs
    → All P (register_all hs rs)
unfolding register_all
register_all-All P [] rs new all = all
register_all-All P ((t, h) ∷ hs) rs new all =
    register_all-All P hs (register_handler t h rs) new.1 (register_handler-All P t h rs new.0 all)

module _ (py : Builtins) where
  handle_math_add-ReturnsObject : ReturnsObject (handle_math_add py)
  unfolding handle_math_add
  handle_math_add-ReturnsObject fs w =
      elim (Result-cases (py.int_of (argument "a" (int (pos 10)) fs))) [
        | inl (x, e) ↦ rw e tt
        | inr (a, e) ↦ elim (Result-cases (py.int_of (argument "b" (int (pos 20)) fs))) [
          | inl (x, f) ↦ rw (e, f) tt
          | inr (b, f) ↦ rw (e, f) (_, refl)
        ]
      ]

  handle_math_multiply-ReturnsObject : ReturnsObject (handle_math_multiply py)
  unfolding handle_math_multiply
  handle_math_multiply-ReturnsObject fs w =
      elim (Result-cases (py.int_of (argument "a" (int (pos 1)) fs))) [
        | inl (x, e) ↦ rw e tt
        | inr (a, e) ↦ elim (Result-cases (py.int_of (argument "b" (int (pos 1)) fs))) [
          | inl (x, f) ↦ rw (e, f) tt
          | inr (b, f) ↦ rw (e, f) (_, refl)
        ]
      ]

  handle_echo-ReturnsObject : ReturnsObject (handle_echo py)
  unfolding handle_echo
  handle_echo-ReturnsObject fs w = (_, refl)

  handle_sleep-ReturnsObject : ReturnsObject (handle_sleep py)
  unfolding handle_sleep
  handle_sleep-ReturnsObject fs w =
      let seconds =
        argument "seconds" (dec (record { mantissa = pos 30; exponent = negsuc 0 })) fs in
      elim (Result-cases (py.float_of (argument "duration" seconds (others "seconds" fs)))) [
        | inl (x, e) ↦ rw e tt
        | inr (sec, e) ↦ elim (Result-cases (py.sleep sec w).0) [
          | inl (x, f) ↦ rw (e, f) tt
          | inr (_, f) ↦ rw (e, f) (_, refl)
        ]
      ]

  handle_fail-ReturnsObject : ReturnsObject (handle_fail py)
  unfolding handle_fail
  handle_fail-ReturnsObject fs w = tt

  settle_flaky-ReturnsObject :
      (key : Json) (n : ℕ) (early : Bool) (fs : Fields) (w : World)
      → IsObjectOr (settle_flaky py key n early fs w).0
  unfolding settle_flaky
  settle_flaky-ReturnsObject key n early fs w = elim (Bool-cases early) [
    | inl e ↦ rw e tt
    | inr e ↦ rw e (_, refl)
  ]

  handle_flaky-ReturnsObject : ReturnsObject (handle_flaky py)
  unfolding handle_flaky
  handle_flaky-ReturnsObject fs w =
      let key = argument "task_key" (str "default") fs in
      let top = argument "fail_until_attempt" (int (pos 2)) fs in
      elim (Result-cases (count_attempt py key w).0) [
        | inl (x, e) ↦ rw e tt
        | inr (n, e) ↦ elim (Result-cases (py.less n top)) [
          | inl (x, f) ↦ rw (e, f) tt
          | inr (early, f) ↦
              rw (e, f)
                (settle_flaky-ReturnsObject key n early (others2 "task_key" "fail_until_attempt" fs)
                  (count_attempt py key w).1)
        ]
      ]

  decorated : All (λ e. ReturnsObject e.1) (default_handlers py)
  decorated = (
    handle_math_add-ReturnsObject,
    (
      handle_math_add-ReturnsObject,
      (
        handle_math_multiply-ReturnsObject,
        (
          handle_echo-ReturnsObject,
          (
            handle_echo-ReturnsObject,
            (
              handle_sleep-ReturnsObject,
              (
                handle_sleep-ReturnsObject,
                (
                  handle_fail-ReturnsObject,
                  (handle_fail-ReturnsObject, (handle_flaky-ReturnsObject, tt)),
                ),
              ),
            ),
          ),
        ),
      ),
    ),
  )

  registered : All (λ e. ReturnsObject e.1) (default_registry py)
  unfolding default_registry
  registered = register_all-All (λ e. ReturnsObject e.1) (default_handlers py) [] decorated tt

  -- Whatever the type and the payload of a job, what its default handler returns, if it returns, is a JSON object.
  pub default_registry-ReturnsObject :
      (t : String) (h : HandlerFunc)
      → get_handler t (default_registry py) ≡ ok h
      → (fs : Fields) (w : World) → IsObjectOr (h fs w).0
  default_registry-ReturnsObject t h e =
      get_handler-All ReturnsObject t h (default_registry py) registered e
