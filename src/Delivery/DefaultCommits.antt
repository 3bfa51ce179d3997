-- ===== src/Delivery/DefaultCommits.antt =====
-- The default handlers of worker/handlers/default_handlers.py leave Postgres to what other
-- processes do while one of them sleeps.
use distribu_q.History.{Tx}
use distribu_q.Delivery.WorkerCommits.{CommitsAll}
use distribu_q.Delivery.Commits.{Commits, Commits-bind, Commits-nothing, returned}
use distribu_q.Handlers.Defaults.{
  Builtins, handle_flaky, handle_echo, settle_flaky, handle_math_multiply, handle_math_add,
  handle_fail, count_attempt, handle_sleep, default_registry, argument, others, answer, others2,
  default_handlers,
}
use distribu_q.Result.{Result}
use distribu_q.Base.{ℕ, refl, inl, inr, Bool, [], Bool-cases}
use distribu_q.Json.{int, dec, str, Json, Fields}
use distribu_q.Handlers.Objects.{register_all-All}
use distribu_q.World.{◌>>=◌, ◌>>◌, lift, pure, Exec}
use distribu_q.Base.Int.{◌+ℤ◌, ◌*ℤ◌, pos, negsuc}

module _ (P : Tx → Type 0) where
  refused {ℓ} : {A : Type ℓ} (r : Result A) → Commits P (lift r)
  refused r = Commits-nothing P (lift r) (λ w. refl)

  -- A handler that computes its answer from one argument, or from two.
  computed {ℓ} :
      {A : Type ℓ} (r : Result A) (answer_of : A → Json)
      → Commits P (lift r >>= λ a. pure (answer_of a))
  computed r answer_of =
      Commits-bind P (lift r) (λ a. pure (answer_of a)) (refused r) (λ a. returned P (answer_of a))

  computed2 {ℓ} :
      {A : Type ℓ} (r s : Result A) (answer_of : A → A → Json)
      → Commits P (lift r >>= λ a. lift s >>= λ b. pure (answer_of a b))
  computed2 r s answer_of =
      Commits-bind P (lift r) (λ a. lift s >>= λ b. pure (answer_of a b)) (refused r)
        (λ a. computed s (answer_of a))

  module _ (py : Builtins) where
    handle_math_add-Commits : (fs : Fields) → Commits P (handle_math_add py fs)
    unfolding handle_math_add
    handle_math_add-Commits fs =
        computed2 (py.int_of (argument "a" (int (pos 10)) fs))
          (py.int_of (argument "b" (int (pos 20)) fs))
          (λ a b. answer py "sum" (int (a +ℤ b)) (others2 "a" "b" fs))

    handle_math_multiply-Commits : (fs : Fields) → Commits P (handle_math_multiply py fs)
    unfolding handle_math_multiply
    handle_math_multiply-Commits fs =
        computed2 (py.int_of (argument "a" (int (pos 1)) fs))
          (py.int_of (argument "b" (int (pos 1)) fs))
          (λ a b. answer py "product" (int (a *ℤ b)) (others2 "a" "b" fs))

    handle_echo-Commits : (fs : Fields) → Commits P (handle_echo py fs)
    unfolding handle_echo
    handle_echo-Commits fs = returned P (
        answer py "echo" (argument "message" (str "Hello from DistribuQ!") fs)
          (others "message" fs))

    handle_fail-Commits : (fs : Fields) → Commits P (handle_fail py fs)
    unfolding handle_fail
    handle_fail-Commits fs = Commits-nothing P (handle_fail py fs) (λ w. refl)

    count_attempt-Commits : (key : Json) → Commits P (count_attempt py key)
    unfolding count_attempt
    count_attempt-Commits key =
        Commits-nothing P (count_attempt py key)
          (λ w. elim (Bool-cases (py.hashable key)) [ inl e ↦ rw e refl | inr e ↦ rw e refl ])

    settle_flaky-Commits :
        (key : Json) (count : ℕ) (early : Bool) (fs : Fields)
        → Commits P (settle_flaky py key count early fs)
    unfolding settle_flaky
    settle_flaky-Commits key count early fs =
        Commits-nothing P (settle_flaky py key count early fs)
          (λ w. elim (Bool-cases early) [ inl e ↦ rw e refl | inr e ↦ rw e refl ])

    handle_flaky-Commits : (fs : Fields) → Commits P (handle_flaky py fs)
    unfolding handle_flaky
    handle_flaky-Commits fs =
        let key = argument "task_key" (str "default") fs in
        let limit = argument "fail_until_attempt" (int (pos 2)) fs in
        let kwargs = others2 "task_key" "fail_until_attempt" fs in
        let settle : ℕ → Bool → Exec Json = λ n early. settle_flaky py key n early kwargs in
        Commits-bind P (count_attempt py key) (λ n. lift (py.less n limit) >>= settle n)
          (count_attempt-Commits key)
          (λ n.
            Commits-bind P (lift (py.less n limit)) (settle n) (refused (py.less n limit))
              (λ early. settle_flaky-Commits key n early kwargs))

    module _ (sleeps : (s : py.Float) → Commits P (py.sleep s)) where
      handle_sleep-Commits : (fs : Fields) → Commits P (handle_sleep py fs)
      unfolding handle_sleep
      handle_sleep-Commits fs =
          let kwargs = others "seconds" fs in
          let half = dec (record { mantissa = pos 30; exponent = negsuc 0 }) in
          let read = lift (py.float_of (argument "duration" (argument "seconds" half fs) kwargs)) in
          let answer_of : py.Float → Json =
            λ s. answer py "slept_seconds" (py.json_of_float s) kwargs in
          Commits-bind P read (λ s. py.sleep s >> pure (answer_of s))
            (Commits-nothing P read (λ w. refl))
            (λ s.
              Commits-bind P (py.sleep s) (λ _. pure (answer_of s)) (sleeps s)
                (λ _. returned P (answer_of s)))

      pub default_registry-Commits : CommitsAll P (default_registry py)
      unfolding default_registry
      default_registry-Commits =
          register_all-All (λ e. (fs : Fields) → Commits P (e.1 fs)) (default_handlers py) []
            (
              handle_math_add-Commits,
              (
                handle_math_add-Commits,
                (
                  handle_math_multiply-Commits,
                  (
                    handle_echo-Commits,
                    (
                      handle_echo-Commits,
                      (
                        handle_sleep-Commits,
                        (
                          handle_sleep-Commits,
                          (handle_fail-Commits, (handle_fail-Commits, (handle_flaky-Commits, tt))),
                        ),
                      ),
                    ),
                  ),
                ),
              ),
            )
            tt
