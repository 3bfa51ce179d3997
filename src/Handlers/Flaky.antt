-- ===== src/Handlers/Flaky.antt =====
-- The flaky handler, called again and again.
use mathlib.Core.Path.{subst}
use distribu_q.World.{World}
use distribu_q.Handlers.Defaults.{
  Builtins, count_at, set_count, handle_flaky, argument, count_attempt, settle_flaky,
}
use distribu_q.Base.Int.{pos}
use distribu_q.Base.{
  ℕ, zero, suc, ◌+◌, ◌<◌, String, ◌≡◌, refl, ◌∙◌, inl, inr, Bool, true, List, [], ◌∷◌, arith, ltb,
  Bool-cases,
}
use distribu_q.Result.{runtime_error, err, ok, Result}
use distribu_q.Json.{int, str, obj, Json, Fields}

module _ (same : Json → Json → Bool) (key : Json) (n : ℕ) where
  count_at-set_count :
      (cs : List (Json × ℕ)) → same key key ≡ true → count_at same key (set_count same key n cs) ≡ n
  unfolding count_at set_count
  count_at-set_count [] e = rw e refl
  count_at-set_count ((k, m) ∷ cs) e = elim (Bool-cases (same k key)) [
    | inl hit ↦ rw (hit, hit) refl
    | inr miss ↦ rw (miss, miss) (count_at-set_count cs e)
  ]

module _ (py : Builtins) (fs : Fields) where
  abbrev pub task_key : Json
  task_key = argument "task_key" (str "default") fs

  -- The world after `n` calls.
  unfoldable pub calls : ℕ → World → World
  unfolding handle_flaky
  calls zero w = w
  calls (suc n) w = calls n (handle_flaky py fs w).1

  -- One call, where the threshold is the number `top`.
  abbrev pub Flaked : ℕ → ℕ → Result Json → Type 0
  Flaked top n (err x) = (n < top) × ((m : String) × (x ≡ runtime_error m))
  Flaked top n (ok v) = ¬ (n < top) × ((r : Fields) × (v ≡ obj r))

  module _ (top : ℕ) (keys : py.hashable task_key ≡ true)
      (same : py.same_key task_key task_key ≡ true)
      (less : (n : ℕ)
        → py.less n (argument "fail_until_attempt" (int (pos 2)) fs) ≡ ok (ltb n top)) where
    handle_flaky-once :
        (w : World)
        → let n = count_at py.same_key task_key w.flaky_attempts in
          (Flaked top (n + 1) (handle_flaky py fs w).0)
          × (count_at py.same_key task_key (handle_flaky py fs w).1.flaky_attempts ≡ n + 1)
    unfolding handle_flaky count_attempt settle_flaky
    handle_flaky-once w =
        let n = count_at py.same_key task_key w.flaky_attempts in
        let kept = count_at-set_count py.same_key task_key (n + 1) w.flaky_attempts same in
        elim (Bool-cases (ltb (n + 1) top)) [
          | inl early ↦ rw (keys, less (n + 1), early) ((ground arith, (_, refl)), kept)
          | inr late ↦ rw (keys, less (n + 1), late) ((ground arith, (_, refl)), kept)
        ]

    -- In a process that has not seen the task key, the call number `k + 1` raises a RuntimeError while that number is below
    -- the threshold, and returns a dict from then on.
    pub handle_flaky-recovers :
        (k m : ℕ) (w : World)
        → count_at py.same_key task_key w.flaky_attempts ≡ m
        → Flaked top (m + k + 1) (handle_flaky py fs (calls k w)).0
    unfolding calls
    handle_flaky-recovers zero m w e =
        subst (λ n. Flaked top n (handle_flaky py fs w).0) (omega (arith, e))
          (handle_flaky-once w).0
    handle_flaky-recovers (suc k) m w e =
        subst (λ n. Flaked top n (handle_flaky py fs (calls (suc k) w)).0) (omega arith)
          (handle_flaky-recovers k (m + 1) (handle_flaky py fs w).1
            ((handle_flaky-once w).1 ∙ omega (arith, e)))
