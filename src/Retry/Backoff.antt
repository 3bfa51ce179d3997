-- ===== src/Retry/Backoff.antt =====
-- The bounds of the backoff delay.
use distribu_q.Result.{err, ok, Result}
use distribu_q.Retry.{Number, IsNumber, py_min, growth, half, limited}
use distribu_q.Base.Int.{pos}
use distribu_q.Base.{ℕ, ◌-◌, ◌^◌, ◌≡◌, inl, inr, true, false, arith, ltb, if◌then◌else◌, Bool-cases}

module _ (n : Number) (laws : IsNumber n) where
  open n use {Num, lt, add, mul, of_int, uniform}

  abbrev zero_num : Num
  zero_num = of_int (pos 0)

  -- A delay is never more than `max_delay`; a refusal is that of the multiplication.
  abbrev pub IsLimited : ℕ → Num → Num → Result Num → Type 0
  IsLimited attempt base max_delay (ok d) = lt max_delay d ≡ false
  IsLimited attempt base max_delay (err x) = growth n attempt base ≡ err x

  min_nonneg :
      (a b : Num)
      → lt a zero_num ≡ false
      → lt b zero_num ≡ false
      → lt (py_min n a b) zero_num ≡ false
  min_nonneg a b ha hb = elim (Bool-cases (lt b a)) [ inl e ↦ rw e hb | inr e ↦ rw e ha ]

  -- A larger second argument does not make `min` less.
  min_mono :
      (m g d : Num)
      → lt d (py_min n m g) ≡ false
      → lt (py_min n m d) (py_min n m (py_min n m g)) ≡ false
  min_mono m g d h = elim (Bool-cases (lt g m)) [
    | inl e ↦ ground (arith, laws.lt_asym g m e)
    | inr e ↦ ground (arith, laws.lt_irrefl m)
  ]

  -- With a base delay and a limit that are not negative, the jitter never makes the delay less than
  -- it would be without.
  pub limited-jitter :
      (rand attempt : ℕ) (base max_delay g : Num)
      → lt base (of_int (pos 0)) ≡ false
      → lt max_delay (of_int (pos 0)) ≡ false
      → growth n attempt base ≡ ok g
      → lt (limited n rand max_delay true g) (limited n rand max_delay false g) ≡ false
  limited-jitter rand attempt base max_delay g hb hm e =
      let delay : Num = py_min n max_delay g in
      let positive : lt delay zero_num ≡ false =
        min_nonneg max_delay g hm
          (laws.times_int_nonneg base g (2 ^ ((if ltb attempt 1 then 1 else attempt) - 1)) hb e) in
      min_mono max_delay g _ (
        laws.add_ge delay _ (
          laws.uniform_ge rand zero_num _
            (laws.mul_nonneg (half n) delay laws.half_nonneg positive)))
