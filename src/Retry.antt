-- ===== src/Retry.antt =====
-- worker/retry.py. Python's numbers and `random` are not part of the repository: `Number` is their
-- type with the operations that the code uses, and `IsNumber` the laws of them that it relies on.
pub mod Backoff
mod Tests
use distribu_q.Json.{Decimal}
use distribu_q.Result.{Result, ◌>>=◌, ok}
use distribu_q.Base.Int.{pos, negsuc, ℤ}
use distribu_q.Base.{ℕ, ◌-◌, ◌^◌, ◌≡◌, Bool, true, false, ltb, if◌then◌else◌}

pub record Number : Type 1 where
  pub Num : Type 0
  pub lt : Num → Num → Bool
  pub add : Num → Num → Num
  pub mul : Num → Num → Num
  -- A number times an int; OverflowError, where the int does not fit a float, is its refusal.
  pub times_int : Num → ℕ → Result Num
  -- An int, and a float given in decimal notation.
  pub of_int : ℤ → Num
  pub of_decimal : Decimal → Num
  -- random.uniform(a, b), by the state of the generator.
  pub uniform : ℕ → Num → Num → Num
  -- timedelta(seconds=x), in microseconds; OverflowError and ValueError are its refusals.
  pub timedelta : Num → Result ℤ

-- IEEE comparison and arithmetic, not-a-numbers included: what is stated negatively holds of them
-- because no comparison with them is true.
pub record IsNumber (n : Number) : Type 0 where
  pub lt_irrefl : (a : n.Num) → n.lt a a ≡ false
  pub lt_asym : (a b : n.Num) → n.lt a b ≡ true → n.lt b a ≡ false
  pub mul_nonneg :
      (a b : n.Num)
      → n.lt a (n.of_int (pos 0)) ≡ false
      → n.lt b (n.of_int (pos 0)) ≡ false
      → n.lt (n.mul a b) (n.of_int (pos 0)) ≡ false
  pub times_int_nonneg :
      (a x : n.Num) (k : ℕ)
      → n.lt a (n.of_int (pos 0)) ≡ false
      → n.times_int a k ≡ ok x
      → n.lt x (n.of_int (pos 0)) ≡ false
  pub half_nonneg :
      n.lt (n.of_decimal (record { mantissa = pos 5; exponent = negsuc 0 })) (n.of_int (pos 0))
      ≡ false
  pub uniform_ge : (r : ℕ) (a b : n.Num) → n.lt b a ≡ false → n.lt (n.uniform r a b) a ≡ false
  pub add_ge : (a b : n.Num) → n.lt b (n.of_int (pos 0)) ≡ false → n.lt (n.add a b) a ≡ false

module _ (n : Number) where
  open n use {Num, lt, add, mul, times_int, of_int, of_decimal, uniform, timedelta}

  -- Python's `min(a, b)`: the first of the least.
  abbrev pub py_min : Num → Num → Num
  py_min a b = if lt b a then b else a

  abbrev pub half : Num
  half = of_decimal (record { mantissa = pos 5; exponent = negsuc 0 })

  -- `base_delay * (2 ** (attempt - 1))`, with `attempt` at least 1.
  abbrev pub growth : ℕ → Num → Result Num
  growth attempt base = times_int base (2 ^ ((if ltb attempt 1 then 1 else attempt) - 1))

  -- The delay for a growth.
  abbrev pub limited : ℕ → Num → Bool → Num → Num
  limited rand max_delay jitter grown =
      let delay = py_min max_delay grown in
      py_min max_delay
        (if jitter then add delay (uniform rand (of_int (pos 0)) (mul half delay)) else delay)

  unfoldable pub compute_backoff_delay : ℕ → ℕ → Num → Num → Bool → Result Num
  compute_backoff_delay rand attempt base max_delay jitter = do
    grown ← growth attempt base
    ok (limited rand max_delay jitter grown)

  -- now + timedelta(seconds=delay), on microseconds since the epoch; the years 1 to 9999 bound it.
  unfoldable pub compute_next_retry_at : (ℤ → Result ℕ) → ℕ → ℕ → Num → Num → Bool → Result ℕ
  unfolding compute_backoff_delay
  compute_next_retry_at now_plus rand attempt base max_delay jitter = do
    delay ← compute_backoff_delay rand attempt base max_delay jitter
    delta ← timedelta delay
    now_plus delta
