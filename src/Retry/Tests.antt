-- ===== src/Retry/Tests.antt =====
-- The backoff at concrete numbers: tenths of a second.
use distribu_q.Json.{Decimal}
use distribu_q.Retry.{Number, compute_backoff_delay}
use distribu_q.Base.Int.{pos, negsuc, ℤ, pos_part}
use distribu_q.Base.{
  ℕ, ◌+◌, ◌-◌, ◌*◌, ◌/◌, ◌%◌, ◌≡◌, refl, false, [], ◌∷◌, map, ltb, ◌^◌, if◌then◌else◌,
}
use distribu_q.Result.{ok, overflow_error, err}

abbrev tenths : ℤ → ℕ
tenths (pos k) = k * 10
tenths (negsuc k) = 0

-- Only one half is needed of the numbers in decimal notation.
abbrev half_or_whole : Decimal → ℕ
half_or_whole d = elim d.exponent [ pos _ ↦ tenths d.mantissa | negsuc _ ↦ pos_part d.mantissa ]

abbrev tenth_numbers : Number
tenth_numbers = record {
  Num = ℕ;
  lt = ltb;
  add = ◌+◌;
  mul = λ a b. a * b / 10;
  times_int = λ a k. if ltb k (2 ^ 1024) then ok (a * k) else err overflow_error;
  of_int = tenths;
  of_decimal = half_or_whole;
  uniform = λ r a b. a + r % (b - a + 1);
  timedelta = λ x. ok (pos (x * 100000));
}

-- 1 s, 2 s, 4 s, …, at most 5 minutes, and no float for 2 ^ 1024.
delays :
    map (λ k. compute_backoff_delay tenth_numbers 0 k 10 3000 false) (1 ∷ 2 ∷ 3 ∷ 12 ∷ 1025 ∷ [])
    ≡ ok 10 ∷ ok 20 ∷ ok 40 ∷ ok 3000 ∷ err overflow_error ∷ []
unfolding compute_backoff_delay
delays = refl
