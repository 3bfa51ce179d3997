-- ===== src/Recurrence/Tests.antt =====
-- Recurrence rules at concrete texts.
use distribu_q.Recurrence.Grammar.{
  body, Digits, rule_text, next_run_from_interval-later, parse_interval-rule_text,
  compute_next_run-keyword,
}
use distribu_q.Recurrence.{
  max_datetime, parse_interval, compute_next_run, next_run_from_interval, to_timedelta, add_delta,
}
use distribu_q.Base.{
  ℕ, ◌+◌, ◌≤◌, ◌<◌, ◌≡◌, refl, ◌≢◌, true, false, Option, none, some, List, [], ◌∷◌, codes,
}
-- A cron parser that accepts every rule, an hour later.
use distribu_q.Result.{◌>>=◌, value_error, err, ok, Result}

abbrev hourly : List ℕ → ℕ → Result ℕ
hourly rule base = ok (base + 3600000000)

-- "30", as digits.
abbrev thirty : Option Digits
thirty = some (b'3', b'0' ∷ [])

abbrev one : Option Digits
one = some (b'1', [])

half_past : body none one thirty none ≢ []
half_past e = cc

parse_interval-rule_text_example :
    parse_interval (rule_text true none one thirty none) ≡ ok (some 5400)
parse_interval-rule_text_example =
    parse_interval-rule_text true none one thirty none tt (refl, tt) (refl, (refl, tt)) tt half_past

in_an_hour_and_a_half :
    next_run_from_interval (rule_text true none one thirty none) 1000 ≡ ok 5400001000
unfolding next_run_from_interval
in_an_hour_and_a_half = refl

next_run_from_interval-later_example : (1000 < 5400001000) × (5400001000 ≤ max_datetime)
next_run_from_interval-later_example =
    next_run_from_interval-later (rule_text true none one thirty none) 1000 5400001000
      in_an_hour_and_a_half

compute_next_run-keyword_example :
    (compute_next_run hourly (rule_text true none one thirty none) 1000
      ≡ (to_timedelta 5400 >>= add_delta 1000))
    × (compute_next_run hourly (rule_text false none one thirty none) 1000
        ≡ hourly (rule_text false none one thirty none) 1000)
compute_next_run-keyword_example =
    compute_next_run-keyword hourly 1000 none one thirty none tt (refl, tt) (refl, (refl, tt)) tt
      half_past

no_units : parse_interval (codes "@every 5") ≡ ok none
unfolding parse_interval
no_units = refl

zero_interval : parse_interval (codes " @every  0h0m ") ≡ err value_error
unfolding parse_interval
zero_interval = refl
