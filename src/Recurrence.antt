-- ===== src/Recurrence.antt =====
-- worker/recurrence.py. A rule is its list of code points; of the characters that Python's `\s`,
-- `\d` and `str.strip` know, the ASCII ones are modelled. `croniter` is a parameter: what its first
-- `get_next` from a base time gives for a rule, or the exception that it raises.
pub mod Grammar
mod Tests
use distribu_q.Schema.{seconds}
use mathlib.Core.List.{reverse}
use distribu_q.Base.{
  ℕ, ◌+◌, ◌-◌, ◌*◌, ◌/◌, Bool, true, false, ◌&&◌, ◌||◌, Option, none, some, List, [], ◌∷◌, ltb, leb,
  ◌==◌, if◌then◌else◌,
}
use distribu_q.Result.{overflow_error, value_error, err, ok, Result, ◌>>=◌}

abbrev pub is_space : ℕ → Bool
is_space c = (leb 9 c && leb c 13) || (leb 28 c && leb c 32)

abbrev pub is_digit : ℕ → Bool
is_digit c = leb b'0' c && leb c b'9'

abbrev pub lower : ℕ → ℕ
lower c = if leb b'A' c && leb c b'Z' then c + 32 else c

unfoldable pub lstrip : List ℕ → List ℕ
lstrip [] = []
lstrip (c ∷ s) = let rest = lstrip s in if is_space c then rest else c ∷ s

-- `rule.strip()`.
unfoldable pub strip : List ℕ → List ℕ
unfolding lstrip
strip s = reverse (lstrip (reverse (lstrip s)))

-- `@every` at the start, in either case; the rest of the text.
unfoldable pub match_prefix : List ℕ → List ℕ → Option (List ℕ)
match_prefix [] s = some s
match_prefix (p ∷ ps) [] = none
match_prefix (p ∷ ps) (c ∷ s) = let rest = match_prefix ps s in if lower c == p then rest else none

-- `startswith`.
unfoldable pub starts_with : List ℕ → List ℕ → Bool
starts_with [] s = true
starts_with (p ∷ ps) [] = false
starts_with (p ∷ ps) (c ∷ s) = c == p && starts_with ps s

abbrev pub every : List ℕ
every = b'@' ∷ b'e' ∷ b'v' ∷ b'e' ∷ b'r' ∷ b'y' ∷ []

-- `\s+`: one space, and the others.
unfoldable pub skip_spaces : List ℕ → Option (List ℕ)
unfolding lstrip
skip_spaces [] = none
skip_spaces (c ∷ s) = if is_space c then some (lstrip s) else none

-- A run of digits in front of the unit letter; `int` of it, and the text behind the letter.
unfoldable pub number_then : ℕ → ℕ → List ℕ → Option (ℕ × List ℕ)
number_then unit n [] = none
number_then unit n (c ∷ s) =
    let more = number_then unit (n * 10 + (c - b'0')) s in
    if is_digit c then more else if lower c == unit then some (n, s) else none

-- `(?:(\d+)u)?` with `int(m.group(…) or 0)`: a group that does not match takes nothing.
unfoldable pub group : ℕ → List ℕ → ℕ × List ℕ
unfolding number_then
group unit [] = (0, [])
group unit (c ∷ s) =
    if is_digit c
    then elim (number_then unit (c - b'0') s) [ none ↦ (0, c ∷ s) | some p ↦ p ]
    else (0, c ∷ s)

-- The groups of `_INTERVAL_RE`, as seconds; the text must end with them.
unfoldable pub units : List ℕ → Option ℕ
unfolding group
units s =
    let (days, s1) = group b'd' s in
    let (hours, s2) = group b'h' s1 in
    let (minutes, s3) = group b'm' s2 in
    let (secs, s4) = group b's' s3 in
    elim s4 [ [] ↦ some (days * 86400 + hours * 3600 + minutes * 60 + secs) | _ ∷ _ ↦ none ]

unfoldable pub match_interval : List ℕ → Option ℕ
unfolding match_prefix skip_spaces units
match_interval s = elim (match_prefix every s) [
  | none ↦ none
  | some rest ↦ elim (skip_spaces rest) [ none ↦ none | some body ↦ units body ]
]

-- A timedelta holds fewer than 10 ^ 9 days.
abbrev pub max_days : ℕ
max_days = 999999999

abbrev pub to_timedelta : ℕ → Result (Option ℕ)
to_timedelta total =
    if ltb max_days (total / 86400)
    then err overflow_error
    else if total == 0
    then err value_error
    else ok (some total)

abbrev pub parsed : Option ℕ → Result (Option ℕ)
parsed none = ok none
parsed (some total) = to_timedelta total

-- The seconds of an interval rule, `none` for a rule of another form.
unfoldable pub parse_interval : List ℕ → Result (Option ℕ)
unfolding strip match_interval
parse_interval rule = parsed (match_interval (strip rule))

-- The last microsecond of the year 9999, where datetimes end.
abbrev pub max_datetime : ℕ
max_datetime = 253402300799999999

abbrev pub add_delta : ℕ → Option ℕ → Result ℕ
add_delta base none = err value_error
add_delta base (some total) =
    if ltb max_datetime (base + seconds total)
    then err overflow_error
    else ok (base + seconds total)

-- `base` is `after or datetime.now(timezone.utc)`.
unfoldable pub next_run_from_interval : List ℕ → ℕ → Result ℕ
unfolding parse_interval
next_run_from_interval rule base = do delta ← parse_interval rule; add_delta base delta

module _ (croniter : List ℕ → ℕ → Result ℕ) where
  unfoldable pub next_run_from_cron : List ℕ → ℕ → Result ℕ
  next_run_from_cron rule base = croniter rule base

  -- The choice of a calculator, for a rule without spaces at its ends.
  unfoldable pub compute_stripped : List ℕ → ℕ → Result ℕ
  unfolding next_run_from_interval next_run_from_cron starts_with
  compute_stripped [] base = err value_error
  compute_stripped (c ∷ s) base =
      if starts_with every (c ∷ s)
      then next_run_from_interval (c ∷ s) base
      else next_run_from_cron (c ∷ s) base

  unfoldable pub compute_next_run : List ℕ → ℕ → Result ℕ
  unfolding compute_stripped
  compute_next_run rule base = compute_stripped (strip rule) base

  unfoldable pub is_valid_recurrence_rule : List ℕ → ℕ → Bool
  unfolding compute_next_run
  is_valid_recurrence_rule rule now = elim (compute_next_run rule now) [
    | err _ ↦ false
    | ok _ ↦ true
  ]
