-- ===== src/Recurrence/Grammar.antt =====
-- The interval rules by their grammar: a run of spaces, then days, hours, minutes and seconds, each
-- of them optional, each a run of digits and its letter.
use distribu_q.Result.{◌>>=◌, ok, Result, err}
use mathlib.Core.List.{reverse, append_assoc, reverse-append, reverse-cons, reverse-reverse}
use mathlib.Core.Path.{◌≡⟨◌⟩◌, ◌∎}
use distribu_q.Recurrence.{
  group, units, number_then, is_digit, lower, strip, lstrip, every, parse_interval, is_space,
  to_timedelta, match_interval, parsed, next_run_from_interval, compute_next_run, max_datetime,
  add_delta, compute_stripped,
}
use distribu_q.Base.{
  ℕ, ◌+◌, ◌-◌, ◌*◌, ◌≡◌, refl, true, false, Option, none, some, List, [], ◌∷◌, ◌++◌, arith, ◌==◌,
  All, sym, ap, ◌∙◌, ◌≢◌, ◌⊎◌, inl, inr, ◌≤◌, ◌<◌, Bool, Option-cases,
}

-- A run of digits: the first one and the others.
abbrev pub Digits : Type 0
Digits = ℕ × List ℕ

abbrev pub IsNumeral : Option Digits → Type 0
IsNumeral none = Unit
IsNumeral (some (c, ds)) = (is_digit c ≡ true) × All (λ d. is_digit d ≡ true) ds

-- The number that a run of digits, most significant first, adds to `n`.
abbrev pub value_from : ℕ → List ℕ → ℕ
value_from n [] = n
value_from n (d ∷ ds) = value_from (n * 10 + (d - b'0')) ds

abbrev pub value : Option Digits → ℕ
value none = 0
value (some (c, ds)) = value_from (c - b'0') ds

abbrev pub part : ℕ → Option Digits → List ℕ → List ℕ
part unit none rest = rest
part unit (some (c, ds)) rest = c ∷ ds ++ unit ∷ rest

-- An optional part in front of a text that takes none of its digits.
abbrev IsUnit : ℕ → Type 0
IsUnit u = (is_digit u ≡ false) × (lower u ≡ u)

number_then-hit :
    (u n : ℕ) (ds rest : List ℕ)
    → IsUnit u
    → All (λ d. is_digit d ≡ true) ds
    → number_then u n (ds ++ u ∷ rest) ≡ some (value_from n ds, rest)
unfolding number_then
number_then-hit u n [] rest h all = ground arith
number_then-hit u n (d ∷ ds) rest h all =
    ground (arith, number_then-hit u (n * 10 + (d - b'0')) ds rest h all.1)

number_then-miss :
    (u v n : ℕ) (ds rest : List ℕ)
    → IsUnit v
    → (v == u) ≡ false
    → All (λ d. is_digit d ≡ true) ds
    → number_then u n (ds ++ v ∷ rest) ≡ none
unfolding number_then
number_then-miss u v n [] rest h ne all = ground arith
number_then-miss u v n (d ∷ ds) rest h ne all =
    ground (arith, number_then-miss u v (n * 10 + (d - b'0')) ds rest h ne all.1)

-- A text at which the group of a unit takes nothing.
abbrev Skips : ℕ → List ℕ → Type 0
Skips u s = group u s ≡ (0, s)

Skips-nil : (u : ℕ) → Skips u []
unfolding group
Skips-nil u = refl

Skips-part :
    (u v : ℕ) (p : Option Digits) (rest : List ℕ)
    → IsUnit v
    → (v == u) ≡ false
    → IsNumeral p
    → Skips u rest
    → Skips u (part v p rest)
Skips-part u v none rest h ne d s = s
Skips-part u v (some (c, ds)) rest h ne d s =
    unfold group in ground (arith, number_then-miss u v (c - b'0') ds rest h ne d.1)

group-part :
    (u : ℕ) (p : Option Digits) (rest : List ℕ)
    → IsUnit u
    → IsNumeral p
    → Skips u rest
    → group u (part u p rest) ≡ (value p, rest)
group-part u none rest h d s = s
group-part u (some (c, ds)) rest h d s =
    unfold group in ground (arith, number_then-hit u (c - b'0') ds rest h d.1)

-- A text that ends in no space.
abbrev EndsSolid : List ℕ → Type 0
EndsSolid s = (t : List ℕ) × (z : ℕ) × (is_space z ≡ false) × (s ≡ t ++ z ∷ [])

abbrev Ends : List ℕ → Type 0
Ends s = (s ≡ []) ⊎ EndsSolid s

Ends-part :
    (u : ℕ) (p : Option Digits) (rest : List ℕ)
    → is_space u ≡ false
    → Ends rest
    → Ends (part u p rest)
Ends-part u none rest h e = e
Ends-part u (some (c, ds)) rest h (inl e) = inr (c ∷ ds, u, h, rw e refl)
Ends-part u (some (c, ds)) rest h (inr (t, z, hz, e)) =
    inr (c ∷ ds ++ u ∷ t, z, hz, rw e (ap (λ l. c ∷ l) (sym (append_assoc ds (u ∷ t) (z ∷ [])))))

lstrip-solid : (c : ℕ) (s : List ℕ) → is_space c ≡ false → lstrip (c ∷ s) ≡ c ∷ s
unfolding lstrip
lstrip-solid c s h = ground arith

-- `strip` leaves a text alone that neither begins nor ends with a space.
strip-solid : (c : ℕ) (s : List ℕ) → is_space c ≡ false → EndsSolid (c ∷ s) → strip (c ∷ s) ≡ c ∷ s
unfolding strip
strip-solid c s h (t, z, hz, e) =
    strip (c ∷ s)
    ≡⟨ ap (λ l. reverse (lstrip (reverse l))) (lstrip-solid c s h) ⟩
      reverse (lstrip (reverse (c ∷ s)))
    ≡⟨ ap (λ l. reverse (lstrip l)) (ap reverse e ∙ reverse-append t (z ∷ [])) ⟩
      reverse (lstrip (z ∷ reverse t))
    ≡⟨ ap reverse (lstrip-solid z (reverse t) hz) ⟩ reverse (z ∷ reverse t)
    ≡⟨ reverse-cons z (reverse t) ∙ ap (λ l. l ++ z ∷ []) (reverse-reverse t) ⟩ t ++ z ∷ []
    ≡⟨ sym e ⟩ c ∷ s ∎

-- The text of the four parts.
abbrev pub body : Option Digits → Option Digits → Option Digits → Option Digits → List ℕ
body a b c e = part b'd' a (part b'h' b (part b'm' c (part b's' e [])))

-- The seconds that they stand for.
abbrev pub total : Option Digits → Option Digits → Option Digits → Option Digits → ℕ
total a b c e = value a * 86400 + value b * 3600 + value c * 60 + value e

-- Four groups in a row that reach the end of the text.
units-groups :
    (s s1 s2 s3 : List ℕ) (a b c e : ℕ)
    → group b'd' s ≡ (a, s1)
    → group b'h' s1 ≡ (b, s2)
    → group b'm' s2 ≡ (c, s3)
    → group b's' s3 ≡ (e, [])
    → units s ≡ some (a * 86400 + b * 3600 + c * 60 + e)
unfolding units
units-groups s s1 s2 s3 a b c e p q r t = ground arith

units-body :
    (a b c e : Option Digits)
    → IsNumeral a
    → IsNumeral b
    → IsNumeral c
    → IsNumeral e
    → units (body a b c e) ≡ some (total a b c e)
unfolding units
units-body a b c e da db dc de =
    let s4 : List ℕ = part b's' e [] in
    let s3 : List ℕ = part b'm' c s4 in
    let s2 : List ℕ = part b'h' b s3 in
    let skip_h4 : Skips b'h' s4 = Skips-part b'h' b's' e [] (refl, refl) refl de (Skips-nil b'h') in
    let skip_m4 : Skips b'm' s4 = Skips-part b'm' b's' e [] (refl, refl) refl de (Skips-nil b'm') in
    let skip_d4 : Skips b'd' s4 = Skips-part b'd' b's' e [] (refl, refl) refl de (Skips-nil b'd') in
    let skip_h3 : Skips b'h' s3 = Skips-part b'h' b'm' c s4 (refl, refl) refl dc skip_h4 in
    let skip_d3 : Skips b'd' s3 = Skips-part b'd' b'm' c s4 (refl, refl) refl dc skip_d4 in
    let skip_d2 : Skips b'd' s2 = Skips-part b'd' b'h' b s3 (refl, refl) refl db skip_d3 in
    units-groups (body a b c e) s2 s3 s4 (value a) (value b) (value c) (value e)
      (group-part b'd' a s2 (refl, refl) da skip_d2) (group-part b'h' b s3 (refl, refl) db skip_h3)
      (group-part b'm' c s4 (refl, refl) dc skip_m4)
      (group-part b's' e [] (refl, refl) de (Skips-nil b's'))

lstrip-part :
    (u : ℕ) (p : Option Digits) (rest : List ℕ)
    → IsNumeral p
    → lstrip rest ≡ rest
    → lstrip (part u p rest) ≡ part u p rest
lstrip-part u none rest d h = h
lstrip-part u (some (c, ds)) rest d h = lstrip-solid c (ds ++ u ∷ rest) (ground arith)

lstrip-body :
    (a b c e : Option Digits)
    → IsNumeral a
    → IsNumeral b
    → IsNumeral c
    → IsNumeral e
    → lstrip (body a b c e) ≡ body a b c e
lstrip-body a b c e da db dc de = lstrip-part b'd' a _ da (
    lstrip-part b'h' b _ db
      (lstrip-part b'm' c _ dc (lstrip-part b's' e [] de (unfold lstrip in refl))))

body-Ends : (a b c e : Option Digits) → Ends (body a b c e)
body-Ends a b c e =
    Ends-part b'd' a _ refl
      (Ends-part b'h' b _ refl (Ends-part b'm' c _ refl (Ends-part b's' e [] refl (inl refl))))

-- The keyword, which the pattern takes in either case.
abbrev pub keyword : Bool → List ℕ
keyword true = every
keyword false = b'@' ∷ b'E' ∷ b'V' ∷ b'E' ∷ b'R' ∷ b'Y' ∷ []

-- The text of a rule: the keyword, a space and the parts.
abbrev pub rule_text : Bool → Option Digits → Option Digits → Option Digits → Option Digits → List ℕ
rule_text k a b c e = keyword k ++ b' ' ∷ body a b c e

rule_text-EndsSolid :
    (k : Bool) (a b c e : Option Digits) → body a b c e ≢ [] → EndsSolid (rule_text k a b c e)
rule_text-EndsSolid k a b c e some_part = elim (body-Ends a b c e) [
  | inl none_left ↦ absurd (some_part none_left)
  | inr (t, z, h, p) ↦ (
    keyword k ++ b' ' ∷ t,
    z,
    h,
    ap (λ l. keyword k ++ b' ' ∷ l) p ∙ sym (append_assoc (keyword k) (b' ' ∷ t) (z ∷ [])),
  )
]

strip-rule_text :
    (k : Bool) (a b c e : Option Digits)
    → body a b c e ≢ []
    → strip (rule_text k a b c e) ≡ rule_text k a b c e
strip-rule_text true a b c e h = strip-solid b'@' _ refl (rule_text-EndsSolid true a b c e h)
strip-rule_text false a b c e h = strip-solid b'@' _ refl (rule_text-EndsSolid false a b c e h)

match_interval-keyword :
    (k : Bool) (s : List ℕ) → lstrip s ≡ s → match_interval (keyword k ++ b' ' ∷ s) ≡ units s
unfolding match_interval
match_interval-keyword true s h = ap units h
match_interval-keyword false s h = ap units h

-- A rule of the documented form, `@every` and at least one of days, hours, minutes and seconds in
-- this order, each a numeral and its letter, parses to the duration that it spells; a duration of
-- zero and one of more than 999999999 days are refused. The keyword may be in capitals.
pub parse_interval-rule_text :
    (k : Bool) (a b c e : Option Digits)
    → IsNumeral a
    → IsNumeral b
    → IsNumeral c
    → IsNumeral e
    → body a b c e ≢ []
    → parse_interval (rule_text k a b c e) ≡ to_timedelta (total a b c e)
unfolding parse_interval
parse_interval-rule_text k a b c e da db dc de some_part =
    let found : match_interval (rule_text k a b c e) ≡ some (total a b c e) =
      match_interval-keyword k (body a b c e) (lstrip-body a b c e da db dc de)
      ∙ units-body a b c e da db dc de in
    ap (λ s. parsed (match_interval s)) (strip-rule_text k a b c e some_part) ∙ ap parsed found

to_timedelta-positive : (m n : ℕ) → to_timedelta m ≡ ok (some n) → 0 < n
to_timedelta-positive m n h = ground arith

parse_interval-positive : (rule : List ℕ) (n : ℕ) → parse_interval rule ≡ ok (some n) → 0 < n
unfolding parse_interval
parse_interval-positive rule n h = elim (Option-cases (match_interval (strip rule))) [
  | inl e ↦ cc (ap parsed e)
  | inr (m, e) ↦ to_timedelta-positive m n (sym (ap parsed e) ∙ h)
]

add_delta-later :
    (r : Result (Option ℕ)) (base t : ℕ)
    → ((n : ℕ) → r ≡ ok (some n) → 0 < n)
    → (r >>= add_delta base) ≡ ok t
    → (base < t) × (t ≤ max_datetime)
add_delta-later (err x) base t positive h = cc
add_delta-later (ok none) base t positive h = cc
add_delta-later (ok (some n)) base t positive h = ground (arith, positive n refl)

-- An accepted interval rule puts the next run strictly after its base time, and within the range
-- of a datetime.
pub next_run_from_interval-later :
    (rule : List ℕ) (base t : ℕ)
    → next_run_from_interval rule base ≡ ok t
    → (base < t) × (t ≤ max_datetime)
unfolding next_run_from_interval
next_run_from_interval-later rule base t h =
    add_delta-later (parse_interval rule) base t (parse_interval-positive rule) h

module _ (croniter : List ℕ → ℕ → Result ℕ) (base : ℕ) (a b c e : Option Digits) (da : IsNumeral a)
    (db : IsNumeral b) (dc : IsNumeral c) (de : IsNumeral e) (some_part : body a b c e ≢ []) where
  -- `compute_next_run` adds the duration of a rule in small letters to the base time, and hands the
  -- same rule in capitals, which `parse_interval` reads alike, to the cron parser.
  pub compute_next_run-keyword :
      (compute_next_run croniter (rule_text true a b c e) base
        ≡ (to_timedelta (total a b c e) >>= add_delta base))
      × (compute_next_run croniter (rule_text false a b c e) base
          ≡ croniter (rule_text false a b c e) base)
  unfolding compute_next_run
  compute_next_run-keyword = (
    ap (λ s. compute_stripped croniter s base) (strip-rule_text true a b c e some_part)
        ∙ ap (λ r. r >>= add_delta base)
            (parse_interval-rule_text true a b c e da db dc de some_part),
    ap (λ s. compute_stripped croniter s base) (strip-rule_text false a b c e some_part),
  )
