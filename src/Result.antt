-- ===== src/Result.antt =====
-- What a Python function returns or raises. Only the exceptions that the code tells apart, or that
-- a statement about it names, have a constructor of their own.
use distribu_q.Base.{ℕ, String, ◌≡◌, refl, ◌⊎◌, inl, inr}

pub data Exn : Type 0 where
  unique_violation foreign_key_violation numeric_out_of_range : Exn
  connection_error type_error overflow_error value_error : Exn
  key_error : String → Exn
  runtime_error : String → Exn
  http : ℕ → Exn

pub data Result {ℓ} (A : Type ℓ) : Type ℓ where
  err : Exn → Result A
  ok : A → Result A

-- An exception skips the rest.
infixl 10 ◌>>=◌
abbrev pub ◌>>=◌ {ℓ κ} : {A : Type ℓ} {B : Type κ} → Result A → (A → Result B) → Result B
err x >>= next = err x
ok a >>= next = next a

-- To split on a computed result and keep the equation.
pub Result-cases {ℓ} :
    {A : Type ℓ} (r : Result A) → ((x : Exn) × (r ≡ err x)) ⊎ ((a : A) × (r ≡ ok a))
Result-cases (err x) = inl (x, refl)
Result-cases (ok a) = inr (a, refl)
