-- ===== src/Json.antt =====
-- JSON documents, as a JSONB column stores them: job payloads, handlers' results and events. A
-- number with a fraction or an exponent is `mantissa * 10 ^ exponent`, which JSONB keeps exactly.
-- A Python dict is its items in insertion order.
use distribu_q.Base.{
  Bool, true, false, not, String, Option, none, some, str_eq, if◌then◌else◌, ◌==◌,
}
use distribu_q.Base.Int.{ℤ, pos}

pub record Decimal : Type 0 where
  pub mantissa : ℤ
  pub exponent : ℤ

mutual
  pub data Json : Type 0 where
    null : Json
    bool : Bool → Json
    int : ℤ → Json
    dec : Decimal → Json
    str : String → Json
    arr : Items → Json
    obj : Fields → Json

  pub data Items : Type 0 where
    nil : Items
    cons : Json → Items → Items

  pub data Fields : Type 0 where
    end : Fields
    field : String → Json → Fields → Fields

-- `d.get(k)`.
unfoldable pub get : String → Fields → Option Json
get k end = none
get k (field j v fs) = if str_eq j k then some v else get k fs

-- `d[k] = v`.
unfoldable pub put : String → Json → Fields → Fields
put k v end = field k v end
put k v (field j w fs) = if str_eq j k then field k v fs else field j w (put k v fs)

-- `{k: v for k, v in d.items() if keep(k)}`.
unfoldable pub filter_keys : (String → Bool) → Fields → Fields
filter_keys keep end = end
filter_keys keep (field k v fs) =
    let rest = filter_keys keep fs in if keep k then field k v rest else rest

-- `bool(v)`.
unfoldable pub truthy : Json → Bool
truthy null = false
truthy (bool b) = b
truthy (int (pos n)) = not (n == 0)
truthy (int _) = true
truthy (dec d) = elim d.mantissa [ pos n ↦ not (n == 0) | _ ↦ true ]
truthy (str s) = not (str_eq s "")
truthy (arr nil) = false
truthy (arr _) = true
truthy (obj end) = false
truthy (obj _) = true
