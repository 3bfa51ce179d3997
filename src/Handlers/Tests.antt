-- ===== src/Handlers/Tests.antt =====
-- The default handlers at concrete payloads.
use distribu_q.Redis.{no_keys}
use distribu_q.Schema.{empty}
use distribu_q.Handlers.Results.{IsDict, Returns, entry_of, handle_math_lem}
use distribu_q.World.{World}
use distribu_q.Handlers.Defaults.{Builtins, handle_math_add, handle_math_multiply}
use distribu_q.Base.Int.{pos, pos_part, negsuc}
use distribu_q.Base.{refl, Bool, [], str_eq, ltb, String, ◌||◌, not}
use distribu_q.Result.{type_error, err, ok}
use distribu_q.Json.{int, str, end, field, get, Fields, Json}

abbrev pub python : Builtins
python = record {
  int_of = λ v. elim v [ int i ↦ ok i | _ ↦ err type_error ];
  Float = Json;
  float_of = ok;
  json_of_float = λ v. v;
  sleep = λ s w. (ok tt, w);
  text_of = λ v. elim v [ str s ↦ s | _ ↦ "value" ];
  hashable = λ v. Bool.true;
  same_key =
      λ u v. elim u [ str s ↦ elim v [ str t ↦ str_eq s t | _ ↦ Bool.false ] | _ ↦ Bool.false ];
  less = λ n v. elim v [ int i ↦ ok (ltb n (pos_part i)) | _ ↦ err type_error ];
}

abbrev idle : World
idle = record {
  db = empty;
  redis = no_keys;
  redis_up = Bool.true;
  now = 0;
  published = [];
  kills = [];
  jobs_processed = 0;
  fresh = 0;
  rand = 0;
  flaky_attempts = [];
}

-- A payload with both arguments, and a key of its own.
abbrev sum_request : Fields
sum_request = field "a" (int (pos 3)) (field "b" (int (negsuc 4)) (field "note" (str "x") end))

sum_request-IsDict : IsDict sum_request
unfolding get
sum_request-IsDict = (refl, (refl, (refl, tt)))

handle_math_lem_example :
    let keep = λ (k : String). not (str_eq k "a" || str_eq k "b") in
    Returns python sum_request idle sum_request-IsDict
      (handle_math_add python)
      (entry_of "sum" (int (negsuc 1)) keep sum_request)
    × Returns python sum_request idle sum_request-IsDict
        (handle_math_multiply python)
        (entry_of "product" (int (negsuc 14)) keep sum_request)
unfolding get
handle_math_lem_example =
    handle_math_lem python sum_request idle sum_request-IsDict (int (pos 3)) (int (negsuc 4))
      (pos 3) (negsuc 4) refl refl refl refl
