-- ===== src/Handlers.antt =====
-- worker/handlers/registry.py. A handler is an action of the process that runs it: while it runs,
-- time passes and other processes work, so it may change the world in any way.
pub mod Defaults
pub mod Results
pub mod Flaky
pub mod Objects
pub mod Tests
use distribu_q.World.{Exec}
use distribu_q.Base.{String, ◌≡◌, refl, List, [], ◌∷◌, arith, str_eq, eq_iff, if◌then◌else◌}
use distribu_q.Result.{type_error, key_error, err, ok, Result}
use distribu_q.Json.{obj, Fields, Json}

abbrev pub HandlerFunc : Type 0
HandlerFunc = Fields → Exec Json

-- `_REGISTRY`, in the order of registration.
abbrev pub Registry : Type 0
Registry = List (String × HandlerFunc)

-- A second registration of a type takes the place of the first.
unfoldable pub register_handler : String → HandlerFunc → Registry → Registry
register_handler job_type fn [] = (job_type, fn) ∷ []
register_handler job_type fn ((t, f) ∷ rest) =
    if str_eq t job_type then (job_type, fn) ∷ rest else (t, f) ∷ register_handler job_type fn rest

unfoldable pub get_handler : String → Registry → Result HandlerFunc
get_handler job_type [] = err (key_error job_type)
get_handler job_type ((t, f) ∷ rest) = if str_eq t job_type then ok f else get_handler job_type rest

-- `fn(**payload)` wants a mapping; a coroutine is awaited, which makes no difference here.
unfoldable pub execute_handler : HandlerFunc → Json → Exec Json
execute_handler fn (obj fs) w = fn fs w
execute_handler fn _ w = (err type_error, w)

-- After a registration the type has the new handler, and every other type the one it had.
pub get_handler-register_handler :
    (k j : String) (fn : HandlerFunc) (r : Registry)
    → get_handler j (register_handler k fn r) ≡ (if str_eq k j then ok fn else get_handler j r)
unfolding get_handler register_handler
get_handler-register_handler k j fn [] = refl
get_handler-register_handler k j fn ((t, f) ∷ rest) =
    ground (arith, eq_iff k j, eq_iff t k, eq_iff t j, get_handler-register_handler k j fn rest)
