-- ===== src/World.antt =====
-- What the processes share and one of them sees: the database, Redis, the clock, the events that
-- were published, and the process's own counter. A method is an action on it that may raise; what
-- was written before an exception stays written.
pub mod Loops
use distribu_q.Schema.{Db}
use distribu_q.Json.{Fields, Json}
use distribu_q.Redis.{Redis}
use distribu_q.Base.{ℕ, String, Bool, List, [], ◌∷◌, if◌then◌else◌}
use distribu_q.Result.{connection_error, err, ok, Exn, Result}

-- The envelope of api/events.py.
pub record Event : Type 0 where
  pub event : String
  pub timestamp : ℕ
  pub payload : Fields

pub record World : Type 0 where
  pub db : Db
  pub redis : Redis
  -- Whether Redis answers. While it does not, each command raises a ConnectionError.
  pub redis_up : Bool
  pub now : ℕ
  pub published : List Event
  -- The workers to which a kill command was published.
  pub kills : List String
  -- `self.jobs_processed` of the worker.
  pub jobs_processed : ℕ
  -- What gen_random_uuid() and the random generator give next.
  pub fresh : ℕ
  pub rand : ℕ
  -- `_FLAKY_ATTEMPTS` of the worker's process, in insertion order.
  pub flaky_attempts : List (Json × ℕ)

abbrev pub Exec {ℓ} : Type ℓ → Type ℓ
Exec A = World → Result A × World

abbrev pub Action : Type 0
Action = Exec (Unit {0})

module _ {ℓ κ} {A : Type ℓ} {B : Type κ} where
  abbrev pub continue : (A → Exec B) → Result A → Exec B
  continue next (err x) w = (err x, w)
  continue next (ok a) w = next a w

  infixl 5 ◌>>=◌
  abbrev pub ◌>>=◌ : Exec A → (A → Exec B) → Exec B
  ◌>>=◌ m next w = continue next (m w).0 (m w).1

infixl 5 ◌>>◌
abbrev pub ◌>>◌ {ℓ κ} : {A : Type ℓ} {B : Type κ} → Exec A → Exec B → Exec B
m >> next = m >>= λ _. next

module _ {ℓ} {A : Type ℓ} where
  abbrev pub pure : A → Exec A
  pure a w = (ok a, w)

  abbrev pub raise : Exn → Exec A
  raise x w = (err x, w)

  abbrev pub lift : Result A → Exec A
  lift r w = (r, w)

  abbrev pub gets : (World → A) → Exec A
  gets f w = (ok (f w), w)

  -- `try … except Exception as x: …`.
  abbrev pub recover : (Exn → Exec A) → Result A → Exec A
  recover handle (err x) w = handle x w
  recover handle (ok a) w = (ok a, w)

  abbrev pub catch : Exec A → (Exn → Exec A) → Exec A
  catch m handle w = recover handle (m w).0 (m w).1

  -- `try … finally …`: an exception of the last part replaces the result of the first.
  abbrev pub conclude : Result A → Result (Unit {0}) → Result A
  conclude r (err x) = err x
  conclude r (ok _) = r

  abbrev pub finally : Exec A → Action → Exec A
  finally m last w = (conclude (m w).0 (last (m w).1).0, (last (m w).1).1)

  -- A transaction at the present time.
  abbrev pub query : (World → Db → Db × A) → Exec A
  query f w = (ok (f w w.db).1, record w { db = (f w w.db).0 })

  abbrev pub commit_result : Result (Db × A) → Exec A
  commit_result (err x) w = (err x, w)
  commit_result (ok (db, a)) w = (ok a, record w { db = db })

  -- A transaction that may be refused, and is rolled back then.
  abbrev pub try_query : (World → Db → Result (Db × A)) → Exec A
  try_query f w = commit_result (f w w.db) w

  -- Redis commands.
  abbrev pub command : (Redis → Redis × A) → Exec A
  command f w =
      if w.redis_up
      then (ok (f w.redis).1, record w { redis = (f w.redis).0 })
      else (err connection_error, w)

abbrev pub update : (World → Db → Db) → Action
update f w = (ok tt, record w { db = f w w.db })

abbrev pub try_update : (World → Db → Result Db) → Action
try_update f = try_query (λ w db. elim (f w db) [ err x ↦ err x | ok db' ↦ ok (db', tt) ])

abbrev pub command_ : (Redis → Redis) → Action
command_ f = command (λ r. (f r, tt))

-- `for a in …: …`; an exception ends the loop.
abbrev pub for_each {ℓ} : {A : Type ℓ} → (A → Action) → List A → Action
for_each f [] w = (ok tt, w)
for_each f (a ∷ rest) w = continue (λ _. for_each f rest) (f a w).0 (f a w).1

-- `try: … except Exception: …`, where the exception is logged and dropped.
abbrev pub attempt : Action → Action
attempt m = catch m (λ _. pure tt)
