-- ===== src/Sockets/Tests.antt =====
-- Three connections, of which the second is gone.
use distribu_q.Sockets.Stream.{received, redis_subscriber_loop_lem}
use distribu_q.Sockets.{ConnectionManager, elem_of, stopped, broken, Ending, redis_subscriber_loop}
use distribu_q.Base.{[], ◌∷◌, ℕ, ◌≡◌, refl, Bool, not, ◌==◌, String, true, List}

abbrev three : ConnectionManager
three = record { connections = 1 ∷ 2 ∷ 3 ∷ []; sent = [] }

abbrev not_two : ℕ → Bool
not_two n = not (n == 2)

-- The connection breaks after one message, and the task is stopped in the next one.
abbrev sessions : List (List (String × String) × Ending)
sessions =
    (("subscribe", "1") ∷ ("message", "a") ∷ [], broken)
    ∷ (("message", "b") ∷ [], stopped)
    ∷ (("message", "c") ∷ [], stopped)
    ∷ []

redis_subscriber_loop_lem_example :
    let m' = redis_subscriber_loop not_two sessions three in
    (received 1 m'.sent ≡ "b" ∷ "a" ∷ []) × (elem_of 1 m'.connections ≡ true)
redis_subscriber_loop_lem_example =
    redis_subscriber_loop_lem not_two 1 refl sessions three (refl, (refl, (refl, tt))) refl
