-- ===== src/Sockets/Stream.antt =====
-- What a client of the dashboard receives over the connections of the subscriber loop.
use distribu_q.Base.{
  ℕ, String, ◌≡◌, refl, sym, ap, ◌∙◌, inl, inr, Bool, true, false, List, [], ◌∷◌, ◌++◌, arith,
  str_eq, ltb, ◌==◌, if◌then◌else◌, ==_iff, Bool-cases, length,
}
use distribu_q.Sockets.Fanout.{IsDistinct, IsDistinct-discard, broadcast_lem}
use distribu_q.Sockets.{
  redis_subscriber_loop, listen, on_message, broadcast, send_each, connection_count, discard_all,
  elem_of, ConnectionManager, Ending, stopped, broken, discard,
}

-- The messages that went out to a socket, the last one first.
abbrev pub received : ℕ → List (ℕ × String) → List String
received v [] = []
received v ((ws, message) ∷ rest) = if ws == v then message ∷ received v rest else received v rest

-- The data of what is a message.
abbrev pub messages_of : List (String × String) → List String
messages_of [] = []
messages_of ((kind, data_) ∷ rest) =
    if str_eq kind "message" then data_ ∷ messages_of rest else messages_of rest

-- The messages up to the end of the task.
abbrev pub heard : List (List (String × String) × Ending) → List String
heard [] = []
heard ((ms, stopped) ∷ rest) = messages_of ms
heard ((ms, broken) ∷ rest) = messages_of ms ++ heard rest

-- The last one first, before those that were there.
abbrev pub newest_first : List String → List String → List String
newest_first [] old = old
newest_first (x ∷ xs) old = newest_first xs (x ∷ old)

newest_first-append :
    (xs ys old : List String) → newest_first (xs ++ ys) old ≡ newest_first ys (newest_first xs old)
newest_first-append [] ys old = refl
newest_first-append (x ∷ xs) ys old = newest_first-append xs ys (x ∷ old)

IsDistinct-discard_all : (us xs : List ℕ) → IsDistinct xs → IsDistinct (discard_all us xs)
IsDistinct-discard_all [] xs d = d
IsDistinct-discard_all (u ∷ us) xs d =
    IsDistinct-discard_all us (discard u xs) (IsDistinct-discard u xs d)

module _ (is_open : ℕ → Bool) (v : ℕ) (open_v : is_open v ≡ true) where
  received-send_out :
      (message : String) (xs : List ℕ) (sent : List (ℕ × String)) (ds : List ℕ)
      → elem_of v xs ≡ false
      → received v (send_each is_open message xs sent ds).0 ≡ received v sent
  unfolding send_each
  received-send_out message [] sent ds out = refl
  received-send_out message (x ∷ xs) sent ds out = elim (Bool-cases (is_open x)) [
    | inl e ↦
        let ne : (x == v) ≡ false = ground arith in
        rw (e, send_each)
          (received-send_out message xs ((x, message) ∷ sent) ds (ground arith) ∙ rw ne refl)
    | inr e ↦ rw (e, send_each) (received-send_out message xs sent _ (ground arith))
  ]

  received-send_each :
      (message : String) (xs : List ℕ) (sent : List (ℕ × String)) (ds : List ℕ)
      → IsDistinct xs
      → elem_of v xs ≡ true
      → received v (send_each is_open message xs sent ds).0 ≡ message ∷ received v sent
  unfolding send_each
  received-send_each message [] sent ds d there = absurd (ground arith)
  received-send_each message (x ∷ xs) sent ds d there = elim (Bool-cases (x == v)) [
    | inl same ↦
        let is : x ≡ v = (==_iff x v).0 same in
        let open_x : is_open x ≡ true = rw is open_v in
        let gone : elem_of v xs ≡ false = rw (sym is) d.0 in
        rw (open_x, send_each)
          (received-send_out message xs ((x, message) ∷ sent) ds gone ∙ rw same refl)
    | inr ne ↦ elim (Bool-cases (is_open x)) [
      | inl e ↦
          rw (e, send_each)
            (received-send_each message xs ((x, message) ∷ sent) ds d.1 (ground arith) ∙ rw ne refl)
      | inr e ↦ rw (e, send_each) (received-send_each message xs sent _ d.1 (ground arith))
    ]
  ]

  -- The client is connected, and no connection is there twice.
  abbrev Connected : ConnectionManager → Type 0
  Connected m = IsDistinct m.connections × (elem_of v m.connections ≡ true)

  -- What one message does for the client.
  abbrev Hears : List String → ConnectionManager → ConnectionManager → Type 0
  Hears ms m m' = Connected m' × (received v m'.sent ≡ newest_first ms (received v m.sent))

  broadcast-Hears :
      (message : String) (m : ConnectionManager)
      → Connected m
      → Hears (message ∷ []) m (broadcast is_open message m)
  unfolding broadcast
  broadcast-Hears message m (d, there) = (
    (
      IsDistinct-discard_all (send_each is_open message m.connections m.sent []).1 m.connections d,
      (broadcast_lem is_open message m d).1 v ∙ rw (there, open_v) refl,
    ),
    received-send_each message m.connections m.sent [] d there,
  )

  on_message-Hears :
      (message : String) (m : ConnectionManager)
      → Connected m
      → Hears (message ∷ []) m (on_message is_open message m)
  unfolding on_message connection_count
  on_message-Hears message m c =
      let some_there : ltb 0 (length m.connections) ≡ true = someone m.connections c.1 in
      rw (some_there, on_message) (broadcast-Hears message m c)
    where
      someone : (xs : List ℕ) → elem_of v xs ≡ true → ltb 0 (length xs) ≡ true
      someone [] there = absurd (ground arith)
      someone (x ∷ xs) there = ground arith

  listen-Hears :
      (ms : List (String × String)) (m : ConnectionManager)
      → Connected m
      → Hears (messages_of ms) m (listen is_open ms m)
  unfolding listen
  listen-Hears [] m c = (c, refl)
  listen-Hears ((kind, data_) ∷ ms) m c = elim (Bool-cases (str_eq kind "message")) [
    | inr e ↦ rw (e, listen) (listen-Hears ms m c)
    | inl e ↦
        let (c1, h) = on_message-Hears data_ m c in
        let (c2, k) = listen-Hears ms (on_message is_open data_ m) c1 in
        rw (e, listen) (c2, k ∙ ap (newest_first (messages_of ms)) h)
  ]

  -- A client that is connected, once, and stays open: however often the subscriber loop loses its
  -- connection to Redis and whichever other sockets are open, the client receives each message that arrives
  -- over these connections, until the task is cancelled, exactly once and in order, and stays
  -- connected.
  pub redis_subscriber_loop_lem :
      (sessions : List (List (String × String) × Ending)) (m : ConnectionManager)
      → IsDistinct m.connections
      → elem_of v m.connections ≡ true
      → let m' = redis_subscriber_loop is_open sessions m in
        (received v m'.sent ≡ newest_first (heard sessions) (received v m.sent))
        × (elem_of v m'.connections ≡ true)
  unfolding redis_subscriber_loop
  redis_subscriber_loop_lem [] m d there = (refl, there)
  redis_subscriber_loop_lem ((ms, stopped) ∷ rest) m d there =
      let (c, h) = listen-Hears ms m (d, there) in (h, c.1)
  redis_subscriber_loop_lem ((ms, broken) ∷ rest) m d there =
      let (c, h) = listen-Hears ms m (d, there) in
      let (k, in_) = redis_subscriber_loop_lem rest (listen is_open ms m) c.0 c.1 in
      (
        k
            ∙ ap (newest_first (heard rest)) h
            ∙ sym (newest_first-append (messages_of ms) (heard rest) (received v m.sent)),
        in_,
      )
