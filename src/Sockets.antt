-- ===== src/Sockets.antt =====
-- api/ws_manager.py: the connections of the dashboard, and the fan-out of events to them. A
-- WebSocket is a number; a set of them is a list without repetitions.
pub mod Fanout
pub mod Stream
mod Tests
use distribu_q.Base.{
  ℕ, String, Bool, false, ◌||◌, List, [], ◌∷◌, ltb, ◌==◌, if◌then◌else◌, length, str_eq,
}

-- `self._connections`, and the messages that went out, the last one first.
pub record ConnectionManager : Type 0 where
  pub connections : List ℕ
  pub sent : List (ℕ × String)

abbrev pub elem_of : ℕ → List ℕ → Bool
elem_of v [] = false
elem_of v (x ∷ xs) = (x == v) || elem_of v xs

-- `set.add` and `set.discard`.
unfoldable pub add : ℕ → List ℕ → List ℕ
add v xs = if elem_of v xs then xs else v ∷ xs

unfoldable pub discard : ℕ → List ℕ → List ℕ
discard v [] = []
discard v (x ∷ xs) = if x == v then xs else x ∷ discard v xs

-- `connect`, once the socket is accepted.
unfoldable pub connect : ℕ → ConnectionManager → ConnectionManager
unfolding add
connect ws m = record m { connections = add ws m.connections }

unfoldable pub disconnect : ℕ → ConnectionManager → ConnectionManager
unfolding discard
disconnect ws m = record m { connections = discard ws m.connections }

abbrev pub discard_all : List ℕ → List ℕ → List ℕ
discard_all [] xs = xs
discard_all (v ∷ vs) xs = discard_all vs (discard v xs)

-- Whether `send_text` to a socket succeeds is `is_open`.
module _ (is_open : ℕ → Bool) where
  -- The loop over `list(self._connections)`: what goes out, and the set `dead`.
  unfoldable pub send_each :
      String → List ℕ → List (ℕ × String) → List ℕ → List (ℕ × String) × List ℕ
  unfolding add
  send_each message [] sent dead_ = (sent, dead_)
  send_each message (ws ∷ rest) sent dead_ =
      send_each message rest (if is_open ws then (ws, message) ∷ sent else sent)
        (if is_open ws then dead_ else add ws dead_)

  unfoldable pub broadcast : String → ConnectionManager → ConnectionManager
  unfolding send_each
  broadcast message m =
      let (sent, dead_) = send_each message m.connections m.sent [] in
      record { connections = discard_all dead_ m.connections; sent = sent }

unfoldable pub connection_count : ConnectionManager → ℕ
connection_count m = length m.connections

-- `redis_subscriber_loop`, for one message of the channel.
unfoldable pub on_message : (ℕ → Bool) → String → ConnectionManager → ConnectionManager
unfolding broadcast connection_count
on_message is_open message m = if ltb 0 (connection_count m) then broadcast is_open message m else m

-- One connection of `redis_subscriber_loop` to the channel: the type and the data of what arrives.
unfoldable pub listen : (ℕ → Bool) → List (String × String) → ConnectionManager → ConnectionManager
unfolding on_message
listen is_open [] m = m
listen is_open ((kind, data_) ∷ rest) m =
    listen is_open rest (if str_eq kind "message" then on_message is_open data_ m else m)

-- How a connection to the channel ends: the task is cancelled, or anything raises or the stream
-- stops.
pub data Ending : Type 0 where
  stopped broken : Ending

-- `redis_subscriber_loop`, connection after connection.
unfoldable pub redis_subscriber_loop :
    (ℕ → Bool) → List (List (String × String) × Ending) → ConnectionManager → ConnectionManager
unfolding listen
redis_subscriber_loop is_open [] m = m
redis_subscriber_loop is_open ((messages, stopped) ∷ rest) m = listen is_open messages m
redis_subscriber_loop is_open ((messages, broken) ∷ rest) m =
    redis_subscriber_loop is_open rest (listen is_open messages m)
