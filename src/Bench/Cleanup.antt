-- ===== src/Bench/Cleanup.antt =====
-- What a cleanup of the load generator closes.
use stealthpipe_relay.Prelude.{
  Option, none, some, List, [], ◌∷◌, ◌++◌, Text, text_key, ◌≡◌, refl, arith,
}
use stealthpipe_relay.Dict.{lookup, delete}
use stealthpipe_relay.Dict.Laws.{lookup-delete_self}
use stealthpipe_relay.Types.{Conn, RoomRef}
use stealthpipe_relay.Bench.Rooms.{
  new_room, Benchmarker, new_benchmarker, connect_signal, create_host_to_relay_connection,
  connect_client_to_relay, handle_room_cleanup, close_room, add_room, get_room_exists,
}

-- What the goroutines of the generator do to its rooms. A dialing that other goroutines overtake is
-- its second part, a step on the address it holds.
pub data Step (b : Benchmarker) : Benchmarker → Type 0 where
  adds : (room_code : Text) → Step b (add_room b room_code).0
  signals :
      (game_id : Text) (dialed : Option Conn) → Step b (connect_signal b game_id (λ s. s) dialed).0
  answers :
      (game_id : Text) (dialed : Option Conn)
      → Step b (create_host_to_relay_connection b game_id (λ s. s) dialed)
  joins :
      (game_id : Text) (dialed : Option Conn)
      → Step b (connect_client_to_relay b game_id (λ s. s) dialed).0
  cleans :
      (game_id : Text) (b' : Benchmarker) (closed : List Conn)
      → handle_room_cleanup b game_id ≡ some (b', closed)
      → Step b b'

pub data Reach : Benchmarker → Type 0 where
  start : Reach new_benchmarker
  later : {s t : Benchmarker} → Reach s → Step s t → Reach t

abbrev NoClients : Benchmarker → Type 0
NoClients b = (ref : RoomRef) → (b.heap ref).clients ≡ []

Step-NoClients : {s t : Benchmarker} → Step s t → NoClients s → NoClients t
unfolding add_room new_room connect_signal create_host_to_relay_connection connect_client_to_relay
    handle_room_cleanup close_room
Step-NoClients {s} (adds code) v = λ ref. ground (arith, v ref)
Step-NoClients {s} (signals game_id dialed) v = λ ref. ground (arith, v ref)
Step-NoClients {s} (answers game_id dialed) v = λ ref. ground (arith, v ref)
Step-NoClients {s} (joins game_id dialed) v = λ ref. ground (arith, v ref)
Step-NoClients {s} (cleans game_id b' closed e) v = λ ref. ground (arith, v ref)

Reach-NoClients : {b : Benchmarker} → Reach b → NoClients b
unfolding new_room
Reach-NoClients start = λ ref. refl
Reach-NoClients (later r st) = Step-NoClients st (Reach-NoClients r)

-- Whatever the generator has done, the cleanup of a room with a host closes the host connections of the
-- room and the host, and no client: the list of clients is never filled. A second cleanup of the
-- same code panics.
pub handle_room_cleanup_once :
    {b : Benchmarker} (game_id : Text) (ref : RoomRef) (host : Conn)
    → Reach b
    → lookup game_id b.rooms ≡ some ref
    → (b.heap ref).host ≡ some host
    → let b' = record b { rooms = delete game_id b.rooms } in
      (handle_room_cleanup b game_id ≡ some (b', (b.heap ref).host_connections ++ host ∷ []))
      × (handle_room_cleanup b' game_id ≡ none)
unfolding handle_room_cleanup close_room get_room_exists
handle_room_cleanup_once {b} game_id ref host r room hosted =
    (ground (arith, Reach-NoClients r ref), ground (arith, lookup-delete_self game_id b.rooms))
