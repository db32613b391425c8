-- ===== src/Bench/Dialing.antt =====
-- benchmark/src/core/HostConnect.go and benchmark/src/bench/RoomCreate.go: the queries with which the
-- load generator joins rooms, and the filling of a room.
use stealthpipe_relay.Prelude.{
  Bool, true, false, Option, none, some, List, [], ◌∷◌, Text, codes, text_key, is_empty,
  if◌then◌else◌,
}
use stealthpipe_relay.Dict.{insert}
use stealthpipe_relay.Types.{Conn}
use stealthpipe_relay.Join.{Values}
use stealthpipe_relay.Bench.Rooms.{
  Benchmarker, get_room_exists, connect_signal, connect_client_to_relay,
}

-- The query of `GetURLSchemeJoin`; the scheme, the host and the path of the address are constants.
unfoldable pub get_url_scheme_join : Bool → Text → Text → Text → Values
get_url_scheme_join is_host game_id request_id version =
    let q = insert (codes "version") version (insert (codes "id") game_id []) in
    let q = if is_host then insert (codes "host") (codes "true") q else q in
    if is_empty request_id then q else insert (codes "request") request_id q

-- What the dialer answers, and what other goroutines do while it dials.
pub record Dial : Type 0 where
  pub meanwhile : Benchmarker → Benchmarker
  pub dialed : Option Conn

-- The loop over the clients of a room, which stops when the room is gone.
unfoldable pub connect_clients : Benchmarker → Text → List Dial → Benchmarker
connect_clients b room_code [] = b
connect_clients b room_code (d ∷ ds) = elim (get_room_exists b room_code) [
  | none ↦ b
  | some ref ↦
      connect_clients (connect_client_to_relay b room_code d.meanwhile d.dialed).0 room_code ds
]

connected : Benchmarker × Bool → Text → List Dial → Benchmarker
unfolding connect_clients
connected (b, false) room_code clients = b
connected (b, true) room_code clients = connect_clients b room_code clients

-- `bench.CreateRoom` after the room has been created: `room_code` is empty where that failed. It dials
-- once for each of the `CLIENTS_PER_ROOM` clients.
unfoldable pub fill_room : Benchmarker → Text → Dial → List Dial → Benchmarker
unfolding connected
fill_room b room_code signal clients =
    if is_empty room_code
    then b
    else connected (connect_signal b room_code signal.meanwhile signal.dialed) room_code clients
