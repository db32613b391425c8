-- ===== src/Bench/Rooms.antt =====
-- benchmark/src/core (Benchmarker.go, BenchmarkerUtils.go, RoomCreation.go, HostConnect.go,
-- HostToRelayConnect.go, ClientToRelayConnect.go, Cleanup.go) and benchmark/src/bench/RoomCreate.go:
-- the rooms that the load generator keeps.
use stealthpipe_relay.Prelude.{
  ℕ, suc, Bool, true, false, Option, none, some, List, [], ◌∷◌, ◌++◌, Text, text_key, nat_beq,
  is_empty, if◌then◌else◌,
}
use stealthpipe_relay.Dict.{Dict, lookup, insert, delete}
use stealthpipe_relay.Types.{Conn, Ptr, RoomRef}
use stealthpipe_relay.Bench.Solver.{solve_from}
use stealthpipe_relay.Bench.Tokens.{TokenPayload, decode_jwt_payload}

pub record Room : Type 0 where
  pub game_id : Text
  pub host : Ptr
  pub clients : List Conn
  pub host_connections : List Conn
  pub packets_per_second_clients_to_host : ℕ
  pub packets_per_second_host_to_clients : ℕ

unfoldable pub new_room : Text → Room
new_room game_id = record {
  game_id = game_id;
  host = none;
  clients = [];
  host_connections = [];
  packets_per_second_clients_to_host = 0;
  packets_per_second_host_to_clients = 0;
}

-- As for the relay, the map leads to addresses, since a handler keeps the pointer to its room.
pub record Benchmarker : Type 0 where
  pub rooms : Dict Text RoomRef
  pub heap : RoomRef → Room
  pub next_ref : RoomRef
  pub host_to_clients_bytes_per_message : ℕ
  pub client_to_host_bytes_per_message : ℕ
  pub packets_counter_sent : ℕ
  pub packets_counter_recv : ℕ
  pub pps_sent : ℕ
  pub pps_recv : ℕ

abbrev pub new_benchmarker : Benchmarker
new_benchmarker = record {
  rooms = [];
  heap = λ ref. new_room [];
  next_ref = 0;
  host_to_clients_bytes_per_message = 1;
  client_to_host_bytes_per_message = 1;
  packets_counter_sent = 0;
  packets_counter_recv = 0;
  pps_sent = 0;
  pps_recv = 0;
}

unfoldable pub get_room_exists : Benchmarker → Text → Option RoomRef
get_room_exists b game_id = lookup game_id b.rooms

abbrev pub put_room : Benchmarker → RoomRef → Room → Benchmarker
put_room b ref room = record b { heap = λ r. if nat_beq ref r then room else b.heap r }

-- `ConnectSignal`: `dialed` is the connection of the dialer, or its error, and `meanwhile` is what the
-- other goroutines do while it dials.
unfoldable pub connect_signal :
    Benchmarker → Text → (Benchmarker → Benchmarker) → Option Conn → Benchmarker × Bool
unfolding get_room_exists
connect_signal b game_id meanwhile dialed = elim (get_room_exists b game_id) [
  | none ↦ (b, false)
  | some ref ↦ elim dialed [
    | none ↦ (meanwhile b, false)
    | some conn ↦
        let b' = meanwhile b in (put_room b' ref (record (b'.heap ref) { host = some conn }), true)
  ]
]

-- `CreateHostToRelayConnection`
unfoldable pub create_host_to_relay_connection :
    Benchmarker → Text → (Benchmarker → Benchmarker) → Option Conn → Benchmarker
unfolding get_room_exists
create_host_to_relay_connection b game_id meanwhile dialed = elim (get_room_exists b game_id) [
  | none ↦ b
  | some ref ↦ elim dialed [
    | none ↦ meanwhile b
    | some conn ↦
        let b' = meanwhile b in
        let room = b'.heap ref in
        put_room b' ref (record room { host_connections = room.host_connections ++ conn ∷ [] })
  ]
]

-- `ConnectClientToRelay`: its loops get the connection and the room; the room is not written.
unfoldable pub connect_client_to_relay :
    Benchmarker → Text → (Benchmarker → Benchmarker) → Option Conn → Benchmarker × Option Conn
unfolding get_room_exists
connect_client_to_relay b game_id meanwhile dialed = elim (get_room_exists b game_id) [
  | none ↦ (b, none)
  | some ref ↦ (meanwhile b, dialed)
]

-- The end of `HandleRoomCleanup`: a host that is nil makes it panic.
unfoldable pub close_room : Benchmarker → Text → Room → Ptr → Option (Benchmarker × List Conn)
close_room b game_id room none = none
close_room b game_id room (some host) = some (
  record b { rooms = delete game_id b.rooms },
  room.clients ++ room.host_connections ++ host ∷ [],
)

-- `HandleRoomCleanup`, with the connections that it closes. Without the room it reads through a nil
-- pointer, since there is no return after the test: the panic is `none`.
unfoldable pub handle_room_cleanup : Benchmarker → Text → Option (Benchmarker × List Conn)
unfolding get_room_exists close_room
handle_room_cleanup b game_id = elim (get_room_exists b game_id) [
  | none ↦ none
  | some ref ↦ close_room b game_id (b.heap ref) (b.heap ref).host
]

-- What the relay answers: the token and the salt of `/pow`, with an error of the transfer or the
-- decoding, and the message of `/create`; `unmarshal` is `json.Unmarshal` of the claims of a token.
pub record Relay : Type 0 where
  pub proof_of_work : Option (Text × Text)
  pub unmarshal : Text → Option TokenPayload
  pub created : Text → ℕ → Option Text

-- `CreateRoomAndGetCode`
unfoldable pub create_room_and_get_code : Relay → Text → ℕ → Text
create_room_and_get_code relay pow_token nonce = elim (relay.created pow_token nonce) [
  | none ↦ []
  | some message ↦ message
]

unfoldable pub add_room : Benchmarker → Text → Benchmarker × Text
unfolding new_room
add_room b room_code = if is_empty room_code then (b, []) else (
  record b {
    rooms = insert room_code b.next_ref b.rooms;
    heap = λ r. if nat_beq b.next_ref r then new_room room_code else b.heap r;
    next_ref = suc b.next_ref;
  },
  room_code,
)

module _ (sha256 : Text → List ℕ) (relay : Relay) where
  -- `CreateRoom`; `none` means that the search for a nonce has not ended within the fuel.
  solved : Benchmarker → Text → Option ℕ → Option (Benchmarker × Text)
  unfolding add_room create_room_and_get_code
  solved b token none = none
  solved b token (some nonce) = some (add_room b (create_room_and_get_code relay token nonce))

  challenged : Benchmarker → ℕ → Option (Text × Text) → Option (Benchmarker × Text)
  unfolding solved
  challenged b fuel none = some (b, [])
  challenged b fuel (some (token, salt)) =
      if is_empty token
      then some (b, [])
      else solved b token
          (solve_from sha256 fuel 0 salt (decode_jwt_payload relay.unmarshal token).diff)

  unfoldable pub create_room : Benchmarker → ℕ → Option (Benchmarker × Text)
  unfolding challenged
  create_room b fuel = challenged b fuel relay.proof_of_work
