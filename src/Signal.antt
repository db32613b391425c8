-- ===== src/Signal.antt =====
-- src/core/ConnectionsSignalFromHost.go, ConnectionsSignalFromClient.go and SignalMessagingTypes.go:
-- the signal connections, over which a host and its clients agree on a direct connection.
pub mod Routing
pub mod Loops
use stealthpipe_relay.Prelude.{
  ℕ, ◌+◌, Bool, true, false, not, Option, none, some, List, [], ◌∷◌, ◌++◌, Text, length, nat_key,
  text_key, ltb, nat_beq, if◌then◌else◌,
}
use stealthpipe_relay.Dict.{Dict, lookup, insert}
use stealthpipe_relay.Types.{
  Conn, Ptr, RoomRef, Room, Server, ServerConfig, set_room, Effect, write,
}
use stealthpipe_relay.Types.Reasons.{CloseReason}
use stealthpipe_relay.ClientRelay.Forward.{CopyError, copy_failed}

-- The message types, which count up from 0.
pub data MessageType : Type 0 where
  idle ping pong webrtc_handshake_message webrtc_connection_established : MessageType
  webrtc_request_connection webrtc_connection_failed webrtc_connection_ready : MessageType

unfoldable pub type_byte : MessageType → ℕ
type_byte MessageType.idle = 0
type_byte MessageType.ping = 1
type_byte MessageType.pong = 2
type_byte MessageType.webrtc_handshake_message = 3
type_byte MessageType.webrtc_connection_established = 4
type_byte MessageType.webrtc_request_connection = 5
type_byte MessageType.webrtc_connection_failed = 6
type_byte MessageType.webrtc_connection_ready = 7

abbrev pub is_type : ℕ → MessageType → Bool
unfolding type_byte
is_type byte t = nat_beq byte (type_byte t)

abbrev pub pong_message : Text
unfolding type_byte
pong_message = type_byte MessageType.pong ∷ []

-- `otherSignConn.WriteMessage`, if the connection id is known
unfoldable pub forward_to : Option Conn → Text → List Effect
forward_to none message = []
forward_to (some other) message = write other message ∷ []

-- The second byte names the client.
unfoldable pub to_client : Room → Text → List Effect
unfolding forward_to
to_client room [] = []
to_client room (packet_type ∷ []) = []
to_client room (packet_type ∷ client_id ∷ rest) =
    forward_to (lookup client_id room.webrtc_handshake_connections) (packet_type ∷ client_id ∷ rest)

unfoldable pub host_packet_in : Room → Text → Conn → List Effect
unfolding to_client
host_packet_in room [] conn = []
host_packet_in room (packet_type ∷ rest) conn =
    if is_type packet_type MessageType.ping
    then write conn pong_message ∷ []
    else if is_type packet_type MessageType.pong
    then []
    else to_client room (packet_type ∷ rest)

-- `HandleSignalPacket`
unfoldable pub handle_signal_packet : Server → Text → Conn → Text → List Effect
unfolding host_packet_in
handle_signal_packet app message conn game_id = elim (lookup game_id app.rooms) [
  | none ↦ []
  | some ref ↦ host_packet_in (app.heap ref) message conn
]

-- `room.WebRTCHandshakeConnectionsMap[clientId] = conn`, if there is a second byte
unfoldable pub assign_client : Room → Text → Conn → Room
assign_client room [] conn = room
assign_client room (packet_type ∷ []) conn = room
assign_client room (packet_type ∷ client_id ∷ rest) conn = record room {
  webrtc_handshake_connections = insert client_id conn room.webrtc_handshake_connections;
}

-- The message goes to the host. `none` is the panic of a write to a host that is nil.
unfoldable pub to_host : Room → Text → Conn → Ptr → Option (Room × List Effect)
unfolding assign_client
to_host room message conn none = none
to_host room message conn (some host) =
    some (assign_client room message conn, write host message ∷ [])

unfoldable pub client_packet_in : Room → Text → Conn → Option (Room × List Effect)
unfolding to_host
client_packet_in room [] conn = some (room, [])
client_packet_in room (packet_type ∷ rest) conn =
    if is_type packet_type MessageType.ping
    then some (room, write conn pong_message ∷ [])
    else if is_type packet_type MessageType.pong
    then some (room, [])
    else if is_type packet_type MessageType.webrtc_connection_established
    then some (room, [])
    else to_host room (packet_type ∷ rest) conn room.host

abbrev pub put_room : Server → RoomRef → Option (Room × List Effect) → Option (Server × List Effect)
put_room app ref none = none
put_room app ref (some (room, effects)) = some (set_room app ref room, effects)

-- `HandleSignalPacketFromClient`
unfoldable pub handle_signal_packet_from_client :
    Server → Text → Conn → Text → Option (Server × List Effect)
unfolding client_packet_in
handle_signal_packet_from_client app message conn game_id = elim (lookup game_id app.rooms) [
  | none ↦ some (app, [])
  | some ref ↦ put_room app ref (client_packet_in (app.heap ref) message conn)
]

-- What one call of `NextReader` leads to: of a binary message the bytes that the read returned, with
-- its error and the answer of the limiter.
pub data Frame : Type 0 where
  read_error : Frame
  not_binary : Frame
  binary : (bytes : Text) (error : CopyError) (allowed : Bool) → Frame

pub data Round : Type 0 where
  skip : Round
  packet : Text → Round
  stop : CloseReason → Round

-- The tests of a round, which both loops make. The test for an error after the one for the size can
-- no longer hold.
unfoldable pub signal_round : ℕ → Frame → Round
unfolding copy_failed
signal_round maximum read_error = stop CloseReason.socket_read_failed
signal_round maximum not_binary = skip
signal_round maximum (binary bytes error allowed) =
    if copy_failed error
    then stop CloseReason.socket_read_failed
    else if ltb maximum (length bytes)
    then stop CloseReason.packet_too_large
    else if not allowed
    then stop CloseReason.connection_high_usage
    else packet bytes
