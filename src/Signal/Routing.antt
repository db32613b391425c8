-- ===== src/Signal/Routing.antt =====
-- How signal messages find their way between a host and its clients.
use stealthpipe_relay.Prelude.{
  ℕ, Bool, true, false, not, ◌||◌, none, some, [], ◌∷◌, Text, nat_key, text_key, nat_beq, ◌≡◌, ◌≢◌,
  ◌↔◌, arith,
}
use stealthpipe_relay.Dict.{lookup}
use stealthpipe_relay.Types.{Conn, RoomRef, Server}
use stealthpipe_relay.Signal.{handle_signal_packet, handle_signal_packet_from_client, type_byte}

-- A message of the host to an id that no client has used is dropped.
pub handle_signal_packet-unknown :
    (app : Server) (ref : RoomRef) (conn : Conn) (game_id : Text) (u id : ℕ) (rest : Text)
    → lookup game_id app.rooms ≡ some ref
    → lookup id (app.heap ref).webrtc_handshake_connections ≡ none
    → u ≢ 1
    → handle_signal_packet app (u ∷ id ∷ rest) conn game_id ≡ []
unfolding handle_signal_packet type_byte
handle_signal_packet-unknown app ref conn game_id u id rest room absent u1 = ground arith

-- The message has a first byte, which is none of the types that the handler answers or drops.
abbrev pub is_forwarded : Text → Bool
is_forwarded [] = false
is_forwarded (t ∷ rest) = not (nat_beq t 1 || (nat_beq t 2 || nat_beq t 4))

-- The message of a client in a room makes the relay panic exactly when the room's host is nil, as it
-- is in a room that a reuse token has made anew, and the message is one to forward.
pub handle_signal_packet_from_client_panics :
    (app : Server) (ref : RoomRef) (conn : Conn) (game_id message : Text)
    → lookup game_id app.rooms ≡ some ref
    → (handle_signal_packet_from_client app message conn game_id ≡ none)
      ↔ (((app.heap ref).host ≡ none) × (is_forwarded message ≡ true))
unfolding handle_signal_packet_from_client type_byte
handle_signal_packet_from_client_panics app ref conn game_id [] room = ground arith
handle_signal_packet_from_client_panics app ref conn game_id (t ∷ rest) room = ground arith
