-- ===== src/Join/Host.antt =====
-- Hosts that join a room through `HandleRelay`.
use stealthpipe_relay.Prelude.{ℕ, true, false, none, some, [], ◌∷◌, text_key, is_empty, ◌≡◌, arith}
use stealthpipe_relay.Dict.{lookup}
use stealthpipe_relay.Types.{Conn, RoomRef, Server, close}
use stealthpipe_relay.Types.Reasons.{CloseReason}
use stealthpipe_relay.Join.{Request, host_signal, join_room}

module _ (r : Request) (hosts : is_empty r.host ≡ false) (plain : is_empty r.request ≡ true) where
  -- A host that joins a room without one becomes its host, is counted, and is served.
  pub join_room-first_host :
      (app : Server) (ref : RoomRef) (conn : Conn) (now : ℕ)
      → lookup r.id app.rooms ≡ some ref
      → (app.heap ref).host ≡ none
      → let (app', effects, session) = join_room app r conn now in
        ((app'.heap ref).host ≡ some conn)
        × ((app'.heap ref).has_host ≡ true)
        × (app'.rooms ≡ app.rooms)
        × (effects ≡ [])
        × (session ≡ some host_signal)
  unfolding join_room
  join_room-first_host app ref conn now found free = ground arith

  -- A host that joins a room which has one is turned away, and the room keeps its host: no handler
  -- takes a room over this way, whatever connection, address or instant it comes with.
  pub join_room-second_host :
      (app : Server) (ref : RoomRef) (conn host : Conn) (now : ℕ)
      → lookup r.id app.rooms ≡ some ref
      → (app.heap ref).host ≡ some host
      → let (app', effects, session) = join_room app r conn now in
        ((k : RoomRef) → app'.heap k ≡ app.heap k)
        × (app'.rooms ≡ app.rooms)
        × (app'.number_of_clients_connected ≡ app.number_of_clients_connected)
        × (effects ≡ close conn CloseReason.invalid_action ∷ [])
        × (session ≡ none)
  unfolding join_room
  join_room-second_host app ref conn host now found taken = ground arith
