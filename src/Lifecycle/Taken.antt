-- ===== src/Lifecycle/Taken.antt =====
-- What the guarded sections of a link have found, and what they leave.
use stealthpipe_relay.Prelude.{none, some, Text, nat_key, text_key, ◌≡◌, ◌≢◌, arith}
use stealthpipe_relay.Dict.{lookup, insert, delete}
use stealthpipe_relay.Types.{Conn, Room}
use stealthpipe_relay.Lifecycle.Sections.{take, name_conn}

-- A request that is taken was stored, and leaves the map.
pub take-taken :
    (room room' : Room) (request : Text) (client : Conn)
    → take room request ≡ some (client, room')
    → (lookup request room.requested_connections ≡ some client)
      × (room' ≡ record room { requested_connections = delete request room.requested_connections })
unfolding take
take-taken room room' request client e = ground arith

-- A client that is named a connection had an entry.
pub name_conn-named :
    (room room' : Room) (client conn : Conn)
    → name_conn room client conn ≡ some room'
    → (lookup client room.clients_to_host ≢ none)
      × (room' ≡ record room { clients_to_host = insert client (some conn) room.clients_to_host })
unfolding name_conn
name_conn-named room room' client conn e = ground arith
