-- ===== src/Lifecycle/Sections.antt =====
-- The writes of a room's maps one lock at a time: `clientRelayHandler` registers a client in two
-- critical sections, and `HandleRelay` links a host connection in three. The sections of different
-- handlers may come in any order. The room's time of filling, an atomic value, is left out.
use stealthpipe_relay.Prelude.{
  ℕ, Option, none, some, Text, nat_key, text_key, nat_beq, if◌then◌else◌, ◌≡◌,
}
use stealthpipe_relay.Dict.{lookup, insert, delete}
use stealthpipe_relay.Types.{Conn, Room}
use stealthpipe_relay.Create.{new_room}

-- `RequestedConnectionsMapMutex`: a client's request is stored.
abbrev pub ask : Room → Text → Conn → Room
ask room request client = record room {
  requested_connections = insert request client room.requested_connections;
}

-- `ClientsToHostConnectionsMutex`: a client has an entry without a connection.
abbrev pub enter : Room → Conn → Room
enter room client = record room { clients_to_host = insert client none room.clients_to_host }

-- `RequestedConnectionsMapMutex`: a host connection takes a request off the map, if it is there.
unfoldable pub take : Room → Text → Option (Conn × Room)
take room request = elim (lookup request room.requested_connections) [
  | none ↦ none
  | some client ↦
      some
        (client, record room { requested_connections = delete request room.requested_connections })
]

-- `ClientsToHostConnectionsMutex`: the client's entry, if there is one, names the connection.
unfoldable pub name_conn : Room → Conn → Conn → Option Room
name_conn room client conn = elim (lookup client room.clients_to_host) [
  | none ↦ none
  | some _ ↦ some (record room { clients_to_host = insert client (some conn) room.clients_to_host })
]

-- `HostToClientsConnectionsMutex`: the connection's entry names the client.
abbrev pub name_client : Room → Conn → Conn → Room
name_client room client conn = record room {
  host_to_clients = insert conn client room.host_to_clients;
}

-- How far a connection has come. A client asks with a request, and then has an entry and waits. A
-- host connection takes the request of a client, has its name in the client's entry, and is linked.
pub data Phase : Type 0 where
  idle : Phase
  asking : Text → Phase
  waiting : Text → Phase
  taking : Text → Conn → Phase
  linking : Conn → Phase
  linked : Conn → Phase
  refused : Phase

-- A room, and the place of each connection that may join it in its handler.
pub record State : Type 0 where
  pub room : Room
  pub at : Conn → Phase

-- A new room, which no connection has joined.
abbrev pub beginning : ℕ → State
beginning now = record { room = new_room now; at = λ conn. idle }

abbrev pub move : State → Conn → Phase → Room → State
move s conn phase room = record {
  room = room;
  at = λ other. if nat_beq conn other then phase else s.at other;
}

-- One critical section, of the handler of any connection.
pub data Section (s : State) : State → Type 0 where
  asks :
      (request : Text) (client : Conn)
      → s.at client ≡ idle
      → Section s (move s client (asking request) (ask s.room request client))
  enters :
      (request : Text) (client : Conn)
      → s.at client ≡ asking request
      → Section s (move s client (waiting request) (enter s.room client))
  takes :
      (request : Text) (conn client : Conn) (room : Room)
      → s.at conn ≡ idle
      → take s.room request ≡ some (client, room)
      → Section s (move s conn (taking request client) room)
  finds_no_request :
      (request : Text) (conn : Conn)
      → s.at conn ≡ idle
      → take s.room request ≡ none
      → Section s (move s conn refused s.room)
  names_conn :
      (request : Text) (conn client : Conn) (room : Room)
      → s.at conn ≡ taking request client
      → name_conn s.room client conn ≡ some room
      → Section s (move s conn (linking client) room)
  finds_no_client :
      (request : Text) (conn client : Conn)
      → s.at conn ≡ taking request client
      → name_conn s.room client conn ≡ none
      → Section s (move s conn refused s.room)
  names_client :
      (conn client : Conn)
      → s.at conn ≡ linking client
      → Section s (move s conn (linked client) (name_client s.room client conn))
  -- A client that gives up its wait deletes its request, whoever has stored or taken it by then.
  gives_up :
      (request : Text)
      → Section s (record {
        room = record s.room {
          requested_connections = delete request s.room.requested_connections;
        };
        at = s.at;
      })

pub data Run (s : State) : State → Type 0 where
  begun : Run s s
  further : {t u : State} → Run s t → Section t u → Run s u
