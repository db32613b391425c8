-- ===== src/Join.antt =====
-- src/core/ConnectionsCreate.go and CoreFuncs.go: the `/join` endpoint.
pub mod Version
pub mod Host
pub mod Refused
pub mod Guard
use stealthpipe_relay.Prelude.{
  ℕ, ◌+◌, Bool, true, false, not, ◌&&◌, Option, none, some, List, [], ◌∷◌, Text, codes, nat_key,
  text_key, is_empty, ltb, if◌then◌else◌,
}
use stealthpipe_relay.Dict.{Dict, lookup, insert, delete}
use stealthpipe_relay.Types.{
  Conn, Ptr, RoomRef, Room, Server, ServerConfig, set_room, Effect, close, unix_milli, add64,
}
use stealthpipe_relay.Types.Reasons.{CloseReason}

-- The parameters of the query, and the address of the peer.
pub record Request : Type 0 where
  pub id : Text
  pub host : Text
  pub request : Text
  pub version : Text
  pub signal : Text
  pub remote_addr : Text

-- `url.Values` with one value for each key. `Get` of a missing key is empty.
abbrev pub Values : Type 0
Values = Dict Text Text

abbrev or_missing : Option Text → Text
or_missing none = []
or_missing (some value) = value

unfoldable pub get_value : Values → Text → Text
get_value params key = or_missing (lookup key params)

-- The query of a request, as the handler reads it.
unfoldable pub request_of : Values → Text → Request
unfolding get_value
request_of params remote_addr = record {
  id = get_value params (codes "id");
  host = get_value params (codes "host");
  request = get_value params (codes "request");
  version = get_value params (codes "version");
  signal = get_value params (codes "signal");
  remote_addr = remote_addr;
}

-- The loop that serves the connection from here on.
pub data Session : Type 0 where
  host_signal client_signal client_relay host_relay : Session

-- `GetRoomExists`
unfoldable pub get_room_exists : Server → Text → Option RoomRef
get_room_exists app room_id = lookup room_id app.rooms

-- `major` is `semver.NewVersion` with `Major`; `none` is its error. The result is why the client is
-- refused, if it is.
module _ (major : Text → Option ℕ) where
  unfoldable pub compare_majors : Option ℕ → Option ℕ → Option CloseReason
  compare_majors none version = some CloseReason.internal_error
  compare_majors (some relay) none = some CloseReason.invalid_version
  compare_majors (some relay) (some version) =
      if ltb relay version
      then some CloseReason.unsupported_client
      else if ltb version relay
      then some CloseReason.outdated_client
      else none

  unfoldable pub check_version : ServerConfig → Text → Option CloseReason
  unfolding compare_majors
  check_version config version =
      if is_empty version
      then some CloseReason.outdated_client
      else compare_majors (major config.relay_version) (major version)

-- The first look at the room, under the read lock: why the connection is refused, if it is.
unfoldable pub missing_room : Server → Text → Text → CloseReason
missing_room app room_id host =
    if is_empty host
    then elim (lookup room_id app.recently_deleted_rooms) [
      | none ↦ CloseReason.room_not_found
      | some _ ↦ CloseReason.room_recently_closed
    ]
    else CloseReason.room_not_found

unfoldable pub check_room : Server → Text → Text → Option CloseReason
unfolding missing_room
check_room app room_id host =
    if is_empty room_id then some CloseReason.bad_request else elim (lookup room_id app.rooms) [
      | none ↦ some (missing_room app room_id host)
      | some _ ↦ none
    ]

-- A host connection that answers a request: it is paired with the client that waits. The request
-- is taken off the map before the client is looked up.
unfoldable pub link_client : Room → Conn → Conn → ℕ → Room × Option CloseReason
link_client room client conn now = elim (lookup client room.clients_to_host) [
  | none ↦ (room, some CloseReason.pair_link_failed)
  | some _ ↦ (
    record room {
      clients_to_host = insert client (some conn) room.clients_to_host;
      host_to_clients = insert conn client room.host_to_clients;
      last_room_filled_time = unix_milli now;
    },
    none,
  )
]

unfoldable pub link_request : Room → Text → Conn → ℕ → Room × Option CloseReason
unfolding link_client
link_request room request conn now = elim (lookup request room.requested_connections) [
  | none ↦ (room, some CloseReason.invalid_request_id)
  | some client ↦
      link_client
        (record room { requested_connections = delete request room.requested_connections }) client
        conn now
]

-- A host that joins: a room has one host.
unfoldable pub set_host : Room → Conn → Text → ℕ → Room × Option CloseReason
set_host room conn remote_addr now = elim room.host [
  | some _ ↦ (room, some CloseReason.invalid_action)
  | none ↦ (
    record room {
      host = some conn;
      host_ip = remote_addr;
      has_host = true;
      last_room_filled_time = unix_milli now;
    },
    none,
  )
]

-- A change of the room that a code leads to, under the locks; a missing room refuses.
unfoldable pub in_room :
    Server → Text → (Room → Room × Option CloseReason) → Server × Option CloseReason
in_room app room_id change = elim (lookup room_id app.rooms) [
  | none ↦ (app, some CloseReason.room_not_found)
  | some ref ↦ let (room, refusal) = change (app.heap ref) in (set_room app ref room, refusal)
]

-- The end of the handler: a refused connection is closed, another is served.
abbrev pub refuse : Server → Conn → CloseReason → Server × List Effect × Option Session
refuse app conn reason = (app, close conn reason ∷ [], none)

abbrev pub serve :
    Server × Option CloseReason → Conn → Session → Server × List Effect × Option Session
serve (app, some reason) conn session = refuse app conn reason
serve (app, none) conn session = (app, [], some session)

-- `app.NumberOfClientsConnected.Add(1)`, for all but the connections that answer a request
abbrev pub count_client : Server → Server
count_client app = record app {
  number_of_clients_connected = add64 app.number_of_clients_connected 1;
}

abbrev pub counted : Server × Option CloseReason → Server × Option CloseReason
counted (app, some reason) = (app, some reason)
counted (app, none) = (count_client app, none)

unfoldable pub join_room : Server → Request → Conn → ℕ → Server × List Effect × Option Session
unfolding in_room link_request set_host
join_room app r conn now =
    if is_empty r.host
    then serve (count_client app, none) conn
        (if is_empty r.signal then client_relay else client_signal)
    else if is_empty r.request
    then serve (counted (in_room app r.id (λ room. set_host room conn r.remote_addr now))) conn
        host_signal
    else serve (in_room app r.id (λ room. link_request room r.request conn now)) conn host_relay

-- `HandleRelay` after the upgrade to the connection `conn`. `meanwhile` is what other handlers do
-- between the first look at the room and the joining.
module _ (major : Text → Option ℕ) where
  unfoldable pub handle_relay :
      Server → (Server → Server) → Request → Conn → ℕ → Server × List Effect × Option Session
  handle_relay app meanwhile r conn now = elim (check_version major app.config r.version) [
    | some reason ↦ refuse app conn reason
    | none ↦ elim (check_room app r.id r.host) [
      | some reason ↦ refuse app conn reason
      | none ↦ join_room (meanwhile app) r conn now
    ]
  ]
