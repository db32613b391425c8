-- ===== src/Lifecycle.antt =====
-- The life of rooms and of the server as steps, and a run is any sequence of them. A step of the server
-- is a critical section of a handler or a tick of a task; a `RoomStep` of a room by itself is a whole
-- registration or a whole link.
pub mod Rooms
pub mod Servers
pub mod Registry
pub mod View
pub mod Refinement
pub mod Idle
pub mod Hosts
pub mod Rendezvous
pub mod Served
pub mod Sections
pub mod Taken
pub mod Orderly
pub mod Linked
pub mod Uninterrupted
use stealthpipe_relay.Prelude.{
  ℕ, Bool, Option, none, some, List, [], ◌∷◌, Text, nat_key, text_key, ◌≡◌,
}
use stealthpipe_relay.Dict.{lookup, delete}
use stealthpipe_relay.Types.{Conn, RoomRef, Room, Server, set_room, unix_milli}
use stealthpipe_relay.Types.Reasons.{CloseReason}
use stealthpipe_relay.Cleanup.{handle_cleanup}
use stealthpipe_relay.Tasks.{
  clean_unused_rooms, clean_idle_rooms, clean_recently_deleted_room_reasons,
}
use stealthpipe_relay.Monitor.{monitor_traffic, stats_pps_tick, count_packet}
use stealthpipe_relay.Create.{create_room, new_room}
use stealthpipe_relay.Join.{link_request, set_host, count_client}
use stealthpipe_relay.ClientRelay.{register}
use stealthpipe_relay.ClientRelay.Wait.{drop_request}
use stealthpipe_relay.Signal.{assign_client}
use Sections.{ask, enter, take, name_conn, name_client}

-- What handlers do to one room. The connection that joins a map is new to it, since every
-- connection is served once.
pub data RoomStep (room : Room) : Room → Type 0 where
  registers :
      (message : Text) (conn : Conn)
      → lookup conn room.clients_to_host ≡ none
      → RoomStep room (register room message conn)
  links :
      (request : Text) (conn : Conn) (now : ℕ)
      → lookup conn room.host_to_clients ≡ none
      → RoomStep room (link_request room request conn now).0
  hosts :
      (conn : Conn) (remote_addr : Text) (now : ℕ)
      → RoomStep room (set_host room conn remote_addr now).0
  drops : (request : Text) → RoomStep room (drop_request room request)
  assigns : (message : Text) (conn : Conn) → RoomStep room (assign_client room message conn)

pub data RoomReach (room : Room) : Room → Type 0 where
  here : RoomReach room room
  next : {s t : Room} → RoomReach room s → RoomStep s t → RoomReach room t

-- One critical section of a handler, as far as it changes a room: a registration is `asks` and `enters`,
-- a link `takes`, `names_conn`, `names_client` and `fills`.
pub data RoomWrite (room : Room) : Room → Type 0 where
  asks : (request : Text) (client : Conn) → RoomWrite room (ask room request client)
  enters : (client : Conn) → RoomWrite room (enter room client)
  takes :
      (request : Text) (client : Conn) (room' : Room)
      → take room request ≡ some (client, room')
      → RoomWrite room room'
  names_conn :
      (client conn : Conn) (room' : Room)
      → name_conn room client conn ≡ some room'
      → RoomWrite room room'
  names_client : (client conn : Conn) → RoomWrite room (name_client room client conn)
  fills : (now : ℕ) → RoomWrite room (record room { last_room_filled_time = unix_milli now })
  joins :
      (conn : Conn) (remote_addr : Text) (now : ℕ)
      → RoomWrite room (set_host room conn remote_addr now).0
  withdraws :
      (request : Text)
      → RoomWrite room
          (record room { requested_connections = delete request room.requested_connections })
  hands_on : (message : Text) (conn : Conn) → RoomWrite room (assign_client room message conn)

-- What handlers and tasks do to the server. A scan may have seen any other state.
pub data Step (app : Server) : Server → Type 0 where
  creates : (code : Text) (now : ℕ) → Step app (create_room app code now)
  evicts : (code : Text) → Step app (record app { rooms = delete code app.rooms })
  changes :
      (ref : RoomRef) (room : Room)
      → RoomWrite (app.heap ref) room
      → Step app (set_room app ref room)
  ends :
      (conn : Conn) (code : Text) (reason : CloseReason) (now : ℕ)
      → Step app (handle_cleanup app conn code reason now).0
  cleans_unused : (seen : Server) (now : ℕ) → Step app (clean_unused_rooms seen now app)
  cleans_idle : (seen : Server) (now : ℕ) → Step app (clean_idle_rooms seen now app).0
  cleans_reasons :
      (seen : Server) (now : ℕ) → Step app (clean_recently_deleted_room_reasons seen now app)
  monitors : (now : ℕ) → Step app (monitor_traffic app now)
  counts : Step app (count_packet app)
  counts_client : Step app (count_client app)
  publishes : Step app (stats_pps_tick app)

pub data Reach (app : Server) : Server → Type 0 where
  start : Reach app app
  later : {s t : Server} → Reach app s → Step s t → Reach app t
