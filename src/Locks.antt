-- ===== src/Locks.antt =====
-- The mutexes of src/core: in which order each critical section takes and releases them, and what it
-- reads and writes of the shared maps, and of the host of a room, in between. The sections stand in
-- the file below.
pub mod Sections
pub mod Threads
pub mod Order
pub mod Deadlock
pub mod Races
pub mod Exclusion
pub mod Covered
pub mod Racing
pub mod Panic
use stealthpipe_relay.Prelude.{ℕ, Option, none, some, List, [], ◌∷◌, ◌++◌}
use stealthpipe_relay.Types.{RoomRef}

-- `RoomsMu`, `RecentlyDeletedRoomsMutex` and `UsedSaltsMutex` of the server, and for each room
-- `RequestedConnectionsMapMutex`, `ClientsToHostConnectionsMutex`, `HostToClientsConnectionsMutex`
-- and `HostMu`.
pub data Lock : Type 0 where
  rooms_mu recently_deleted_mu used_salts_mu : Lock
  requested_mu clients_mu hosts_mu host_mu : RoomRef → Lock

-- `Lock` and `RLock`
pub data Mode : Type 0 where
  exclusive shared : Mode

-- What goroutines share: the maps, and `Host`, `HostIP` and `HasHost` of a room, which one section
-- writes.
pub data Shared : Type 0 where
  rooms recently_deleted used_salts : Shared
  requested_connections clients_to_host host_to_clients handshake_connections room_host :
      RoomRef → Shared

-- What a goroutine does beside the mutexes: `send` is any use of a connection's network, `respond` an
-- answer to an HTTP request.
pub data Use : Type 0 where
  reads writes : Shared → Use
  send respond sleep : Use

pub data Action : Type 0 where
  acquire : Mode → Lock → Action
  release : Lock → Action
  does : Use → Action

-- The critical sections of the code, each with what decides its path.
pub data Section : Type 0 where
  get_room_exists : Section
  cleanup_gone : Section
  cleanup_host : RoomRef → Section
  cleanup_other : RoomRef → Section
  check_room : Section
  check_recently_deleted : Section
  take_request : RoomRef → Section
  link_client : RoomRef → Section
  link_host : RoomRef → Section
  join_host : RoomRef → Section
  open_client : RoomRef → Section
  open_signal : RoomRef → Section
  poll_host : RoomRef → Section
  register_request : RoomRef → Section
  register_client : RoomRef → Section
  request_host : RoomRef → Section
  poll_client : RoomRef → Section
  look_for_request : RoomRef → Section
  drop_request : RoomRef → Section
  find_client : RoomRef → Section
  answer_ping : RoomRef → Section
  forward_to_host : RoomRef → Section
  forward_to_nil : RoomRef → Section
  assign_client : RoomRef → Section
  forward_to_client : RoomRef → Section
  scan_rooms : List RoomRef → Section
  scan_idle_rooms : List RoomRef → Section
  prune_rooms : List RoomRef → Section
  delete_rooms : Section
  scan_reasons : Section
  delete_reasons : Section
  create_fresh : Section
  create_reused : RoomRef → Section
  create_evicting : RoomRef → Section
  create_refused : Section
  is_replay : Section
  clean_used_salts : Section
  watch_rooms : Section
