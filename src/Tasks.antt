-- ===== src/Tasks.antt =====
-- src/core/CleanTasks.go: one tick of each cleaning loop. A scan under the read lock and the
-- deletions under the write lock are two critical sections, so they take two states.
pub mod Unused
pub mod Idle
pub mod Reasons
use stealthpipe_relay.Prelude.{
  ℕ, ◌-◌, ◌*◌, Bool, true, false, not, ◌&&◌, Option, none, some, List, [], ◌∷◌, ◌++◌, Text, ltb,
  text_key, if◌then◌else◌,
}
use stealthpipe_relay.Dict.{Dict, lookup, delete, delete_all, is_nil}
use stealthpipe_relay.Dict.Distinct.{keys_where}
use stealthpipe_relay.Types.{
  Conn, Ptr, RoomRef, Room, Server, ServerConfig, RecentlyDeletedRoom, Effect, close, unix_milli,
  second,
}
use stealthpipe_relay.Types.Reasons.{CloseReason}

-- `!room.HasHost && (now-room.CreatedTime) > app.Config.RoomEmptyCleanupDelay`. Go subtracts
-- signed numbers: where `now` is the smaller, both differences are under the delay.
unfoldable pub is_stale : ServerConfig → ℕ → Room → Bool
is_stale config now room =
    not room.has_host && ltb config.room_empty_cleanup_delay (now - room.created_time)

-- Phase 1 of `CleanUnusedRooms`.
unfoldable pub stale_rooms : Server → ℕ → List Text
unfolding keys_where is_stale
stale_rooms app now =
    keys_where (λ code ref. is_stale app.config (unix_milli now) (app.heap ref)) app.rooms

unfoldable pub prune_room : Text → Server → Server
prune_room code app = elim (lookup code app.rooms) [
  | none ↦ app
  | some ref ↦
      if not (app.heap ref).has_host then record app { rooms = delete code app.rooms } else app
]

-- Phase 2: each room is looked up again.
unfoldable pub prune_rooms : List Text → Server → Server
prune_rooms [] app = app
prune_rooms (code ∷ codes) app = prune_rooms codes (prune_room code app)

-- A tick that starts at `now` in the state `seen`, and finds `app` when it holds the write lock.
unfoldable pub clean_unused_rooms : Server → ℕ → Server → Server
clean_unused_rooms seen now app = prune_rooms (stale_rooms seen now) app

-- `now-room.LastRoomFilledTime.Load() > delay && len(room.ClientsToHostConnections) == 0`
unfoldable pub is_idle : ServerConfig → ℕ → Room → Bool
is_idle config now room =
    ltb config.room_idle_no_client_delay (now - room.last_room_filled_time)
    && is_nil room.clients_to_host

unfoldable pub idle_rooms : Server → ℕ → List Text
unfolding keys_where is_idle
idle_rooms app now =
    keys_where (λ code ref. is_idle app.config (unix_milli now) (app.heap ref)) app.rooms

abbrev pub push_host : Ptr → List Conn → List Conn
push_host none conns = conns
push_host (some conn) conns = conn ∷ conns

-- The hosts of the idle rooms, as the same scan collects them.
idle_hosts_in : ServerConfig → (RoomRef → Room) → ℕ → Dict Text RoomRef → List Conn
idle_hosts_in config heap now [] = []
idle_hosts_in config heap now ((code, ref) ∷ rooms) =
    let rest = idle_hosts_in config heap now rooms in
    if is_idle config now (heap ref) then push_host (heap ref).host rest else rest

unfoldable pub idle_hosts : Server → ℕ → List Conn
unfolding idle_hosts_in is_idle
idle_hosts app now = idle_hosts_in app.config app.heap (unix_milli now) app.rooms

abbrev pub close_each : CloseReason → List Conn → List Effect
close_each reason [] = []
close_each reason (conn ∷ conns) = close conn reason ∷ close_each reason conns

-- `CleanIdleRooms`: the rooms that the scan found are deleted as they are named.
unfoldable pub clean_idle_rooms : Server → ℕ → Server → Server × List Effect
clean_idle_rooms seen now app = (
  record app { rooms = delete_all (idle_rooms seen now) app.rooms },
  close_each CloseReason.connection_idle (idle_hosts seen now),
)

-- `time.Since(data.TimeDeleted) > RoomDeletionReasonStorageTimeSeconds * time.Second`
unfoldable pub is_outdated : ServerConfig → ℕ → RecentlyDeletedRoom → Bool
is_outdated config now room =
    ltb (config.room_deletion_reason_storage_time_seconds * second) (now - room.time_deleted)

unfoldable pub outdated_reasons : Server → ℕ → List Text
unfolding keys_where is_outdated
outdated_reasons app now =
    keys_where (λ code room. is_outdated app.config now room) app.recently_deleted_rooms

unfoldable pub clean_recently_deleted_room_reasons : Server → ℕ → Server → Server
clean_recently_deleted_room_reasons seen now app = record app {
  recently_deleted_rooms = delete_all (outdated_reasons seen now) app.recently_deleted_rooms;
}
