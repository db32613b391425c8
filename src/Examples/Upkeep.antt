-- ===== src/Examples/Upkeep.antt =====
-- The tasks of the relay.
use stealthpipe_relay.Prelude.{
  ◌*◌, ◌≤◌, ◌&&◌, true, none, some, text_key, if◌then◌else◌, ◌≡◌, refl, arith, ◌⊎◌,
}
use stealthpipe_relay.Dict.{lookup}
use stealthpipe_relay.Types.{Server, Room, new_server, second}
use stealthpipe_relay.Tasks.{clean_unused_rooms, clean_idle_rooms}
use stealthpipe_relay.Tasks.Unused.{was_stale, lacks_host, lookup-clean_unused_rooms}
use stealthpipe_relay.Tasks.Idle.{was_idle, lookup-clean_idle_rooms}
use stealthpipe_relay.Monitor.{monitor_traffic, target_difficulty}
use stealthpipe_relay.Monitor.Difficulty.{monitor_traffic_bounds, monitor_traffic-no_cooldown}
use stealthpipe_relay.Examples.{code, linked_room, empty_room, with_room}

lookup-clean_unused_rooms_example :
    lookup code
      (clean_unused_rooms (with_room empty_room) (100 * second) (with_room linked_room)).rooms
    ≡ (if was_stale (with_room empty_room) (100 * second) code
          && lacks_host (with_room linked_room) code
        then none
        else lookup code (with_room linked_room).rooms)
unfolding lookup
lookup-clean_unused_rooms_example =
    lookup-clean_unused_rooms (with_room empty_room) (with_room linked_room) (100 * second) code
      (refl, tt)

-- A room with a host and no client at the scan, and with clients at the deletion.
abbrev lonely_room : Room
lonely_room = record empty_room { host = some 1; has_host = true }

lookup-clean_idle_rooms_example :
    lookup code
      (clean_idle_rooms (with_room lonely_room) (1000 * second) (with_room linked_room)).0.rooms
    ≡ (if was_idle (with_room lonely_room) (1000 * second) code
        then none
        else lookup code (with_room linked_room).rooms)
unfolding lookup
lookup-clean_idle_rooms_example =
    lookup-clean_idle_rooms (with_room lonely_room) (with_room linked_room) (1000 * second) code
      (refl, tt)

-- After 50 requests in a second the target is 6.
abbrev busy : Server
busy = record new_server { handshake_counter = 50; current_difficulty = 7 }

monitor_traffic_bounds_example :
    let app' = monitor_traffic busy second in
    let target = target_difficulty busy.config busy.handshake_counter in
    (target ≤ app'.current_difficulty)
    × (5 ≤ app'.current_difficulty)
    × (app'.current_difficulty ≤ 7)
    × (app'.handshake_counter ≡ 0)
    × ((app'.current_difficulty ≡ target) ⊎ (app'.current_difficulty ≡ 7))
monitor_traffic_bounds_example = monitor_traffic_bounds busy second (omega arith) (omega arith)

monitor_traffic-no_cooldown_example :
    (monitor_traffic busy second).current_difficulty ≡ target_difficulty busy.config 50
monitor_traffic-no_cooldown_example = monitor_traffic-no_cooldown busy second refl (omega arith)
