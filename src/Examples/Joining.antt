-- ===== src/Examples/Joining.antt =====
-- `/join`, the endings of connections, and the pairing in a room.
use stealthpipe_relay.Prelude.{
  ℕ, ◌*◌, false, Option, none, some, [], ◌∷◌, ◌++◌, Text, codes, text_key, nat_key, ◌==◌,
  if◌then◌else◌, ◌≡◌, refl,
}
use stealthpipe_relay.Dict.{lookup, insert, delete}
use stealthpipe_relay.Types.{
  Server, Room, new_server, new_server_config, set_room, second, close, new_recently_deleted_room,
}
use stealthpipe_relay.Types.Reasons.{CloseReason}
use stealthpipe_relay.Cleanup.{handle_cleanup}
use stealthpipe_relay.Cleanup.Laws.{handle_cleanup-host, pair_effects}
use stealthpipe_relay.Create.{create_room, new_room}
use stealthpipe_relay.Join.{Request, join_room, handle_relay}
use stealthpipe_relay.Join.Refused.{Outcome, join_room-Outcome}
use stealthpipe_relay.Join.Guard.{Guarded, handle_relay-Guarded}
use stealthpipe_relay.ClientRelay.{register}
use stealthpipe_relay.Prelude.{arith}
use stealthpipe_relay.Lifecycle.Sections.{ask, enter, take}
use stealthpipe_relay.Lifecycle.{asks, enters, takes, ends}
use stealthpipe_relay.Lifecycle.{Reach, start, later, creates, changes, counts}
use stealthpipe_relay.Lifecycle.Servers.{IsWellFormed, Reach-IsWellFormed}
use stealthpipe_relay.Lifecycle.Registry
use stealthpipe_relay.Lifecycle.View.{view}
use stealthpipe_relay.Lifecycle.Refinement.{Reach-refines}
use stealthpipe_relay.Join.{set_host}
use stealthpipe_relay.Lifecycle.Idle.{registered-never_idle}
use stealthpipe_relay.Tasks.{is_idle}
use stealthpipe_relay.Monitor.{count_packet}
use stealthpipe_relay.Examples.{code, linked_room, with_room}

handle_cleanup-host_example :
    let (app', effects) =
      handle_cleanup (with_room linked_room) 1 code CloseReason.unspecified second in
    (effects ≡ pair_effects linked_room.clients_to_host ++ close 1 CloseReason.unspecified ∷ [])
    × ((c : Text)
        → lookup c app'.rooms
          ≡ (if code == c then none else lookup c (with_room linked_room).rooms))
    × ((c : Text)
        → lookup c app'.recently_deleted_rooms ≡ (
            if code == c
            then some (new_recently_deleted_room second CloseReason.unspecified)
            else lookup c (with_room linked_room).recently_deleted_rooms))
unfolding lookup
handle_cleanup-host_example =
    handle_cleanup-host (with_room linked_room) 1 code CloseReason.unspecified second 0 refl refl

abbrev host_request : Request
host_request = record {
  id = code;
  host = codes "true";
  request = [];
  version = codes "4.0.2";
  signal = [];
  remote_addr = codes "::1";
}

join_room-Outcome_example :
    Outcome 5 (with_room linked_room) (
      join_room
        (with_room linked_room)
        (record host_request { request = codes "unknown" })
        5
        second)
join_room-Outcome_example =
    join_room-Outcome (with_room linked_room) (record host_request { request = codes "unknown" }) 5
      second

-- A version that starts with a digit and a dot has that digit as its major number.
abbrev first_digit : Text → Option ℕ
first_digit [] = none
first_digit (c ∷ t) = if c == b'4' then some 4 else none

handle_relay-Guarded_example :
    Guarded first_digit
      (with_room linked_room)
      (record host_request { host = [] })
      5
      (handle_relay first_digit
        (with_room linked_room)
        (λ app. app)
        (record host_request { host = [] })
        5
        second)
handle_relay-Guarded_example =
    handle_relay-Guarded first_digit (with_room linked_room) (record host_request { host = [] }) 5
      (λ app. app) second

-- A host, a client that asks for a host connection, and the connection that answers.
abbrev message : Text
message = codes "REQUESTCONNECTION_42123456"

abbrev asked : Room
asked = register (new_room second) message 2

-- A room is created, and a client stores its request and has its entry.
abbrev created : Server
created = create_room new_server code second

abbrev storing : Server
storing = set_room created 0 (ask (created.heap 0) message 2)

abbrev with_client : Server
with_client = set_room storing 0 (enter (storing.heap 0) 2)

with_client-Reach : Reach new_server with_client
with_client-Reach =
    later
      (later (later start (creates code second))
        (changes 0 (ask (created.heap 0) message 2) (asks message 2)))
      (changes 0 (enter (storing.heap 0) 2) (enters 2))

-- And a packet is counted.
Reach-IsWellFormed_example : IsWellFormed (count_packet with_client)
Reach-IsWellFormed_example = Reach-IsWellFormed (later with_client-Reach counts)

abbrev hosted_room : Room
hosted_room = register (set_host (new_room second) 1 (codes "::1") second).0 message 2

-- The connection of the client ends.
registered-never_idle_example :
    is_idle new_server_config
      (second * second)
      ((handle_cleanup with_client 2 code CloseReason.unspecified second).0.heap 0)
    ≡ false
unfolding create_room
registered-never_idle_example =
    registered-never_idle storing
      (handle_cleanup with_client 2 code CloseReason.unspecified second).0 0 2 new_server_config
      (second * second) (omega arith) (later start (ends 2 code CloseReason.unspecified second))

-- A host connection takes the request of the client.
abbrev taken : Room
taken = record (with_client.heap 0) { requested_connections = [] }

Reach-refines_example :
    Registry.Moves (view with_client) (view (set_room with_client 0 taken)) Registry.Call.serve
unfolding create_room new_room lookup insert delete take
Reach-refines_example =
    Reach-refines with_client-Reach (changes 0 taken (takes message 2 taken refl))
