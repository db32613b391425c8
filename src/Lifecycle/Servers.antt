-- ===== src/Lifecycle/Servers.antt =====
-- The map of rooms under all steps of handlers and tasks.
use stealthpipe_relay.Prelude.{
  ℕ, ◌<◌, some, List, [], ◌∷◌, Text, text_key, text_beq_iff, nat_beq, ◌≡◌, refl, arith, Bool-cases,
  inl, inr,
}
use stealthpipe_relay.Dict.{lookup, delete, delete_all}
use stealthpipe_relay.Dict.Laws.{lookup-insert, lookup-delete}
use stealthpipe_relay.Dict.Distinct.{IsDict, insert-IsDict, delete-IsDict}
use stealthpipe_relay.Types.Reasons.{CloseReason}
use stealthpipe_relay.Types.{Conn, RoomRef, Room, Server, set_room, new_server}
use stealthpipe_relay.Create.{create_room, new_room}
use stealthpipe_relay.Cleanup.{handle_cleanup, forget_room}
use stealthpipe_relay.Cleanup.Laws.{handle_cleanup-server}
use stealthpipe_relay.Tasks.{
  prune_room, prune_rooms, clean_unused_rooms, clean_idle_rooms,
  clean_recently_deleted_room_reasons,
}
use stealthpipe_relay.Monitor.{monitor_traffic, stats_pps_tick, count_packet}
use stealthpipe_relay.Lifecycle.Rooms.{IsHosted, new_room-IsHosted, RoomWrite-IsHosted}
use stealthpipe_relay.Lifecycle.{
  Step, creates, evicts, changes, ends, cleans_unused, cleans_idle, cleans_reasons, monitors,
  counts, counts_client, publishes, Reach, start, later,
}

-- Each code has one room, whose address has been given out; no two codes share a room; and the flag
-- of every room is right.
pub record IsWellFormed (app : Server) : Type 0 where
  pub dict : IsDict app.rooms
  pub given : (code : Text) (ref : RoomRef) → lookup code app.rooms ≡ some ref → ref < app.next_ref
  pub apart :
      (c d : Text) (ref : RoomRef)
      → lookup c app.rooms ≡ some ref
      → lookup d app.rooms ≡ some ref
      → c ≡ d
  pub hosted : (ref : RoomRef) → IsHosted (app.heap ref)

new_server-IsWellFormed : IsWellFormed new_server
unfolding lookup
new_server-IsWellFormed = record {
  dict = tt;
  given = λ code ref h. cc;
  apart = λ c d ref h k. cc;
  hosted = λ ref. refl;
}

-- Only the rooms matter.
IsWellFormed-of_rooms :
    (app app' : Server)
    → app'.rooms ≡ app.rooms
    → app'.heap ≡ app.heap
    → app'.next_ref ≡ app.next_ref
    → IsWellFormed app
    → IsWellFormed app'
IsWellFormed-of_rooms app app' p q r v = record {
  dict = rw p v.dict;
  given = rw (p, r) v.given;
  apart = rw p v.apart;
  hosted = rw q v.hosted;
}

-- What holds of the room that is written and of all others holds of all after the write.
set_room-all :
    (P : Room → Type 0) (app : Server) (ref : RoomRef) (room : Room)
    → P room
    → ((k : RoomRef) → P (app.heap k))
    → (k : RoomRef) → P ((set_room app ref room).heap k)
set_room-all P app ref room v all k = elim (Bool-cases (nat_beq ref k)) [
  | inl hit ↦ rw hit v
  | inr miss ↦ rw miss (all k)
]

set_room-IsWellFormed :
    (app : Server) (ref : RoomRef) (room : Room)
    → IsHosted room
    → IsWellFormed app
    → IsWellFormed (set_room app ref room)
set_room-IsWellFormed app ref room h v = record {
  dict = v.dict;
  given = v.given;
  apart = v.apart;
  hosted = set_room-all IsHosted app ref room h v.hosted;
}

create_room-IsWellFormed :
    (app : Server) (code : Text) (now : ℕ)
    → IsWellFormed app
    → IsWellFormed (create_room app code now)
unfolding create_room
create_room-IsWellFormed app code now v = record {
  dict = insert-IsDict code app.next_ref app.rooms v.dict;
  given = λ c ref h. ground (arith, lookup-insert code c app.next_ref app.rooms, v.given c ref);
  apart = λ c d ref h k. ground (
    arith,
    lookup-insert code c app.next_ref app.rooms,
    lookup-insert code d app.next_ref app.rooms,
    v.given c ref,
    v.given d ref,
    v.apart c d ref,
    text_beq_iff code c,
    text_beq_iff code d,
  );
  hosted = set_room-all IsHosted app app.next_ref (new_room now) (new_room-IsHosted now) v.hosted;
}

delete-IsWellFormed :
    (app : Server) (code : Text)
    → IsWellFormed app
    → IsWellFormed (record app { rooms = delete code app.rooms })
delete-IsWellFormed app code v = record {
  dict = delete-IsDict code app.rooms v.dict;
  given = λ c ref h. v.given c ref (ground (arith, lookup-delete code c app.rooms));
  apart = λ c d ref h k.
      v.apart c d ref (ground (arith, lookup-delete code c app.rooms))
        (ground (arith, lookup-delete code d app.rooms));
  hosted = v.hosted;
}

forget_room-IsWellFormed :
    (app : Server) (code : Text) (reason : CloseReason) (now : ℕ)
    → IsWellFormed app
    → IsWellFormed (forget_room app code reason now)
unfolding forget_room
forget_room-IsWellFormed app code reason now v =
    IsWellFormed-of_rooms (record app { rooms = delete code app.rooms }) _ refl refl refl
      (delete-IsWellFormed app code v)

handle_cleanup-IsWellFormed :
    (app : Server) (conn : Conn) (code : Text) (reason : CloseReason) (now : ℕ)
    → IsWellFormed app
    → IsWellFormed (handle_cleanup app conn code reason now).0
handle_cleanup-IsWellFormed app conn code reason now v =
    elim (handle_cleanup-server app conn code reason now) [
      | inl same ↦ rw same v
      | inr gone ↦ rw gone (forget_room-IsWellFormed app code reason now v)
    ]

prune_room-IsWellFormed :
    (code : Text) (app : Server) → IsWellFormed app → IsWellFormed (prune_room code app)
unfolding prune_room
prune_room-IsWellFormed code app v = ground (arith, delete-IsWellFormed app code v)

prune_rooms-IsWellFormed :
    (codes : List Text) (app : Server) → IsWellFormed app → IsWellFormed (prune_rooms codes app)
unfolding prune_rooms
prune_rooms-IsWellFormed [] app v = v
prune_rooms-IsWellFormed (code ∷ codes) app v =
    prune_rooms-IsWellFormed codes (prune_room code app) (prune_room-IsWellFormed code app v)

delete_all-IsWellFormed :
    (codes : List Text) (app : Server)
    → IsWellFormed app
    → IsWellFormed (record app { rooms = delete_all codes app.rooms })
unfolding delete_all
delete_all-IsWellFormed [] app v = IsWellFormed-of_rooms app _ refl refl refl v
delete_all-IsWellFormed (code ∷ codes) app v =
    delete_all-IsWellFormed codes (record app { rooms = delete code app.rooms })
      (delete-IsWellFormed app code v)

monitor_traffic-IsWellFormed :
    (app : Server) (now : ℕ) → IsWellFormed app → IsWellFormed (monitor_traffic app now)
unfolding monitor_traffic
monitor_traffic-IsWellFormed app now v =
    IsWellFormed-of_rooms app _ (ground arith) (ground arith) (ground arith) v

Step-IsWellFormed : {s t : Server} → Step s t → IsWellFormed s → IsWellFormed t
unfolding clean_unused_rooms clean_idle_rooms clean_recently_deleted_room_reasons count_packet
    stats_pps_tick
Step-IsWellFormed {s} (creates code now) v = create_room-IsWellFormed s code now v
Step-IsWellFormed {s} (evicts code) v = delete-IsWellFormed s code v
Step-IsWellFormed {s} (changes ref room st) v =
    set_room-IsWellFormed s ref room (RoomWrite-IsHosted st (v.hosted ref)) v
Step-IsWellFormed {s} (ends conn code reason now) v =
    handle_cleanup-IsWellFormed s conn code reason now v
Step-IsWellFormed {s} (cleans_unused seen now) v = prune_rooms-IsWellFormed _ s v
Step-IsWellFormed {s} (cleans_idle seen now) v = delete_all-IsWellFormed _ s v
Step-IsWellFormed {s} (cleans_reasons seen now) v = IsWellFormed-of_rooms s _ refl refl refl v
Step-IsWellFormed {s} (monitors now) v = monitor_traffic-IsWellFormed s now v
Step-IsWellFormed {s} counts v = IsWellFormed-of_rooms s _ refl refl refl v
Step-IsWellFormed {s} counts_client v = IsWellFormed-of_rooms s _ refl refl refl v
Step-IsWellFormed {s} publishes v = IsWellFormed-of_rooms s _ refl refl refl v

-- In every state that the relay reaches from its start, by critical sections of handlers and ticks
-- of tasks in any order, each code has one room, no two codes share a room, every room's address has
-- been given out, and the flag of every room says whether it has a host. A registration of a client is
-- two such critical sections and a link three, and others may come in between.
pub Reach-IsWellFormed : {app : Server} → Reach new_server app → IsWellFormed app
Reach-IsWellFormed start = new_server-IsWellFormed
Reach-IsWellFormed (later r st) = Step-IsWellFormed st (Reach-IsWellFormed r)
