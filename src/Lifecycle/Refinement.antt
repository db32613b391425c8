-- ===== src/Lifecycle/Refinement.antt =====
-- Each step of the relay is a move of the registry that its state stands for.
use stealthpipe_relay.Prelude.{
  ℕ, Bool, true, false, ◌&&◌, Option, none, some, [], ◌∷◌, Text, nat_key, text_key, ◌==◌, text_beq,
  if◌then◌else◌, ◌≡◌, ◌≢◌, ◌⊎◌, refl, ap, ◌∙◌, arith, Option-cases, Bool-cases, inl, inr, nat_beq,
  nat_beq_iff, text_beq_iff,
}
use stealthpipe_relay.Dict.{Dict, lookup, delete}
use stealthpipe_relay.Dict.Laws.{lookup-insert, lookup-delete, lookup-delete_all, member}
use stealthpipe_relay.Dict.Distinct.{IsDict}
use stealthpipe_relay.Types.{Conn, Ptr, RoomRef, Room, Server, new_server, set_room}
use stealthpipe_relay.Types.Reasons.{CloseReason}
use stealthpipe_relay.Create.{create_room, new_room}
use stealthpipe_relay.Cleanup.{handle_cleanup, forget_room, is_host}
use stealthpipe_relay.Cleanup.Laws.{
  is_host_iff, handle_cleanup-forgets, handle_cleanup-missing, handle_cleanup-other,
}
use stealthpipe_relay.Tasks.{
  clean_unused_rooms, clean_idle_rooms, clean_recently_deleted_room_reasons, stale_rooms,
  idle_rooms,
}
use stealthpipe_relay.Tasks.Unused.{lacks_host, lookup-prune_rooms, prune_rooms-heap}
use stealthpipe_relay.Monitor.{monitor_traffic, stats_pps_tick, count_packet}
use stealthpipe_relay.Lifecycle.{
  RoomWrite, Step, creates, evicts, changes, ends, cleans_unused, cleans_idle, cleans_reasons,
  monitors, counts, counts_client, publishes, Reach,
}
use stealthpipe_relay.Lifecycle.Servers.{IsWellFormed, Reach-IsWellFormed}
use stealthpipe_relay.Lifecycle.Registry
use stealthpipe_relay.Lifecycle.View.{view_room, placed, view, RoomWrite-Move}

-- What a step of the relay is asked to do.
abbrev pub call : {s t : Server} → Step s t → Registry.Call
call (creates code now) = Registry.Call.create code
call (evicts code) = Registry.Call.evict code
call (changes ref room st) = Registry.Call.serve
call (ends conn code reason now) = Registry.Call.quit conn code
call (cleans_unused seen now) = Registry.Call.prune
call (cleans_idle seen now) = Registry.Call.expire
call _ = Registry.Call.keep

-- An address stands in the map, or no code leads to it.
find_code :
    (ref : RoomRef) (m : Dict Text RoomRef)
    → IsDict m
    → ((code : Text) × (lookup code m ≡ some ref)) ⊎ ((code : Text) → lookup code m ≢ some ref)
unfolding lookup
find_code ref [] d = inr (λ code h. absurd (cc))
find_code ref ((k, v) ∷ m) d = elim (Bool-cases (nat_beq v ref)) [
  | inl same ↦ inl (k, ground (arith, nat_beq_iff v ref, text_beq_iff k k))
  | inr other ↦ elim (find_code ref m d.1) [
    | inl (code, h) ↦ inl (code, ground (arith, text_beq_iff k code))
    | inr nowhere ↦ inr (λ code h. nowhere code (ground (arith, nat_beq_iff v ref)))
  ]
]

placed-written :
    (app : Server) (ref : RoomRef) (room : Room)
    → placed (set_room app ref room).heap (some ref) ≡ some (view_room room)
placed-written app ref room = rw ((nat_beq_iff ref ref).1 refl) refl

placed-other :
    (app : Server) (ref : RoomRef) (room : Room) (o : Option RoomRef)
    → o ≢ some ref
    → placed (set_room app ref room).heap o ≡ placed app.heap o
placed-other app ref room none other = refl
placed-other app ref room (some r) other =
    let apart : nat_beq ref r ≡ false = ground (arith, nat_beq_iff ref r) in rw apart refl

placed-lost :
    (heap : RoomRef → Room) (lost : Bool) (o : Option RoomRef)
    → placed heap (if lost then none else o) ≡ (if lost then none else placed heap o)
placed-lost heap true o = refl
placed-lost heap false o = refl

create_room-Moves :
    (app : Server) (code : Text) (now : ℕ)
    → IsWellFormed app
    → Registry.Moves (view app) (view (create_room app code now)) (Registry.Call.create code)
unfolding create_room new_room lookup
create_room-Moves app code now v = Registry.Moves.opens code (λ c.
    elim (Bool-cases (text_beq code c)) [
      | inl same ↦
          rw (lookup-insert code c app.next_ref app.rooms, same)
            (placed-written app app.next_ref (new_room now))
      | inr other ↦
          rw (lookup-insert code c app.next_ref app.rooms, other)
            (placed-other app app.next_ref (new_room now) (lookup c app.rooms)
              (λ h. let below = v.given c app.next_ref h in absurd (omega arith)))
    ])

changes-Moves :
    (app : Server) (ref : RoomRef) (room : Room)
    → IsWellFormed app
    → RoomWrite (app.heap ref) room
    → Registry.Moves (view app) (view (set_room app ref room)) Registry.Call.serve
changes-Moves app ref room v st = elim (find_code ref app.rooms v.dict) [
  | inl (code, h) ↦
      Registry.Moves.changes code (view_room (app.heap ref)) (view_room room) (rw h refl)
        (RoomWrite-Move st)
        (λ c. elim (Bool-cases (text_beq code c)) [
          | inl same ↦
              let found : lookup c app.rooms ≡ some ref = ground (arith, text_beq_iff code c) in
              rw (same, found) (placed-written app ref room)
          | inr other ↦ rw other (
              placed-other app ref room (lookup c app.rooms) (λ k.
                let e = v.apart code c ref h k in absurd (ground (arith, text_beq_iff code c))))
        ])
  | inr nowhere ↦
      Registry.Moves.unseen (λ c. placed-other app ref room (lookup c app.rooms) (nowhere c))
]

delete-Puts :
    (app : Server) (code : Text)
    → Registry.Puts (view app) code none (view (record app { rooms = delete code app.rooms }))
delete-Puts app code c =
    rw (lookup-delete code c app.rooms) (placed-lost app.heap (code == c) (lookup c app.rooms))

forget_room-Puts :
    (app : Server) (code : Text) (reason : CloseReason) (now : ℕ)
    → Registry.Puts (view app) code none (view (forget_room app code reason now))
unfolding forget_room
forget_room-Puts app code reason now = delete-Puts app code

abbrev host_at : Option Registry.Place → Ptr
host_at none = none
host_at (some r) = r.host

view-host :
    (app : Server) (code : Text) (ref : RoomRef) (r : Registry.Place)
    → lookup code app.rooms ≡ some ref
    → view app code ≡ some r
    → (app.heap ref).host ≡ r.host
view-host app code ref r found h =
    let same : some (view_room (app.heap ref)) ≡ some r = rw found at h in ap host_at same

ends-Moves :
    (app : Server) (conn : Conn) (code : Text) (reason : CloseReason) (now : ℕ)
    → Registry.Moves
        (view app)
        (view (handle_cleanup app conn code reason now).0)
        (Registry.Call.quit conn code)
ends-Moves app conn code reason now = elim (Option-cases (lookup code app.rooms)) [
  | inl missing ↦ rw (handle_cleanup-missing app conn code reason now missing) (
      Registry.Moves.remains code conn
        (λ r found. let no : none ≡ some r = rw missing at found in absurd (cc)) (λ c. refl))
  | inr (ref, found) ↦ elim (Bool-cases (is_host (app.heap ref).host conn)) [
    | inl host ↦
        let hosts = (is_host_iff (app.heap ref).host conn).0 host in
        rw (handle_cleanup-forgets app conn code reason now ref found hosts) (
          Registry.Moves.leaves code (view_room (app.heap ref)) conn (rw found refl) hosts
            (forget_room-Puts app code reason now))
    | inr other ↦
        let guest : (app.heap ref).host ≢ some conn =
          λ e. let h = (is_host_iff (app.heap ref).host conn).1 e in absurd (cc) in
        rw (handle_cleanup-other app conn code reason now ref found guest) (
          Registry.Moves.remains code conn (λ r h e. guest (view-host app code ref r found h ∙ e))
            (λ c. refl))
  ]
]

lacks_host-free :
    (app : Server) (code : Text) (r : Registry.Place)
    → IsWellFormed app
    → lacks_host app code ≡ true
    → view app code ≡ some r
    → r.host ≡ none
lacks_host-free app code r v lacks found = elim (Option-cases (lookup code app.rooms)) [
  | inl missing ↦ let no : none ≡ some r = rw missing at found in absurd (cc)
  | inr (ref, e) ↦ let here = view-host app code ref r e found in ground (arith, v.hosted ref)
]

prunes-Moves :
    (app seen : Server) (now : ℕ)
    → IsWellFormed app
    → Registry.Moves (view app) (view (clean_unused_rooms seen now app)) Registry.Call.prune
unfolding clean_unused_rooms
prunes-Moves app seen now v =
    Registry.Moves.prunes (λ c. member c (stale_rooms seen now) && lacks_host app c)
      (λ code r gone found. lacks_host-free app code r v (ground arith) found)
      (λ c.
        rw
          (
            lookup-prune_rooms (stale_rooms seen now) c app,
            prune_rooms-heap (stale_rooms seen now) app,
          )
          (placed-lost app.heap _ (lookup c app.rooms)))

expires-Moves :
    (app seen : Server) (now : ℕ)
    → Registry.Moves (view app) (view (clean_idle_rooms seen now app).0) Registry.Call.expire
unfolding clean_idle_rooms
expires-Moves app seen now =
    Registry.Moves.expires (λ c. member c (idle_rooms seen now))
      (λ c.
        rw (lookup-delete_all (idle_rooms seen now) c app.rooms)
          (placed-lost app.heap _ (lookup c app.rooms)))

-- Only the rooms and the heap matter.
view-same :
    (app app' : Server)
    → app'.rooms ≡ app.rooms
    → app'.heap ≡ app.heap
    → Registry.Agrees (view app) (view app')
view-same app app' p q c = rw (p, q) refl

monitor_traffic-Moves :
    (app : Server) (now : ℕ)
    → Registry.Moves (view app) (view (monitor_traffic app now)) Registry.Call.keep
unfolding monitor_traffic
monitor_traffic-Moves app now =
    Registry.Moves.keeps (view-same app (monitor_traffic app now) (ground arith) (ground arith))

Step-Moves :
    {s t : Server} (st : Step s t) → IsWellFormed s → Registry.Moves (view s) (view t) (call st)
unfolding clean_recently_deleted_room_reasons count_packet stats_pps_tick
Step-Moves {s} (creates code now) v = create_room-Moves s code now v
Step-Moves {s} (evicts code) v = Registry.Moves.gives_up code (delete-Puts s code)
Step-Moves {s} (changes ref room st) v = changes-Moves s ref room v st
Step-Moves {s} (ends conn code reason now) v = ends-Moves s conn code reason now
Step-Moves {s} (cleans_unused seen now) v = prunes-Moves s seen now v
Step-Moves {s} (cleans_idle seen now) v = expires-Moves s seen now
Step-Moves {s} (cleans_reasons seen now) v = Registry.Moves.keeps (λ c. refl)
Step-Moves {s} (monitors now) v = monitor_traffic-Moves s now
Step-Moves {s} counts v = Registry.Moves.keeps (λ c. refl)
Step-Moves {s} counts_client v = Registry.Moves.keeps (λ c. refl)
Step-Moves {s} publishes v = Registry.Moves.keeps (λ c. refl)

-- In every state that the relay reaches from its start, by critical sections of handlers and ticks of
-- tasks in any order, each further one is the move of the registry of rooms that its call allows: a
-- handler changes no room but its own, takes a request only while it waits, and gives a host
-- connection only to a client that has its entry; a host comes only to a room without one; the end of
-- a connection closes a room exactly when it is the room's host; unused rooms are cleaned away only
-- without a host; a new room is empty; and no step does more to the registry than its move.
pub Reach-refines :
    {s t : Server}
    → Reach new_server s
    → (st : Step s t) → Registry.Moves (view s) (view t) (call st)
Reach-refines r st = Step-Moves st (Reach-IsWellFormed r)
