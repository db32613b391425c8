-- ===== src/Lifecycle/Idle.antt =====
-- The test of `CleanIdleRooms` on rooms that clients have asked to join.
use stealthpipe_relay.Prelude.{
  ℕ, ◌<◌, true, false, none, some, List, [], ◌∷◌, Text, nat_key, text_key, ◌≡◌, arith, refl, inl,
  inr, nat_beq, nat_beq_iff, Bool-cases, subst, sym,
}
use stealthpipe_relay.Dict.{is_nil}
use stealthpipe_relay.Dict.Laws.{is_nil-insert}
use stealthpipe_relay.Types.{Conn, Ptr, RoomRef, Room, Server, set_room, ServerConfig}
use stealthpipe_relay.Types.Reasons.{CloseReason}
use stealthpipe_relay.Create.{create_room}
use stealthpipe_relay.Cleanup.{handle_cleanup, forget_room}
use stealthpipe_relay.Cleanup.Laws.{handle_cleanup-server}
use stealthpipe_relay.Join.{set_host}
use stealthpipe_relay.Signal.{assign_client}
use stealthpipe_relay.Monitor.{monitor_traffic, stats_pps_tick, count_packet}
use stealthpipe_relay.Tasks.{
  is_idle, prune_room, prune_rooms, clean_unused_rooms, clean_idle_rooms,
  clean_recently_deleted_room_reasons,
}
use stealthpipe_relay.Lifecycle.{
  Step, creates, evicts, changes, ends, cleans_unused, cleans_idle, cleans_reasons, monitors,
  counts, counts_client, publishes, Reach, start, later,
}
use stealthpipe_relay.Lifecycle.Sections.{enter}
use stealthpipe_relay.Lifecycle.{
  RoomWrite, asks, enters, takes, names_conn, names_client, fills, joins, withdraws, hands_on,
}
use stealthpipe_relay.Lifecycle.Taken.{take-taken, name_conn-named}

abbrev HasClients : Room → Type 0
HasClients room = is_nil room.clients_to_host ≡ false

RoomWrite-HasClients : {s t : Room} → RoomWrite s t → HasClients s → HasClients t
unfolding set_host assign_client
RoomWrite-HasClients (asks request client) v = v
RoomWrite-HasClients {s} (enters client) v = is_nil-insert {V = Ptr} client none s.clients_to_host
RoomWrite-HasClients {s} (takes request client room took) v =
    let (waits, e) = take-taken s room request client took in rw e v
RoomWrite-HasClients {s} (names_conn client conn room named) v =
    let (there, e) = name_conn-named s room client conn named in
    rw e (is_nil-insert {V = Ptr} client (some conn) s.clients_to_host)
RoomWrite-HasClients (names_client client conn) v = v
RoomWrite-HasClients (fills now) v = v
RoomWrite-HasClients {s} (joins conn addr now) v = ground arith
RoomWrite-HasClients (withdraws request) v = v
RoomWrite-HasClients (hands_on [] conn) v = v
RoomWrite-HasClients (hands_on (t ∷ []) conn) v = v
RoomWrite-HasClients (hands_on (t ∷ id ∷ rest) conn) v = v

module _ (ref : RoomRef) where
  -- The room stands at an address that has been given out, and has had a client.
  record IsVisited (app : Server) : Type 0 where
    below : ref < app.next_ref
    clients : HasClients (app.heap ref)

  IsVisited-of_heap :
      (app app' : Server)
      → app'.heap ≡ app.heap
      → app'.next_ref ≡ app.next_ref
      → IsVisited app
      → IsVisited app'
  IsVisited-of_heap app app' p q v = record { below = rw q v.below; clients = rw p v.clients }

  create_room-IsVisited :
      (app : Server) (code : Text) (now : ℕ) → IsVisited app → IsVisited (create_room app code now)
  unfolding create_room
  create_room-IsVisited app code now v =
      let below = v.below in
      let apart : nat_beq app.next_ref ref ≡ false = ground (arith, nat_beq_iff app.next_ref ref) in
      record { below = omega arith; clients = rw apart v.clients }

  set_room-IsVisited :
      (app : Server) (at : RoomRef) (room : Room)
      → RoomWrite (app.heap at) room
      → IsVisited app
      → IsVisited (set_room app at room)
  set_room-IsVisited app at room write v = record {
    below = v.below;
    clients = elim (Bool-cases (nat_beq at ref)) [
      | inl here ↦
          let same = (nat_beq_iff at ref).0 here in
          rw here
            (RoomWrite-HasClients write (subst (λ r. HasClients (app.heap r)) (sym same) v.clients))
      | inr other ↦ rw other v.clients
    ];
  }

  prune_rooms-IsVisited :
      (codes : List Text) (app : Server) → IsVisited app → IsVisited (prune_rooms codes app)
  unfolding prune_rooms prune_room
  prune_rooms-IsVisited [] app v = v
  prune_rooms-IsVisited (code ∷ codes) app v =
      prune_rooms-IsVisited codes (prune_room code app)
        (IsVisited-of_heap app _ (ground arith) (ground arith) v)

  handle_cleanup-IsVisited :
      (app : Server) (conn : Conn) (code : Text) (reason : CloseReason) (now : ℕ)
      → IsVisited app
      → IsVisited (handle_cleanup app conn code reason now).0
  unfolding forget_room
  handle_cleanup-IsVisited app conn code reason now v =
      elim (handle_cleanup-server app conn code reason now) [
        | inl same ↦ rw same v
        | inr gone ↦ rw gone (IsVisited-of_heap app _ refl refl v)
      ]

  Step-IsVisited : {s t : Server} → Step s t → IsVisited s → IsVisited t
  unfolding clean_unused_rooms clean_idle_rooms clean_recently_deleted_room_reasons count_packet
      stats_pps_tick monitor_traffic
  Step-IsVisited {s} (creates code now) v = create_room-IsVisited s code now v
  Step-IsVisited {s} (evicts code) v = IsVisited-of_heap s _ refl refl v
  Step-IsVisited {s} (changes at room write) v = set_room-IsVisited s at room write v
  Step-IsVisited {s} (ends conn code reason now) v =
      handle_cleanup-IsVisited s conn code reason now v
  Step-IsVisited {s} (cleans_unused seen now) v = prune_rooms-IsVisited _ s v
  Step-IsVisited {s} (cleans_idle seen now) v = IsVisited-of_heap s _ refl refl v
  Step-IsVisited {s} (cleans_reasons seen now) v = IsVisited-of_heap s _ refl refl v
  Step-IsVisited {s} (monitors now) v = IsVisited-of_heap s _ (ground arith) (ground arith) v
  Step-IsVisited {s} counts v = IsVisited-of_heap s _ refl refl v
  Step-IsVisited {s} counts_client v = IsVisited-of_heap s _ refl refl v
  Step-IsVisited {s} publishes v = IsVisited-of_heap s _ refl refl v

  Reach-IsVisited : {s t : Server} → Reach s t → IsVisited s → IsVisited t
  Reach-IsVisited start v = v
  Reach-IsVisited (later r step) v = Step-IsVisited step (Reach-IsVisited r v)

-- Once a client has its entry in a room, nothing empties the room's map of clients: after any further
-- critical sections of handlers, ends of connections and their cleanups included, and any ticks of
-- tasks, and however long all clients have been gone, the room does not pass the test for idle rooms.
pub registered-never_idle :
    (app app' : Server) (ref : RoomRef) (client : Conn) (config : ServerConfig) (now : ℕ)
    → ref < app.next_ref
    → Reach (set_room app ref (enter (app.heap ref) client)) app'
    → is_idle config now (app'.heap ref) ≡ false
unfolding is_idle
registered-never_idle app app' ref client config now below r =
    let here : nat_beq ref ref ≡ true = (nat_beq_iff ref ref).1 refl in
    let v = Reach-IsVisited ref r (record {
      below = below;
      clients = rw here (is_nil-insert {V = Ptr} client none (app.heap ref).clients_to_host);
    }) in
    let clients = v.clients in ground arith
