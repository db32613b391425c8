-- ===== src/Examples/Interleaving.antt =====
-- Handlers of one room whose critical sections interleave: the connection 3 takes the request of
-- the client 2 before the client has its entry, and another client asks before 3 is named there.
use stealthpipe_relay.Prelude.{some, [], codes, text_key, nat_key, ◌≡◌, ◌⊎◌, refl}
use stealthpipe_relay.Dict.{lookup, insert, delete}
use stealthpipe_relay.Types.{Conn, second}
use stealthpipe_relay.Create.{new_room}
use stealthpipe_relay.Lifecycle.Sections.{
  State, asking, waiting, taking, linking, linked, beginning, move, ask, enter, take, name_conn,
  name_client, Run, begun, further, asks, enters, takes, names_conn, names_client,
}
use stealthpipe_relay.Lifecycle.Linked.{Run-linked, quiet-IsPaired}
use stealthpipe_relay.Pairing.{IsPaired}
use stealthpipe_relay.Prelude.{nat_beq_iff, ◌≡◌, ◌≢◌, arith, Text}

abbrev asked : State
asked = let s = beginning second in move s 2 (asking (codes "first")) (ask s.room (codes "first") 2)

abbrev taken : State
taken = move asked 3 (taking (codes "first") 2) (record asked.room { requested_connections = [] })

abbrev entered : State
entered = move taken 2 (waiting (codes "first")) (enter taken.room 2)

abbrev followed : State
followed = move entered 8 (asking (codes "other")) (ask entered.room (codes "other") 8)

abbrev named : State
named =
    move followed 3 (linking 2) (record followed.room { clients_to_host = insert 2 (some 3) [] })

abbrev joined : State
joined = move named 3 (linked 2) (name_client named.room 2 3)

until_named : Run (beginning second) named
unfolding lookup insert delete new_room take name_conn
until_named =
    further
      (further
        (further
          (further (further begun (asks (codes "first") 2 refl))
            (takes (codes "first") 3 2 taken.room refl refl))
          (enters (codes "first") 2 refl))
        (asks (codes "other") 8 refl))
      (names_conn (codes "first") 3 2 named.room refl refl)

-- Whatever comes after, the entry of the client 2 names 3.
Run-linked_example :
    (lookup 2 joined.room.clients_to_host ≡ some (some 3))
    × ((named.at 3 ≡ linking 2) ⊎ (lookup 3 joined.room.host_to_clients ≡ some 2))
unfolding lookup insert
Run-linked_example =
    Run-linked second named joined 2 3 until_named (further begun (names_client 3 2 refl)) refl

-- The client 8 gets its entry too, and then no handler is between two sections.
abbrev quiet : State
quiet = move joined 8 (waiting (codes "other")) (enter joined.room 8)

until_quiet : Run (beginning second) quiet
until_quiet = further (further until_named (names_client 3 2 refl)) (enters (codes "other") 8 refl)

no_asking : (client : Conn) (request : Text) → quiet.at client ≢ asking request
no_asking client request =
    ground (arith, nat_beq_iff 8 client, nat_beq_iff 3 client, nat_beq_iff 2 client)

no_linking : (conn client : Conn) → quiet.at conn ≢ linking client
no_linking conn client = ground (arith, nat_beq_iff 8 conn, nat_beq_iff 3 conn, nat_beq_iff 2 conn)

quiet-IsPaired_example : IsPaired quiet.room
quiet-IsPaired_example = quiet-IsPaired second quiet until_quiet no_asking no_linking
