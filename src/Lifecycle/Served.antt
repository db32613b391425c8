-- ===== src/Lifecycle/Served.antt =====
-- A client's connection together with the host's answer to it, while others use the room.
use stealthpipe_relay.Prelude.{
  length, ℕ, ◌<◌, ◌^◌, true, none, some, List, [], ◌∷◌, ◌++◌, Text, nat_key, text_key, All, ◌≡◌,
  refl,
}
use stealthpipe_relay.Dict.{lookup}
use stealthpipe_relay.Types.{Conn, RoomRef, Room, Server, write}
use stealthpipe_relay.Pairing.{IsPaired, register-IsPaired}
use stealthpipe_relay.Join.{link_request}
use stealthpipe_relay.ClientRelay.{World, register, request_message, client_relay_handler}
use stealthpipe_relay.ClientRelay.Wait.{
  Seen, continues, returns, poll, poll_room, wait_for_host, found, handle_request_cleanup,
}
use stealthpipe_relay.ClientRelay.Forwarding.{payloads, any_ends, writes}
use stealthpipe_relay.ClientRelay.Session.{Serves, closing, registered, client_relay_handler-Serves}
use stealthpipe_relay.Lifecycle.{RoomReach, here, next}
use stealthpipe_relay.Lifecycle.Rooms.{RoomStep-IsPaired}
use stealthpipe_relay.Lifecycle.Hosts.{RoomReach-host}
use stealthpipe_relay.Lifecycle.Rendezvous.{rendezvous}

RoomReach-IsPaired_from : {r s : Room} → RoomReach r s → IsPaired r → IsPaired s
RoomReach-IsPaired_from here v = v
RoomReach-IsPaired_from (next r st) v = RoomStep-IsPaired st (RoomReach-IsPaired_from r v)

-- Rounds that go on are passed over.
wait_for_host-before :
    (client h : Conn) (game_id : Text) (before rest : List Seen) (seen : Seen)
    → All (λ s. poll client game_id s ≡ continues) before
    → poll client game_id seen ≡ returns h
    → wait_for_host client game_id (before ++ seen ∷ rest) ≡ found h
unfolding wait_for_host
wait_for_host-before client h game_id [] rest seen all last = rw (last, wait_for_host) refl
wait_for_host-before client h game_id (s ∷ before) rest seen all last =
    rw (all.0, wait_for_host) (wait_for_host-before client h game_id before rest seen all.1 last)

poll-room :
    (client h : Conn) (game_id : Text) (seen : Seen) (ref : RoomRef)
    → lookup game_id seen.server.rooms ≡ some ref
    → poll_room (seen.server.heap ref) client seen.elapsed ≡ returns h
    → poll client game_id seen ≡ returns h
unfolding poll
poll-room client h game_id seen ref there returned = rw (there, poll) returned

-- A client that is new to a paired room whose host is reachable asks for a host connection; while its
-- request waits, others use the room in any way; the host answers with a connection that is new to
-- the room; and again others use it in any way, each registration and each link as one step. If the
-- client polls the room then, and has seen itself wait before, what its handler sends is exactly the
-- request to the host and the client's binary messages before the first frame that ends its loop,
-- which go to the connection that the host has answered with, unchanged and in order. Without such a
-- frame the handler runs on; with one the effects of its cleanup follow, and no others.
pub answered_client :
    (app : Server) (client host h : Conn) (game_id : Text) (world : World) (ref : RoomRef)
    (n now : ℕ) (asked : Room) (before rest : List Seen) (seen : Seen)
    → lookup game_id app.rooms ≡ some ref
    → (app.heap ref).host ≡ some host
    → (app.heap ref).host_mu ≡ true
    → world.drawn ≡ some n
    → world.written ≡ true
    → IsPaired (app.heap ref)
    → lookup client (app.heap ref).clients_to_host ≡ none
    → RoomReach (register (app.heap ref) (request_message n game_id) client) asked
    → lookup (request_message n game_id) asked.requested_connections ≡ some client
    → lookup h asked.host_to_clients ≡ none
    → RoomReach (link_request asked (request_message n game_id) h now).0 (seen.server.heap ref)
    → lookup game_id seen.server.rooms ≡ some ref
    → world.polls ≡ before ++ seen ∷ rest
    → All (λ s. poll client game_id s ≡ continues) before
    → (world.waited (registered app ref (request_message n game_id) client)).packet_counter < 2 ^ 64
    → let m = request_message n game_id in
      let app' = world.waited (registered app ref m client) in
      let forwarded = payloads app'.config.packet_maximum_size world.frames in
      Serves
        (write host m ∷ writes h forwarded)
        (any_ends app'.config.packet_maximum_size world.frames)
        (closing (handle_request_cleanup app' m game_id) client game_id world (length forwarded))
        (client_relay_handler app client game_id world)
answered_client app client host h game_id world ref n now asked before rest seen room hosted mu
      drawn written paired new others waits fresh later there polls waited small =
    let m = request_message n game_id in
    let v = RoomReach-IsPaired_from others (register-IsPaired (app.heap ref) m client paired new) in
    let still : asked.host ≡ some host = RoomReach-host host others (unfold register in hosted) in
    let answer =
      rendezvous asked (seen.server.heap ref) m client h host now seen.elapsed v still waits fresh
        later in
    client_relay_handler-Serves app client host h game_id world ref n room hosted mu drawn written
      (rw polls (
        wait_for_host-before client h game_id before rest seen waited
          (poll-room client h game_id seen ref there answer)))
      small
