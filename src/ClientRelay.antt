-- ===== src/ClientRelay.antt =====
-- src/core/ConnectionsClientToRelay.go: a client's connection, from the request to the host over the
-- wait for the host's answer to the forwarding loop.
pub mod Wait
pub mod Forward
pub mod Waiting
pub mod Forwarding
pub mod Closing
pub mod Session
use stealthpipe_relay.Prelude.{
  ℕ, ◌+◌, Bool, true, false, Option, none, some, List, [], ◌∷◌, ◌++◌, Text, codes, nat_key,
  text_key, if◌then◌else◌,
}
use stealthpipe_relay.Numbers.{print_nat}
use stealthpipe_relay.Dict.{Dict, lookup, insert, delete}
use stealthpipe_relay.Types.{
  Conn, Ptr, RoomRef, Room, Server, ServerConfig, set_room, Effect, write, close, dec64,
}
use stealthpipe_relay.Types.Reasons.{CloseReason}
use stealthpipe_relay.Cleanup.{handle_cleanup}
use Wait.{Seen, Waited, found, gave_up, still_waiting, wait_for_host, handle_request_cleanup}
use Forward.{Frame, Stopped, client_loop}

-- `"REQUESTCONNECTION_" + strconv.Itoa(n) + gameId`
unfoldable pub request_message : ℕ → Text → Text
request_message n game_id = codes "REQUESTCONNECTION_" ++ print_nat n ++ game_id

-- The two writes to the room's maps, each under its own lock.
unfoldable pub register : Room → Text → Conn → Room
register room message conn = record room {
  requested_connections = insert message conn room.requested_connections;
  clients_to_host = insert conn none room.clients_to_host;
}

-- How the opening ends: without a request, or with the request that was sent.
pub data Opened : Type 0 where
  stopped : Server → List Effect → Opened
  requested : Server → List Effect → Text → Opened

-- The request to the host of the room. `drawn` is the random number, or `none` for an error.
unfoldable pub send_request : Server → RoomRef → Conn → Conn → Text → Option ℕ → Opened
unfolding request_message register
send_request app ref host conn game_id none = stopped app []
send_request app ref host conn game_id (some n) =
    let message = request_message n game_id in
    requested (set_room app ref (register (app.heap ref) message conn)) (write host message ∷ [])
      message

unfoldable pub open_room : Server → RoomRef → Ptr → Conn → Text → Option ℕ → Opened
unfolding send_request
open_room app ref none conn game_id drawn = stopped app (close conn CloseReason.room_no_host ∷ [])
open_room app ref (some host) conn game_id drawn =
    if (app.heap ref).host_mu
    then send_request app ref host conn game_id drawn
    else stopped app (close conn CloseReason.room_bad_state ∷ [])

unfoldable pub open_client : Server → Conn → Text → Option ℕ → Opened
unfolding open_room
open_client app conn game_id drawn = elim (lookup game_id app.rooms) [
  | none ↦ stopped app (close conn CloseReason.room_not_found ∷ [])
  | some ref ↦ open_room app ref (app.heap ref).host conn game_id drawn
]

-- What the handler meets outside: the draw, whether the write to the host succeeds, what the polls
-- of the wait see, the frames of the client, the instant of the end, and what other handlers do to
-- the server during the wait and before the end.
pub record World : Type 0 where
  pub drawn : Option ℕ
  pub written : Bool
  pub polls : List Seen
  pub waited : Server → Server
  pub frames : List Frame
  pub ended : Server → Server
  pub now : ℕ

-- The deferred calls. The reason is the argument that the deferred call was given when it was
-- deferred; the counter goes down first.
unfoldable pub close_client : Server → Conn → Text → CloseReason → ℕ → Server × List Effect
close_client app conn game_id reason now =
    handle_cleanup
      (record app { number_of_clients_connected = dec64 app.number_of_clients_connected }) conn
      game_id reason now

-- How the handler ends, if it does: the reason that the variable `closeReason` holds then.
pub record Served : Type 0 where
  pub server : Server
  pub effects : List Effect
  pub last_reason : CloseReason

-- The deferred cleanup runs last, with the reason that was set when it was deferred.
unfoldable pub finish_client :
    Server → Conn → Text → CloseReason → CloseReason → List Effect → ℕ → Served
finish_client app conn game_id deferred last effects now =
    let (app', closed) = close_client app conn game_id deferred now in
    record { server = app'; effects = effects ++ closed; last_reason = last }

-- The handler runs still when the polls or the frames are over, having had these effects, or it has
-- ended.
pub data Handled : Type 0 where
  runs : List Effect → Handled
  over : Served → Handled

forwarded_end : Conn → Text → CloseReason → List Effect → World → Stopped → Handled
forwarded_end conn game_id deferred effects world loop = elim loop.reason [
  | none ↦ runs (effects ++ loop.effects)
  | some last ↦ over (
      finish_client (world.ended loop.server) conn game_id deferred last (effects ++ loop.effects)
        world.now)
]

waited_end : Server → Conn → Text → CloseReason → List Effect → World → Waited → Text → Handled
unfolding forwarded_end
waited_end app conn game_id deferred effects world still_waiting message = runs effects
waited_end app conn game_id deferred effects world gave_up message = over (
    finish_client (world.ended (handle_request_cleanup (world.waited app) message game_id)) conn
      game_id deferred CloseReason.pair_link_failed effects world.now)
waited_end app conn game_id deferred effects world (found host) message =
    let app' = handle_request_cleanup (world.waited app) message game_id in
    forwarded_end conn game_id deferred effects world (client_loop app' host world.frames)

opened_end : Conn → Text → CloseReason → World → Opened → Handled
unfolding waited_end
opened_end conn game_id deferred world (stopped app effects) =
    over (finish_client (world.ended app) conn game_id deferred deferred effects world.now)
opened_end conn game_id deferred world (requested app effects message) =
    if world.written
    then waited_end app conn game_id deferred effects world (wait_for_host conn game_id world.polls)
        message
    else over (
        finish_client (world.ended app) conn game_id deferred CloseReason.socket_write_failed
          effects world.now)

-- `clientRelayHandler`
unfoldable pub client_relay_handler : Server → Conn → Text → World → Handled
unfolding opened_end
client_relay_handler app conn game_id world =
    let close_reason = CloseReason.unspecified in
    opened_end conn game_id close_reason world (open_client app conn game_id world.drawn)
