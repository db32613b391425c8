-- ===== src/HostRelay.antt =====
-- src/core/ConnectionsHostToRelay.go: a host connection that has been linked to a client.
pub mod Forwarding
pub mod Recovery
use stealthpipe_relay.Prelude.{
  ℕ, ◌+◌, Bool, true, false, Option, none, some, List, [], ◌∷◌, ◌++◌, Text, take, length, nat_key,
  text_key, ltb, if◌then◌else◌,
}
use stealthpipe_relay.Dict.{lookup}
use stealthpipe_relay.Types.{Conn, RoomRef, Room, Server, Effect, write}
use stealthpipe_relay.Types.Reasons.{CloseReason}
use stealthpipe_relay.Cleanup.{handle_cleanup}
use stealthpipe_relay.ClientRelay.Forward.{
  CopyError, Frame, read_error, not_binary, binary, copy_failed, Round, skip, forward, stop,
  Stopped, sent, counted,
}
use stealthpipe_relay.ClientRelay.{Served}

unfoldable pub host_round : ℕ → Frame → Round
unfolding copy_failed
host_round maximum read_error = stop CloseReason.socket_read_failed
host_round maximum not_binary = skip
host_round maximum (binary message writer_ok copy limiter_ok) =
    let copied = take (maximum + 1) message in
    if writer_ok
    then (if copy_failed copy
        then stop CloseReason.socket_read_failed
        else if ltb maximum (length copied)
        then stop CloseReason.packet_too_large
        else if limiter_ok
        then forward copied
        else stop CloseReason.internal_error)
    else stop CloseReason.socket_write_failed

-- The loop from the host connection to the client.
unfoldable pub host_loop : Server → Conn → List Frame → Stopped
unfolding host_round sent counted
host_loop app target [] = record { server = app; effects = []; reason = none }
host_loop app target (frame ∷ frames) = elim (host_round app.config.packet_maximum_size frame) [
  | skip ↦ host_loop app target frames
  | forward message ↦ sent target message (host_loop (counted app) target frames)
  | stop reason ↦ record { server = app; effects = []; reason = some reason }
]

-- The frames of the host connection, whether the handler panics after them, what other handlers do
-- before the end and before the cleanup of a recovery, and the instant of both.
pub record World : Type 0 where
  pub frames : List Frame
  pub panics : Bool
  pub ended : Server → Server
  pub recovered : Server → Server
  pub now : ℕ

-- The deferred cleanup, with the reason that was set when it was deferred.
unfoldable pub finish_host :
    Server → Conn → Text → CloseReason → CloseReason → List Effect → ℕ → Served
finish_host app conn game_id deferred last effects now =
    let (app', closed) = handle_cleanup app conn game_id deferred now in
    record { server = app'; effects = effects ++ closed; last_reason = last }

-- After a panic: the deferred cleanup, and then that of the recovery, which was deferred before it.
unfoldable pub finish_panicked : World → Server → Conn → Text → CloseReason → List Effect → Served
finish_panicked world app conn game_id deferred effects =
    let (app', closed) = handle_cleanup (world.ended app) conn game_id deferred world.now in
    let (app'', again) =
      handle_cleanup (world.recovered app') conn game_id CloseReason.internal_error world.now in
    record { server = app''; effects = effects ++ closed ++ again; last_reason = deferred }

forwarded_end : Conn → Text → CloseReason → World → Stopped → Option Served
forwarded_end conn game_id deferred world loop = elim loop.reason [
  | none ↦
      if world.panics
      then some (finish_panicked world loop.server conn game_id deferred loop.effects)
      else none
  | some last ↦
      some (finish_host (world.ended loop.server) conn game_id deferred last loop.effects world.now)
]

linked_end : Server → Conn → Text → CloseReason → World → Option Conn → Option Served
unfolding forwarded_end
linked_end app conn game_id deferred world none =
    some (finish_host (world.ended app) conn game_id deferred deferred [] world.now)
linked_end app conn game_id deferred world (some client) =
    forwarded_end conn game_id deferred world (host_loop app client world.frames)

-- `handleHostToRelayGameConnection`; `none` means that it still runs when the frames end.
unfoldable pub host_relay_handler : Server → Conn → Text → World → Option Served
unfolding linked_end
host_relay_handler app conn game_id world =
    let close_reason = CloseReason.unspecified in
    elim (lookup game_id app.rooms) [
      | none ↦
          some (finish_host (world.ended app) conn game_id close_reason close_reason [] world.now)
      | some ref ↦
          linked_end app conn game_id close_reason world
            (lookup conn (app.heap ref).host_to_clients)
    ]
