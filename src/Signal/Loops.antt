-- ===== src/Signal/Loops.antt =====
-- The loops of the two kinds of signal connection, and their handlers.
use stealthpipe_relay.Prelude.{
  ℕ, Option, none, some, List, [], ◌∷◌, ◌++◌, Text, text_key, if◌then◌else◌,
}
use stealthpipe_relay.Dict.{lookup}
use stealthpipe_relay.Types.{Conn, Server, Effect, close}
use stealthpipe_relay.Types.Reasons.{CloseReason}
use stealthpipe_relay.ClientRelay.{Served, finish_client}
use stealthpipe_relay.Signal.{
  Frame, skip, packet, stop, signal_round, handle_signal_packet, handle_signal_packet_from_client,
}

-- A frame, after what other handlers did to the server since the last one.
pub record Event : Type 0 where
  pub meanwhile : Server → Server
  pub frame : Frame

-- How a loop ends: not yet, with a reason, or in a panic.
pub data Ending : Type 0 where
  running : Ending
  ended : CloseReason → Ending
  panicked : Ending

pub record Looped : Type 0 where
  pub server : Server
  pub effects : List Effect
  pub ending : Ending

abbrev pub after_effects : List Effect → Looped → Looped
after_effects effects rest = record rest { effects = effects ++ rest.effects }

unfoldable pub host_signal_loop : Server → Conn → Text → List Event → Looped
host_signal_loop app conn game_id [] = record { server = app; effects = []; ending = running }
host_signal_loop app conn game_id (event ∷ events) =
    elim (signal_round app.config.signaling_maximum_packet_size event.frame) [
      | skip ↦ host_signal_loop (event.meanwhile app) conn game_id events
      | packet bytes ↦
          after_effects (handle_signal_packet (event.meanwhile app) bytes conn game_id)
            (host_signal_loop (event.meanwhile app) conn game_id events)
      | stop reason ↦ record { server = event.meanwhile app; effects = []; ending = ended reason }
    ]

-- A packet from a client may panic, or changes the server and lets the loop go on.
abbrev pub client_packet_then : Server → Option (Server × List Effect) → (Server → Looped) → Looped
client_packet_then app none rest = record { server = app; effects = []; ending = panicked }
client_packet_then app (some (app', effects)) rest = after_effects effects (rest app')

unfoldable pub client_signal_loop : Server → Conn → Text → List Event → Looped
client_signal_loop app conn game_id [] = record { server = app; effects = []; ending = running }
client_signal_loop app conn game_id (event ∷ events) =
    elim (signal_round app.config.signaling_maximum_packet_size event.frame) [
      | skip ↦ client_signal_loop (event.meanwhile app) conn game_id events
      | packet bytes ↦
          client_packet_then (event.meanwhile app)
            (handle_signal_packet_from_client (event.meanwhile app) bytes conn game_id)
            (λ app'. client_signal_loop app' conn game_id events)
      | stop reason ↦ record { server = event.meanwhile app; effects = []; ending = ended reason }
    ]

pub record World : Type 0 where
  pub events : List Event
  pub at_end : Server → Server
  pub now : ℕ

-- The deferred calls run at the end of the loop and in a panic.
looped_end : Conn → Text → CloseReason → World → Looped → Option Served
looped_end conn game_id deferred world loop = elim loop.ending [
  | running ↦ none
  | ended last ↦
      some
        (finish_client (world.at_end loop.server) conn game_id deferred last loop.effects world.now)
  | panicked ↦ some (
      finish_client (world.at_end loop.server) conn game_id deferred deferred loop.effects
        world.now)
]

-- A return before the deferred calls are set up.
abbrev pub returned : Server → List Effect → Option Served
returned app effects =
    some (record { server = app; effects = effects; last_reason = CloseReason.unspecified })

-- `HostSignalToRelayHandler`; `none` means that it still runs when the events end.
unfoldable pub host_signal_handler : Server → Conn → Text → World → Option Served
unfolding looped_end
host_signal_handler app conn game_id world = elim (lookup game_id app.rooms) [
  | none ↦ returned app []
  | some _ ↦
      let close_reason = CloseReason.unspecified in
      looped_end conn game_id close_reason world (host_signal_loop app conn game_id world.events)
]

-- `ClientSignalToRelayHandler`
unfoldable pub client_signal_handler : Server → Conn → Text → World → Option Served
unfolding looped_end
client_signal_handler app conn game_id world = elim (lookup game_id app.rooms) [
  | none ↦ returned app (close conn CloseReason.room_not_found ∷ [])
  | some ref ↦
      let close_reason = CloseReason.unspecified in
      let served =
        looped_end conn game_id close_reason world
          (client_signal_loop app conn game_id world.events) in
      if (app.heap ref).has_host
      then served
      else returned app (close conn CloseReason.room_bad_state ∷ [])
]
