-- ===== src/ClientRelay/Session.antt =====
-- A client's connection from the request to the last message.
use stealthpipe_relay.Prelude.{
  length, ℕ, ◌<◌, ◌^◌, Bool, true, none, some, List, [], ◌∷◌, ◌++◌, Text, text_key, ◌≡◌, ◌↔◌, ap,
  ◌∙◌, refl, false, arith, Option-cases, inl, inr,
}
use stealthpipe_relay.Dict.{lookup}
use stealthpipe_relay.Types.{Conn, RoomRef, Server, set_room, Effect, write}
use stealthpipe_relay.Types.Reasons.{CloseReason}
use stealthpipe_relay.ClientRelay.Wait.{found, wait_for_host, handle_request_cleanup}
use stealthpipe_relay.ClientRelay.Forward.{Stopped, client_loop}
use stealthpipe_relay.ClientRelay.Forwarding.{
  payloads, any_ends, writes, bump, client_loop-IsForwarded,
}
use stealthpipe_relay.ClientRelay.{
  World, Handled, runs, over, close_client, requested, request_message, register, open_client,
  open_room, send_request, finish_client, forwarded_end, waited_end, opened_end,
  client_relay_handler,
}

-- A handler that ends has sent exactly this, in order, and then its cleanup, which leaves the server
-- and has the effects of `closing`, ends it; one that still runs has sent exactly this.
abbrev pub Serves : List Effect → Bool → Server × List Effect → Handled → Type 0
Serves sent ends closing (runs effects) = (ends ≡ false) × (effects ≡ sent)
Serves sent ends closing (over s) =
    (ends ≡ true) × (s.server ≡ closing.0) × (s.effects ≡ sent ++ closing.1)

-- The cleanup at the end, in the server that the loop leaves after so many packets and that others
-- have changed then.
abbrev pub closing : Server → Conn → Text → World → ℕ → Server × List Effect
closing app conn game_id world packets =
    close_client (world.ended (bump app packets)) conn game_id CloseReason.unspecified world.now

forwarded_end-Serves :
    (app : Server) (conn : Conn) (game_id : Text) (effects sent : List Effect) (world : World)
    (ends : Bool) (packets : ℕ) (loop : Stopped)
    → loop.effects ≡ sent
    → loop.server ≡ bump app packets
    → (loop.reason ≡ none) ↔ (ends ≡ false)
    → Serves
        (effects ++ sent)
        ends
        (closing app conn game_id world packets)
        (forwarded_end conn game_id CloseReason.unspecified effects world loop)
unfolding forwarded_end finish_client
forwarded_end-Serves app conn game_id effects sent world ends packets loop same server running =
    elim (Option-cases loop.reason) [
      | inl on ↦ rw (on, forwarded_end) (running.0 on, ap (◌++◌ effects) same)
      | inr (last, stops) ↦
          rw (stops, forwarded_end) (rw (← same, ← server) (ground arith, refl, refl))
    ]

-- The server once the client is registered.
abbrev pub registered : Server → RoomRef → Text → Conn → Server
registered app ref message conn = set_room app ref (register (app.heap ref) message conn)

open_client-requested :
    (app : Server) (conn host : Conn) (game_id : Text) (ref : RoomRef) (n : ℕ)
    → lookup game_id app.rooms ≡ some ref
    → (app.heap ref).host ≡ some host
    → (app.heap ref).host_mu ≡ true
    → open_client app conn game_id (some n)
      ≡ requested
          (registered app ref (request_message n game_id) conn)
          (write host (request_message n game_id) ∷ [])
          (request_message n game_id)
unfolding open_client
open_client-requested app conn host game_id ref n room hosted mu =
    rw (room, open_client)
      (ap (λ p. open_room app ref p conn game_id (some n)) hosted
        ∙ (unfold open_room in rw mu (unfold send_request in refl)))

handle_request_cleanup-same :
    (app : Server) (request game_id : Text)
    → ((handle_request_cleanup app request game_id).packet_counter ≡ app.packet_counter)
      × ((handle_request_cleanup app request game_id).config ≡ app.config)
unfolding handle_request_cleanup
handle_request_cleanup-same app request game_id = ground arith

-- The loop after the wait, in the state that dropping the request leaves.
loop-Serves :
    (app : Server) (conn h : Conn) (game_id message : Text) (effects : List Effect) (world : World)
    (maximum : ℕ)
    → app.packet_counter < 2 ^ 64
    → app.config.packet_maximum_size ≡ maximum
    → Serves
        (effects ++ writes h (payloads maximum world.frames))
        (any_ends maximum world.frames)
        (closing
          (handle_request_cleanup app message game_id)
          conn
          game_id
          world
          (length (payloads maximum world.frames)))
        (forwarded_end conn game_id CloseReason.unspecified effects world
          (client_loop (handle_request_cleanup app message game_id) h world.frames))
loop-Serves app conn h game_id message effects world maximum small limit =
    let (counter, config) = handle_request_cleanup-same app message game_id in
    let i =
      client_loop-IsForwarded (handle_request_cleanup app message game_id) h world.frames
        (rw counter small) in
    let same = ap (λ c. c.packet_maximum_size) config ∙ limit in
    rw (← same) (
      forwarded_end-Serves (handle_request_cleanup app message game_id) conn game_id effects _ world
        _ _ _ i.effects i.server i.running)

-- A client joins a room whose host is reachable, and the wait finds a host connection. Then the
-- host is asked for it, and what the handler sends is exactly this request and the binary messages
-- before the first frame that ends the loop, which go to the host connection unchanged and in order.
-- Without such a frame the handler runs on; with one its cleanup follows, for an unspecified reason
-- and in a server that has counted each message, and the effects of the cleanup are the last ones.
pub client_relay_handler-Serves :
    (app : Server) (conn host h : Conn) (game_id : Text) (world : World) (ref : RoomRef) (n : ℕ)
    → lookup game_id app.rooms ≡ some ref
    → (app.heap ref).host ≡ some host
    → (app.heap ref).host_mu ≡ true
    → world.drawn ≡ some n
    → world.written ≡ true
    → wait_for_host conn game_id world.polls ≡ found h
    → (world.waited (registered app ref (request_message n game_id) conn)).packet_counter < 2 ^ 64
    → let app' = world.waited (registered app ref (request_message n game_id) conn) in
      let forwarded = payloads app'.config.packet_maximum_size world.frames in
      Serves
        (write host (request_message n game_id) ∷ writes h forwarded)
        (any_ends app'.config.packet_maximum_size world.frames)
        (closing
          (handle_request_cleanup app' (request_message n game_id) game_id)
          conn
          game_id
          world
          (length forwarded))
        (client_relay_handler app conn game_id world)
unfolding client_relay_handler
client_relay_handler-Serves app conn host h game_id world ref n room hosted mu drawn written waited
      small =
    rw (drawn, client_relay_handler)
      (rw (open_client-requested app conn host game_id ref n room hosted mu, client_relay_handler)
        (rw (written, opened_end)
          (rw (waited, opened_end)
            (unfold waited_end in
              (loop-Serves (world.waited (registered app ref (request_message n game_id) conn)) conn
                h game_id (request_message n game_id) (write host (request_message n game_id) ∷ [])
                world _ small refl)))))
