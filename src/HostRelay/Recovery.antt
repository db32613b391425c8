-- ===== src/HostRelay/Recovery.antt =====
-- The recovery of `handleHostToRelayGameConnection` from a panic.
use stealthpipe_relay.Prelude.{
  true, none, some, List, [], ◌∷◌, ◌++◌, Text, nat_key, text_key, ◌≡◌, ◌≢◌, refl, ap, ◌∙◌,
}
use stealthpipe_relay.Dict.{lookup}
use stealthpipe_relay.Types.{Conn, RoomRef, Server, Effect, close}
use stealthpipe_relay.Types.Reasons.{CloseReason}
use stealthpipe_relay.Cleanup.{as_ptr}
use stealthpipe_relay.Cleanup.Laws.{handle_cleanup-other, partner_effects}
use stealthpipe_relay.HostRelay.{
  World, host_loop, host_relay_handler, finish_panicked, linked_end, forwarded_end,
}

-- What a cleanup closes when the connection is not the room's host.
abbrev pub closed_for : Server → RoomRef → Conn → CloseReason → List Effect
closed_for app ref conn reason =
    partner_effects (lookup conn (app.heap ref).clients_to_host)
    ++ partner_effects (as_ptr (lookup conn (app.heap ref).host_to_clients))
    ++ close conn reason ∷ []

host_relay_handler-panicked :
    (app : Server) (conn client : Conn) (game_id : Text) (world : World) (ref : RoomRef)
    → lookup game_id app.rooms ≡ some ref
    → lookup conn (app.heap ref).host_to_clients ≡ some client
    → (host_loop app client world.frames).reason ≡ none
    → world.panics ≡ true
    → let loop = host_loop app client world.frames in
      host_relay_handler app conn game_id world
      ≡ some (finish_panicked world loop.server conn game_id CloseReason.unspecified loop.effects)
unfolding host_relay_handler linked_end forwarded_end
host_relay_handler-panicked app conn client game_id world ref found linked runs panics =
    rw (found, host_relay_handler)
      (rw (linked, linked_end) (rw (runs, forwarded_end) (rw panics refl)))

-- The servers that the two cleanups meet.
abbrev pub end_of : Server → Conn → World → Server
end_of app client world = world.ended (host_loop app client world.frames).server

abbrev pub recovery_of : Server → Conn → World → Server
recovery_of app client world = world.recovered (end_of app client world)

closed_for-linked :
    (app : Server) (ref : RoomRef) (conn client : Conn) (reason : CloseReason)
    → lookup conn (app.heap ref).clients_to_host ≡ none
    → lookup conn (app.heap ref).host_to_clients ≡ some client
    → closed_for app ref conn reason
      ≡ close client CloseReason.client_disconnected ∷ close conn reason ∷ []
closed_for-linked app ref conn client reason guest linked = rw (guest, linked) refl

-- A room in which a connection is linked as the host connection of a client, and is not the host.
pub record IsLink (app : Server) (game_id : Text) (conn client : Conn) : Type 0 where
  pub ref : RoomRef
  pub there : lookup game_id app.rooms ≡ some ref
  pub not_host : (app.heap ref).host ≢ some conn
  pub not_client : lookup conn (app.heap ref).clients_to_host ≡ none
  pub link : lookup conn (app.heap ref).host_to_clients ≡ some client

-- The handler of a host connection that is linked with a client panics after its frames, and the
-- two are linked at both cleanups still. Then the relay closes the client and the connection twice,
-- first the connection with the reason `Unspecified` that was deferred and only then with
-- `InternalError`, and what the loop has forwarded stays forwarded.
pub recovered_twice :
    (app : Server) (conn client : Conn) (game_id : Text) (world : World)
    → IsLink app game_id conn client
    → (host_loop app client world.frames).reason ≡ none
    → world.panics ≡ true
    → IsLink (end_of app client world) game_id conn client
    → IsLink (recovery_of app client world) game_id conn client
    → host_relay_handler app conn game_id world
      ≡ some (record {
        server = recovery_of app client world;
        effects =
            (host_loop app client world.frames).effects
            ++ (close client CloseReason.client_disconnected
                ∷ close conn CloseReason.unspecified
                ∷ [])
            ++ (close client CloseReason.client_disconnected
                ∷ close conn CloseReason.internal_error
                ∷ []);
        last_reason = CloseReason.unspecified;
      })
unfolding finish_panicked
recovered_twice app conn client game_id world l runs panics m n =
    let app' = end_of app client world in
    let app'' = recovery_of app client world in
    let first =
      handle_cleanup-other app' conn game_id CloseReason.unspecified world.now m.ref m.there
        m.not_host
      ∙ ap (λ e. (app', e)) (closed_for-linked app' m.ref conn client _ m.not_client m.link) in
    let second =
      handle_cleanup-other app'' conn game_id CloseReason.internal_error world.now n.ref n.there
        n.not_host
      ∙ ap (λ e. (app'', e)) (closed_for-linked app'' n.ref conn client _ n.not_client n.link) in
    rw (host_relay_handler-panicked app conn client game_id world l.ref l.there l.link runs panics)
      (rw first (rw second refl))
