-- ===== src/ClientRelay/Closing.antt =====
-- How a client's connection ends, and what its peer is told.
use stealthpipe_relay.Prelude.{
  All, [], ◌∷◌, ap, subst, ℕ, ◌^◌, ◌<◌, Option, none, some, List, ◌++◌, ◌⊎◌, nat_beq, nat_beq_iff,
  Text, text_key, nat_key, ◌≡◌, ◌≢◌, sym, refl, arith, In, In-append_right, inl, inr, ◌∙◌,
  Bool-cases, Option-cases,
}
use stealthpipe_relay.Dict.{lookup}
use stealthpipe_relay.Types.{Conn, Ptr, RoomRef, Server, Effect, write, close, dec64}
use stealthpipe_relay.Types.Reasons.{CloseReason}
use stealthpipe_relay.Cleanup.{as_ptr, handle_cleanup}
use stealthpipe_relay.Cleanup.Laws.{
  handle_cleanup-host, handle_cleanup-other, handle_cleanup-count, partner_effects, pair_effects,
}
use stealthpipe_relay.Join.{count_client}
use stealthpipe_relay.ClientRelay.Wait.{
  Waited, found, gave_up, still_waiting, wait_for_host, handle_request_cleanup,
}
use stealthpipe_relay.ClientRelay.Forward.{
  Stopped, Frame, Round, skip, forward, stop, client_round, client_loop, sent, counted,
}
use stealthpipe_relay.ClientRelay.{
  Handled, runs, over, open_room, send_request, Opened, stopped, requested, open_client, World,
  close_client, Served, finish_client, forwarded_end, waited_end, opened_end, client_relay_handler,
}

is_host-cases : (host : Ptr) (conn : Conn) → (host ≡ some conn) ⊎ (host ≢ some conn)
is_host-cases none conn = inr (λ e. ground arith)
is_host-cases (some h) conn = elim (Bool-cases (nat_beq h conn)) [
  | inl same ↦ inl (ground (arith, nat_beq_iff h conn))
  | inr other ↦ inr (λ e. ground (arith, nat_beq_iff h conn))
]

-- A cleanup that finds the room closes the connection for the reason it is given.
handle_cleanup-closes :
    (app : Server) (conn : Conn) (game_id : Text) (reason : CloseReason) (now ref : ℕ)
    → lookup game_id app.rooms ≡ some ref
    → In (close conn reason) (handle_cleanup app conn game_id reason now).1
handle_cleanup-closes app conn game_id reason now ref room =
    elim (is_host-cases (app.heap ref).host conn) [
      | inl host ↦
          rw (handle_cleanup-host app conn game_id reason now ref room host).0
            (In-append_right _ (pair_effects (app.heap ref).clients_to_host) _ (inl refl))
      | inr other ↦ rw (handle_cleanup-other app conn game_id reason now ref room other) (
          In-append_right _
            (partner_effects (lookup conn (app.heap ref).clients_to_host)
              ++ partner_effects (as_ptr (lookup conn (app.heap ref).host_to_clients)))
            _ (inl refl))
    ]

handle_cleanup-absent :
    (app : Server) (conn : Conn) (game_id : Text) (reason : CloseReason) (now : ℕ)
    → lookup game_id app.rooms ≡ none
    → lookup game_id (handle_cleanup app conn game_id reason now).0.rooms ≡ none
unfolding handle_cleanup
handle_cleanup-absent app conn game_id reason now gone = rw (gone, handle_cleanup) gone

-- If the room outlives the handler, its client was closed for an unspecified reason.
abbrev ToldNothing : Conn → Text → Handled → Type 0
ToldNothing conn game_id (runs effects) = Unit
ToldNothing conn game_id (over s) =
    (ref : RoomRef)
    → lookup game_id s.server.rooms ≡ some ref
    → In (close conn CloseReason.unspecified) s.effects

finish_client-ToldNothing :
    (app : Server) (conn : Conn) (game_id : Text) (last : CloseReason) (effects : List Effect)
    (now : ℕ)
    → ToldNothing conn game_id
        (over (finish_client app conn game_id CloseReason.unspecified last effects now))
unfolding finish_client close_client
finish_client-ToldNothing app conn game_id last effects now ref stays =
    let counted = record app {
      number_of_clients_connected = dec64 app.number_of_clients_connected;
    } in
    elim (Option-cases (lookup game_id app.rooms)) [
      | inl gone ↦
          let absent =
            handle_cleanup-absent counted conn game_id CloseReason.unspecified now gone in
          let clash : ◌≡◌ {A = Option RoomRef} none (some ref) = sym absent ∙ stays in
          absurd (cc clash)
      | inr (r, room) ↦
          In-append_right _ effects _
            (handle_cleanup-closes counted conn game_id CloseReason.unspecified now r room)
    ]

-- Before the cleanup, for an unspecified reason, a handler that has ended has only written messages.
abbrev pub IsWrite : Effect → Type 0
IsWrite (write conn message) = Unit
IsWrite (close conn reason) = ⊥

abbrev pub IsToldOnly : Conn → Text → World → Handled → Type 0
IsToldOnly conn game_id world (runs effects) = Unit
IsToldOnly conn game_id world (over s) =
    (sent : List Effect) × (app : Server) × All IsWrite sent
    × (s.server ≡ (close_client app conn game_id CloseReason.unspecified world.now).0)
    × (s.effects ≡ sent ++ (close_client app conn game_id CloseReason.unspecified world.now).1)

abbrev Quiet : Opened → Type 0
Quiet (stopped app effects) = Unit
Quiet (requested app effects message) = All IsWrite effects

open_client-Quiet :
    (app : Server) (conn : Conn) (game_id : Text) (drawn : Option ℕ)
    → Quiet (open_client app conn game_id drawn)
unfolding open_client open_room send_request
open_client-Quiet app conn game_id drawn = elim (Option-cases (lookup game_id app.rooms)) [
  | inl missing ↦ rw (missing, open_client) tt
  | inr (ref, room) ↦ rw (room, open_client) (room_Quiet ref (app.heap ref).host drawn)
]
  where
    room_Quiet :
        (ref : RoomRef) (host : Ptr) (drawn : Option ℕ)
        → Quiet (open_room app ref host conn game_id drawn)
    room_Quiet ref none drawn = tt
    room_Quiet ref (some host) none = elim (Bool-cases (app.heap ref).host_mu) [
      | inl mu ↦ rw mu tt
      | inr lacks ↦ rw lacks tt
    ]
    room_Quiet ref (some host) (some n) = elim (Bool-cases (app.heap ref).host_mu) [
      | inl mu ↦ rw mu (tt, tt)
      | inr lacks ↦ rw lacks tt
    ]

All-append : (xs ys : List Effect) → All IsWrite xs → All IsWrite ys → All IsWrite (xs ++ ys)
All-append [] ys a b = b
All-append (x ∷ xs) ys (p, a) b = (p, All-append xs ys a b)

client_loop-IsWrite :
    (app : Server) (target : Conn) (frames : List Frame)
    → All IsWrite (client_loop app target frames).effects
unfolding client_loop sent
client_loop-IsWrite app target [] = tt
client_loop-IsWrite app target (frame ∷ frames) =
    round (client_round app.config.packet_maximum_size frame) refl
      (λ app'. client_loop-IsWrite app' target frames)
  where
    round :
        (r : Round)
        → client_round app.config.packet_maximum_size frame ≡ r
        → ((app' : Server) → All IsWrite (client_loop app' target frames).effects)
        → All IsWrite (client_loop app target (frame ∷ frames)).effects
    round skip e later = rw (e, client_loop) (later app)
    round (forward message) e later = rw (e, client_loop) (tt, later (counted app))
    round (stop reason) e later = rw (e, client_loop) tt

module _ (conn : Conn) (game_id : Text) (world : World) where
  forwarded_end-ToldNothing :
      (effects : List Effect) (loop : Stopped)
      → ToldNothing conn game_id
          (forwarded_end conn game_id CloseReason.unspecified effects world loop)
  unfolding forwarded_end
  forwarded_end-ToldNothing effects loop = elim (Option-cases loop.reason) [
    | inl on ↦ rw (on, forwarded_end) tt
    | inr (last, e) ↦
        rw (e, forwarded_end)
          (finish_client-ToldNothing (world.ended loop.server) conn game_id last _ world.now)
  ]

  waited_end-ToldNothing :
      (app : Server) (effects : List Effect) (w : Waited) (message : Text)
      → ToldNothing conn game_id
          (waited_end app conn game_id CloseReason.unspecified effects world w message)
  unfolding waited_end
  waited_end-ToldNothing app effects still_waiting message = tt
  waited_end-ToldNothing app effects gave_up message =
      finish_client-ToldNothing _ conn game_id CloseReason.pair_link_failed effects world.now
  waited_end-ToldNothing app effects (found host) message = forwarded_end-ToldNothing effects _

  opened_end-ToldNothing :
      (o : Opened)
      → ToldNothing conn game_id (opened_end conn game_id CloseReason.unspecified world o)
  unfolding opened_end
  opened_end-ToldNothing (stopped app effects) =
      finish_client-ToldNothing _ conn game_id CloseReason.unspecified effects world.now
  opened_end-ToldNothing (requested app effects message) = elim (Bool-cases world.written) [
    | inl ok ↦
        rw ok (waited_end-ToldNothing app effects (wait_for_host conn game_id world.polls) message)
    | inr failed ↦
        rw failed (
          finish_client-ToldNothing _ conn game_id CloseReason.socket_write_failed effects
            world.now)
  ]

  forwarded_end-ToldOnly :
      (effects : List Effect) (loop : Stopped)
      → All IsWrite effects
      → All IsWrite loop.effects
      → IsToldOnly conn game_id world
          (forwarded_end conn game_id CloseReason.unspecified effects world loop)
  unfolding forwarded_end finish_client
  forwarded_end-ToldOnly effects loop e l = elim (Option-cases loop.reason) [
    | inl on ↦ rw (on, forwarded_end) tt
    | inr (last, stops) ↦
        rw (stops, forwarded_end)
          (
            effects ++ loop.effects,
            world.ended loop.server,
            All-append effects loop.effects e l,
            refl,
            refl,
          )
  ]

  waited_end-ToldOnly :
      (app : Server) (effects : List Effect) (w : Waited) (message : Text)
      → All IsWrite effects
      → IsToldOnly conn game_id world
          (waited_end app conn game_id CloseReason.unspecified effects world w message)
  unfolding waited_end finish_client
  waited_end-ToldOnly app effects still_waiting message e = tt
  waited_end-ToldOnly app effects gave_up message e = (effects, _, e, refl, refl)
  waited_end-ToldOnly app effects (found host) message e = forwarded_end-ToldOnly effects _ e (
      client_loop-IsWrite (handle_request_cleanup (world.waited app) message game_id) host
        world.frames)

  requested-ToldOnly :
      (app : Server) (effects : List Effect) (message : Text)
      → All IsWrite effects
      → IsToldOnly conn game_id world
          (opened_end conn game_id CloseReason.unspecified world (requested app effects message))
  unfolding opened_end finish_client
  requested-ToldOnly app effects message e = elim (Bool-cases world.written) [
    | inl ok ↦
        rw ok (waited_end-ToldOnly app effects (wait_for_host conn game_id world.polls) message e)
    | inr failed ↦ rw failed (effects, _, e, refl, refl)
  ]

  -- However the handler of a client ends after the client has asked for a host connection, and
  -- whatever reason it has stored by then: before its cleanup it has written messages only and closed
  -- nothing, and the cleanup is the one for the reason UNSPECIFIED, since the deferred call was given
  -- the value of the variable at its start. So if the room is still there, the client is closed with
  -- that reason, and none of the handler's own reasons reaches anybody.
  pub client_relay_handler_unspecified :
      (app app' : Server) (effects : List Effect) (message : Text) (s : Served) (ref : RoomRef)
      → open_client app conn game_id world.drawn ≡ requested app' effects message
      → client_relay_handler app conn game_id world ≡ over s
      → lookup game_id s.server.rooms ≡ some ref
      → IsToldOnly conn game_id world (over s) × In (close conn CloseReason.unspecified) s.effects
  unfolding client_relay_handler
  client_relay_handler_unspecified app app' effects message s ref asks ends stays =
      let told : ToldNothing conn game_id (client_relay_handler app conn game_id world) =
        opened_end-ToldNothing (open_client app conn game_id world.drawn) in
      let told' : ToldNothing conn game_id (over s) = rw ends at told in
      let quiet : Quiet (requested app' effects message) =
        rw asks at (open_client-Quiet app conn game_id world.drawn) in
      let same : client_relay_handler app conn game_id world
          ≡ opened_end conn game_id CloseReason.unspecified world (requested app' effects message) =
        ap (opened_end conn game_id CloseReason.unspecified world) asks in
      let only : IsToldOnly conn game_id world (over s) =
        subst (IsToldOnly conn game_id world) (sym same ∙ ends)
          (requested-ToldOnly app' effects message quiet) in
      (only, told' ref stays)

-- A client that is counted when it joins is taken off the count when its connection ends.
pub finish_client-count :
    (app : Server) (conn : Conn) (game_id : Text) (reason last : CloseReason)
    (effects : List Effect) (now : ℕ)
    → app.number_of_clients_connected < 2 ^ 64
    → (finish_client
        (count_client app)
        conn
        game_id
        reason
        last
        effects
        now).server.number_of_clients_connected
      ≡ app.number_of_clients_connected
unfolding finish_client close_client
finish_client-count app conn game_id reason last effects now h =
    handle_cleanup-count _ conn game_id reason now ∙ omega arith
