-- ===== src/Cleanup/Laws.antt =====
-- The closing loop of `handleCleanup`, and what the handler does on each of its branches.
use stealthpipe_relay.Prelude.{
  ℕ, zero, suc, ◌+◌, ◌<◌, true, false, Option, none, some, List, [], ◌∷◌, ◌++◌, Text, get_elem?,
  nat_key, text_key, if◌then◌else◌, ◌≡◌, refl, sym, arith, length, length-append, ◌==◌, ◌≢◌, ◌⊎◌,
  ◌↔◌,
}
use mathlib.Core.List.{append-nil, append_assoc}
use stealthpipe_relay.Dict.{Dict, lookup}
use stealthpipe_relay.Dict.Laws.{lookup-insert, lookup-delete}
use stealthpipe_relay.Types.{Conn, Ptr, Room, Server, new_recently_deleted_room, Effect, close}
use stealthpipe_relay.Types.Reasons.{CloseReason}
use stealthpipe_relay.Cleanup.{
  Closing, push, push_pairs, push_some, reason_at, close_one, close_loop, close_all, no_closing,
  host_closing, client_closing, forget_room, handle_cleanup, is_host, as_ptr, cleanup_room,
}

-- Each connection of the one slice has a reason in the other.
abbrev pub IsPaired : Closing → Type 0
IsPaired c = length c.to_close ≡ length c.close_reasons

get_elem?-append_left :
    {A : Type 0} (xs ys : List A) (i : ℕ) → i < length xs → get_elem? (xs ++ ys) i ≡ get_elem? xs i
get_elem?-append_left [] ys i h = elim h [ ]
get_elem?-append_left (x ∷ xs) ys zero h = refl
get_elem?-append_left (x ∷ xs) ys (suc i) h = get_elem?-append_left xs ys i (omega arith)

get_elem?-append_last :
    {A : Type 0} (xs : List A) (a : A) → get_elem? (xs ++ a ∷ []) (length xs) ≡ some a
get_elem?-append_last [] a = refl
get_elem?-append_last (x ∷ xs) a = get_elem?-append_last xs a

close_loop-last :
    (index : ℕ) (reasons : List CloseReason) (list : List Ptr) (reason : CloseReason) (ws : Ptr)
    → index + length list ≡ length reasons
    → close_loop index (reasons ++ reason ∷ []) (list ++ ws ∷ [])
      ≡ close_loop index reasons list ++ close_one ws reason
unfolding close_loop reason_at close_one
close_loop-last index reasons [] reason ws h =
    let e : index ≡ length reasons = omega arith in
    rw (e, get_elem?-append_last reasons reason) (append-nil _)
close_loop-last index reasons (x ∷ list) reason ws h =
    rw
      (
        get_elem?-append_left reasons (reason ∷ []) index (omega arith),
        close_loop-last (suc index) reasons list reason ws (omega arith),
      )
      (simp append_assoc)

push-IsPaired :
    (ws : Ptr) (reason : CloseReason) (c : Closing) → IsPaired c → IsPaired (push ws reason c)
unfolding push
push-IsPaired ws reason c h =
    omega (arith, length-append c.to_close (ws ∷ []), length-append c.close_reasons (reason ∷ []))

-- With a reason for each connection, the loop closes the last one pushed last, for its own reason.
close_all-push :
    (ws : Ptr) (reason : CloseReason) (c : Closing)
    → IsPaired c
    → close_all (push ws reason c) ≡ close_all c ++ close_one ws reason
unfolding push close_all
close_all-push ws reason c h = close_loop-last 0 c.close_reasons c.to_close reason ws (omega arith)

-- What a room's clients and their host connections are told when the host leaves.
abbrev pub pair_effects : Dict Conn Ptr → List Effect
pair_effects [] = []
pair_effects ((ws1, none) ∷ m) = close ws1 CloseReason.host_disconnected ∷ pair_effects m
pair_effects ((ws1, some ws2) ∷ m) =
    close ws2 CloseReason.signal_disconnected
    ∷ close ws1 CloseReason.host_disconnected
    ∷ pair_effects m

push_pairs-IsPaired : (m : Dict Conn Ptr) (c : Closing) → IsPaired c → IsPaired (push_pairs m c)
unfolding push_pairs
push_pairs-IsPaired [] c h = h
push_pairs-IsPaired ((ws1, ws2) ∷ m) c h =
    push_pairs-IsPaired m _ (push-IsPaired _ _ _ (push-IsPaired _ _ c h))

close_all-push_pairs :
    (m : Dict Conn Ptr) (c : Closing)
    → IsPaired c
    → close_all (push_pairs m c) ≡ close_all c ++ pair_effects m
unfolding push_pairs close_one
close_all-push_pairs [] c h = sym (append-nil _)
close_all-push_pairs ((ws1, none) ∷ m) c h =
    let h' = push-IsPaired none CloseReason.signal_disconnected c h in
    rw
      (
        close_all-push_pairs m _ (push-IsPaired (some ws1) CloseReason.host_disconnected _ h'),
        close_all-push (some ws1) CloseReason.host_disconnected _ h',
        close_all-push none CloseReason.signal_disconnected c h,
      )
      (simp (append_assoc, append-nil))
close_all-push_pairs ((ws1, some ws2) ∷ m) c h =
    let h' = push-IsPaired (some ws2) CloseReason.signal_disconnected c h in
    rw
      (
        close_all-push_pairs m _ (push-IsPaired (some ws1) CloseReason.host_disconnected _ h'),
        close_all-push (some ws1) CloseReason.host_disconnected _ h',
        close_all-push (some ws2) CloseReason.signal_disconnected c h,
      )
      (simp append_assoc)

close_all-host_closing :
    (room : Room) (conn : Conn) (reason : CloseReason)
    → close_all (host_closing room conn reason)
      ≡ pair_effects room.clients_to_host ++ close conn reason ∷ []
unfolding host_closing close_one
close_all-host_closing room conn reason =
    rw
      (
        close_all-push (some conn) reason _
            (push_pairs-IsPaired room.clients_to_host no_closing refl),
        close_all-push_pairs room.clients_to_host no_closing refl,
      )
      (closed_nothing room conn reason)
  where
    closed_nothing :
        (room : Room) (conn : Conn) (reason : CloseReason)
        → (close_all no_closing ++ pair_effects room.clients_to_host) ++ close conn reason ∷ []
          ≡ pair_effects room.clients_to_host ++ close conn reason ∷ []
    closed_nothing room conn reason = unfold close_all in refl

-- What a client's end, or a host connection's, closes: the partner that the room knows, if any.
abbrev pub partner_effects : Option Ptr → List Effect
partner_effects none = []
partner_effects (some none) = []
partner_effects (some (some ws)) = close ws CloseReason.client_disconnected ∷ []

push_some-IsPaired :
    (o : Option Ptr) (reason : CloseReason) (c : Closing)
    → IsPaired c
    → IsPaired (push_some o reason c)
unfolding push_some
push_some-IsPaired none reason c h = h
push_some-IsPaired (some ws) reason c h = push-IsPaired ws reason c h

close_all-push_some :
    (o : Option Ptr) (c : Closing)
    → IsPaired c
    → close_all (push_some o CloseReason.client_disconnected c) ≡ close_all c ++ partner_effects o
unfolding push_some close_one
close_all-push_some none c h = sym (append-nil _)
close_all-push_some (some none) c h = close_all-push none CloseReason.client_disconnected c h
close_all-push_some (some (some ws)) c h =
    close_all-push (some ws) CloseReason.client_disconnected c h

closing_partners :
    (host_connection client_connection : Option Ptr) (conn : Conn) (reason : CloseReason)
    → close_all (
        push (some conn) reason (
          push_some client_connection CloseReason.client_disconnected
            (push_some host_connection CloseReason.client_disconnected no_closing)))
      ≡ (close_all no_closing ++ partner_effects host_connection)
        ++ partner_effects client_connection
        ++ close conn reason ∷ []
unfolding close_one
closing_partners h c conn reason =
    let first = push_some-IsPaired h CloseReason.client_disconnected no_closing refl in
    rw
      (
        close_all-push (some conn) reason _
            (push_some-IsPaired c CloseReason.client_disconnected _ first),
        close_all-push_some c _ first,
        close_all-push_some h no_closing refl,
      )
      (simp append_assoc)

close_all-client_closing :
    (room : Room) (conn : Conn) (reason : CloseReason)
    → close_all (client_closing room conn reason)
      ≡ partner_effects (lookup conn room.clients_to_host)
        ++ partner_effects (as_ptr (lookup conn room.host_to_clients))
        ++ close conn reason ∷ []
unfolding client_closing close_all close_one
close_all-client_closing room conn reason =
    closing_partners (lookup conn room.clients_to_host) (as_ptr (lookup conn room.host_to_clients))
      conn reason

is_host-true : (host : Ptr) (conn : Conn) → host ≡ some conn → is_host host conn ≡ true
unfolding is_host
is_host-true host conn h = ground arith

is_host-false : (host : Ptr) (conn : Conn) → host ≢ some conn → is_host host conn ≡ false
unfolding is_host
is_host-false none conn h = refl
is_host-false (some c) conn h = ground arith

-- When the connection that ends is the room's host, every client and every host connection of the
-- room is closed with its own reason and the host last; the room leaves the map, all other rooms
-- stay, and the reason is remembered for the code.
pub handle_cleanup-host :
    (app : Server) (conn : Conn) (game_id : Text) (reason : CloseReason) (now ref : ℕ)
    → lookup game_id app.rooms ≡ some ref
    → (app.heap ref).host ≡ some conn
    → let (app', effects) = handle_cleanup app conn game_id reason now in
      (effects ≡ pair_effects (app.heap ref).clients_to_host ++ close conn reason ∷ [])
      × ((code : Text)
          → lookup code app'.rooms ≡ (if game_id == code then none else lookup code app.rooms))
      × ((code : Text)
          → lookup code app'.recently_deleted_rooms ≡ (
              if game_id == code
              then some (new_recently_deleted_room now reason)
              else lookup code app.recently_deleted_rooms))
unfolding handle_cleanup forget_room
handle_cleanup-host app conn game_id reason now ref found host =
    rw (found, handle_cleanup)
      (rw (is_host-true (app.heap ref).host conn host, cleanup_room)
        (
          close_all-host_closing (app.heap ref) conn reason,
          λ code. lookup-delete game_id code app.rooms,
          λ code. lookup-insert game_id code _ app.recently_deleted_rooms,
        ))

-- When another connection ends, the server's state does not change: the entry of the connection
-- stays in the room's maps. Its partner is closed, if the room knows one, and then itself.
pub handle_cleanup-other :
    (app : Server) (conn : Conn) (game_id : Text) (reason : CloseReason) (now ref : ℕ)
    → lookup game_id app.rooms ≡ some ref
    → (app.heap ref).host ≢ some conn
    → handle_cleanup app conn game_id reason now ≡ (
      app,
      partner_effects (lookup conn (app.heap ref).clients_to_host)
          ++ partner_effects (as_ptr (lookup conn (app.heap ref).host_to_clients))
          ++ close conn reason ∷ [],
    )
unfolding handle_cleanup
handle_cleanup-other app conn game_id reason now ref found other =
    rw (found, handle_cleanup)
      (rw (
        is_host-false (app.heap ref).host conn other,
        cleanup_room,
        close_all-client_closing (app.heap ref) conn reason,
      ))

pub is_host_iff : (host : Ptr) (conn : Conn) → (is_host host conn ≡ true) ↔ (host ≡ some conn)
unfolding is_host
is_host_iff none conn = ground arith
is_host_iff (some c) conn = ground arith

-- The cleanup after the host of a room makes the server forget the room.
pub handle_cleanup-forgets :
    (app : Server) (conn : Conn) (game_id : Text) (reason : CloseReason) (now ref : ℕ)
    → lookup game_id app.rooms ≡ some ref
    → (app.heap ref).host ≡ some conn
    → (handle_cleanup app conn game_id reason now).0 ≡ forget_room app game_id reason now
unfolding handle_cleanup
handle_cleanup-forgets app conn game_id reason now ref found host =
    rw (found, handle_cleanup) (rw (is_host-true (app.heap ref).host conn host, cleanup_room) refl)

pub handle_cleanup-missing :
    (app : Server) (conn : Conn) (game_id : Text) (reason : CloseReason) (now : ℕ)
    → lookup game_id app.rooms ≡ none
    → (handle_cleanup app conn game_id reason now).0 ≡ app
unfolding handle_cleanup
handle_cleanup-missing app conn game_id reason now missing = rw (missing, handle_cleanup) refl

-- The cleanup leaves the number of connected clients alone.
pub handle_cleanup-count :
    (app : Server) (conn : Conn) (game_id : Text) (reason : CloseReason) (now : ℕ)
    → (handle_cleanup app conn game_id reason now).0.number_of_clients_connected
      ≡ app.number_of_clients_connected
unfolding handle_cleanup forget_room
handle_cleanup-count app conn game_id reason now = ground arith

-- The cleanup changes nothing of the server, or makes it forget the room.
pub handle_cleanup-server :
    (app : Server) (conn : Conn) (game_id : Text) (reason : CloseReason) (now : ℕ)
    → ((handle_cleanup app conn game_id reason now).0 ≡ app)
      ⊎ ((handle_cleanup app conn game_id reason now).0 ≡ forget_room app game_id reason now)
unfolding handle_cleanup
handle_cleanup-server app conn game_id reason now = ground arith
