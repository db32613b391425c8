-- ===== src/Cleanup.antt =====
-- src/core/ConnectionsCleanup.go and ConnectionClose.go: what happens when a connection ends.
pub mod Laws
use stealthpipe_relay.Prelude.{
  ℕ, suc, Bool, true, false, Option, none, some, List, [], ◌∷◌, ◌++◌, Text, get_elem?, nat_beq,
  nat_key, text_key, if◌then◌else◌,
}
use stealthpipe_relay.Dict.{Dict, lookup, insert, delete}
use stealthpipe_relay.Types.{
  Conn, Ptr, RoomRef, Room, Server, new_recently_deleted_room, Effect, write, close,
}
use stealthpipe_relay.Types.Reasons.{CloseReason}

-- `room.Host == conn`, for a connection that is not nil
unfoldable pub is_host : Ptr → Conn → Bool
is_host none conn = false
is_host (some h) conn = nat_beq h conn

-- The two slices that the handler fills side by side.
pub record Closing : Type 0 where
  pub to_close : List Ptr
  pub close_reasons : List CloseReason

-- One `append` to each slice.
unfoldable pub push : Ptr → CloseReason → Closing → Closing
push ws reason c = record {
  to_close = c.to_close ++ ws ∷ [];
  close_reasons = c.close_reasons ++ reason ∷ [];
}

-- `for ws1, ws2 := range room.ClientsToHostConnections`
unfoldable pub push_pairs : Dict Conn Ptr → Closing → Closing
push_pairs [] c = c
push_pairs ((ws1, ws2) ∷ m) c =
    push_pairs m
      (push (some ws1) CloseReason.host_disconnected (push ws2 CloseReason.signal_disconnected c))

unfoldable pub push_some : Option Ptr → CloseReason → Closing → Closing
push_some none reason c = c
push_some (some ws) reason c = push ws reason c

-- `closeReasons[index]`, or `Unknown` beyond its end
unfoldable pub reason_at : Option CloseReason → CloseReason
reason_at none = CloseReason.unknown
reason_at (some reason) = reason

unfoldable pub close_one : Ptr → CloseReason → List Effect
close_one none reason = []
close_one (some conn) reason = close conn reason ∷ []

-- The closing loop, after the lock is released: a nil pointer is skipped.
unfoldable pub close_loop : ℕ → List CloseReason → List Ptr → List Effect
close_loop index reasons [] = []
close_loop index reasons (ws ∷ rest) =
    close_one ws (reason_at (get_elem? reasons index)) ++ close_loop (suc index) reasons rest

unfoldable pub close_all : Closing → List Effect
unfolding close_loop close_one reason_at
close_all c = close_loop 0 c.close_reasons c.to_close

abbrev pub no_closing : Closing
no_closing = record { to_close = []; close_reasons = [] }

-- What is closed when the host leaves, and when another connection does.
unfoldable pub host_closing : Room → Conn → CloseReason → Closing
unfolding push_pairs push
host_closing room conn reason = push (some conn) reason (push_pairs room.clients_to_host no_closing)

abbrev pub as_ptr : Option Conn → Option Ptr
as_ptr none = none
as_ptr (some conn) = some (some conn)

unfoldable pub client_closing : Room → Conn → CloseReason → Closing
unfolding push_some push
client_closing room conn reason =
    let host_connection = lookup conn room.clients_to_host in
    let client_connection = as_ptr (lookup conn room.host_to_clients) in
    push (some conn) reason (
      push_some client_connection CloseReason.client_disconnected
        (push_some host_connection CloseReason.client_disconnected no_closing))

-- The room leaves the map, and the reason is kept for those who join later.
unfoldable pub forget_room : Server → Text → CloseReason → ℕ → Server
forget_room app game_id reason now = record app {
  rooms = delete game_id app.rooms;
  recently_deleted_rooms =
      insert game_id (new_recently_deleted_room now reason) app.recently_deleted_rooms;
}

cleanup_room : Server → Room → Conn → Text → CloseReason → ℕ → Server × List Effect
cleanup_room app room conn game_id reason now =
    if is_host room.host conn
    then (forget_room app game_id reason now, close_all (host_closing room conn reason))
    else (app, close_all (client_closing room conn reason))

unfoldable pub handle_cleanup : Server → Conn → Text → CloseReason → ℕ → Server × List Effect
unfolding cleanup_room
handle_cleanup app conn game_id reason now = elim (lookup game_id app.rooms) [
  | none ↦ (app, [])
  | some ref ↦ cleanup_room app (app.heap ref) conn game_id reason now
]
