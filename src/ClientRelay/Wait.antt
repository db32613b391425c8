-- ===== src/ClientRelay/Wait.antt =====
-- `waitForHostConnectionAndReturnIt`: the polling of the room until the host has answered.
use stealthpipe_relay.Prelude.{
  ℕ, ◌*◌, Option, none, some, List, [], ◌∷◌, Text, nat_key, text_key, ltb, if◌then◌else◌,
}
use stealthpipe_relay.Dict.{lookup, delete}
use stealthpipe_relay.Types.{Conn, Ptr, Room, Server, set_room, second}

-- What one round sees: the server at the poll, and the time since the start when the sleep of
-- 100 milliseconds is over, should the round come to it.
pub record Seen : Type 0 where
  pub server : Server
  pub elapsed : ℕ

-- One round: it ends with a connection or with nil, or goes on, at once or after the sleep.
pub data Round : Type 0 where
  returns : Conn → Round
  returns_nil : Round
  continues : Round
  slept : Round

unfoldable pub poll_entry : Option Ptr → ℕ → Round
poll_entry (some (some host)) elapsed = returns host
poll_entry (some none) elapsed = continues
poll_entry none elapsed = if ltb (60 * second) elapsed then returns_nil else slept

unfoldable pub poll_room : Room → Conn → ℕ → Round
unfolding poll_entry
poll_room room conn elapsed = elim room.host [
  | none ↦ returns_nil
  | some _ ↦ poll_entry (lookup conn room.clients_to_host) elapsed
]

unfoldable pub poll : Conn → Text → Seen → Round
unfolding poll_room
poll conn game_id seen = elim (lookup game_id seen.server.rooms) [
  | none ↦ returns_nil
  | some ref ↦ poll_room (seen.server.heap ref) conn seen.elapsed
]

pub data Waited : Type 0 where
  found : Conn → Waited
  gave_up : Waited
  still_waiting : Waited

-- The loop over what the rounds see; it still waits when they end.
unfoldable pub wait_for_host : Conn → Text → List Seen → Waited
unfolding poll
wait_for_host conn game_id [] = still_waiting
wait_for_host conn game_id (seen ∷ rest) = elim (poll conn game_id seen) [
  | returns host ↦ found host
  | returns_nil ↦ gave_up
  | continues ↦ wait_for_host conn game_id rest
  | slept ↦ wait_for_host conn game_id rest
]

-- `handleRequestCleanup`: the request leaves the room's map, if it is still there.
unfoldable pub drop_request : Room → Text → Room
drop_request room request = elim (lookup request room.requested_connections) [
  | none ↦ room
  | some _ ↦ record room { requested_connections = delete request room.requested_connections }
]

unfoldable pub handle_request_cleanup : Server → Text → Text → Server
unfolding drop_request
handle_request_cleanup app request game_id = elim (lookup game_id app.rooms) [
  | none ↦ app
  | some ref ↦ set_room app ref (drop_request (app.heap ref) request)
]
