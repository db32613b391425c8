-- ===== src/Join/Refused.antt =====
-- How a joining through `HandleRelay` ends.
use stealthpipe_relay.Prelude.{
  ℕ, false, Option, none, some, List, [], ◌∷◌, Text, text_key, is_empty, if◌then◌else◌, ◌≡◌, refl,
  arith, Bool-cases, inl, inr,
}
use stealthpipe_relay.Dict.{lookup}
use stealthpipe_relay.Types.{Conn, Room, Server, Effect, close, add64}
use stealthpipe_relay.Types.Reasons.{CloseReason}
use stealthpipe_relay.Join.{
  Request, Session, host_signal, host_relay, in_room, join_room, serve, counted, refuse, set_host,
  link_request, check_room, handle_relay, check_version,
}

-- The endings by the session that follows.
abbrev pub Outcome : Conn → Server → Server × List Effect × Option Session → Type 0
Outcome conn app (app', effects, none) =
    (reason : CloseReason) × (effects ≡ close conn reason ∷ [])
    × (app'.number_of_clients_connected ≡ app.number_of_clients_connected)
Outcome conn app (app', effects, some host_relay) =
    (effects ≡ []) × (app'.number_of_clients_connected ≡ app.number_of_clients_connected)
Outcome conn app (app', effects, some other) =
    (effects ≡ []) × (app'.number_of_clients_connected ≡ add64 app.number_of_clients_connected 1)

in_room-count :
    (app : Server) (id : Text) (change : Room → Room × Option CloseReason)
    → (in_room app id change).0.number_of_clients_connected ≡ app.number_of_clients_connected
unfolding in_room
in_room-count app id change = ground arith

serve_host-Outcome :
    (conn : Conn) (app : Server) (p : Server × Option CloseReason)
    → p.0.number_of_clients_connected ≡ app.number_of_clients_connected
    → Outcome conn app (serve (counted p) conn host_signal)
serve_host-Outcome conn app (app', none) h = (refl, rw h refl)
serve_host-Outcome conn app (app', some reason) h = (reason, refl, h)

serve_link-Outcome :
    (conn : Conn) (app : Server) (p : Server × Option CloseReason)
    → p.0.number_of_clients_connected ≡ app.number_of_clients_connected
    → Outcome conn app (serve p conn host_relay)
serve_link-Outcome conn app (app', none) h = (refl, h)
serve_link-Outcome conn app (app', some reason) h = (reason, refl, h)

-- A joining ends in one of three ways. A connection that is not served is closed with one reason
-- and not counted; one that is served gets no message, and is counted unless it answers a
-- request.
pub join_room-Outcome :
    (app : Server) (r : Request) (conn : Conn) (now : ℕ)
    → Outcome conn app (join_room app r conn now)
unfolding join_room
join_room-Outcome app r conn now = elim (Bool-cases (is_empty r.host)) [
  | inl client ↦ elim (Bool-cases (is_empty r.signal)) [
    | inl plain ↦ rw (client, plain) (refl, refl)
    | inr signals ↦ rw (client, signals) (refl, refl)
  ]
  | inr host ↦ elim (Bool-cases (is_empty r.request)) [
    | inl signal ↦
        rw (host, signal)
          (serve_host-Outcome conn app
            (in_room app r.id (λ room. set_host room conn r.remote_addr now))
            (in_room-count app r.id (λ room. set_host room conn r.remote_addr now)))
    | inr answers ↦
        rw (host, answers)
          (serve_link-Outcome conn app
            (in_room app r.id (λ room. link_request room r.request conn now))
            (in_room-count app r.id (λ room. link_request room r.request conn now)))
  ]
]

-- A client of a served version that names a room which is not there is told that the room was closed
-- recently if the code is among the recently deleted ones, and that it was not found if it is not;
-- a host is told that it was not found. Nothing else happens.
pub handle_relay-missing :
    (major : Text → Option ℕ) (app : Server) (meanwhile : Server → Server) (r : Request)
    (conn : Conn) (now : ℕ)
    → check_version major app.config r.version ≡ none
    → is_empty r.id ≡ false
    → lookup r.id app.rooms ≡ none
    → handle_relay major app meanwhile r conn now
      ≡ refuse app conn (
          if is_empty r.host
          then (elim (lookup r.id app.recently_deleted_rooms) [
            | none ↦ CloseReason.room_not_found
            | some _ ↦ CloseReason.room_recently_closed
          ])
          else CloseReason.room_not_found)
unfolding handle_relay check_room
handle_relay-missing major app meanwhile r conn now version id missing =
    rw (version, handle_relay) (rw id (rw (missing, check_room) refl))
