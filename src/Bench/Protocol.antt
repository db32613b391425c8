-- ===== src/Bench/Protocol.antt =====
-- The load generator and the relay together: what the relay makes of the queries that the generator
-- dials, and of the generator's answer to a request.
use stealthpipe_relay.Prelude.{
  ℕ, true, false, Option, none, some, [], ◌∷◌, Text, codes, nat_key, text_key, is_empty, ◌≡◌, refl,
  ◌∙◌,
}
use stealthpipe_relay.Dict.{lookup, insert}
use stealthpipe_relay.Types.{Conn, RoomRef, Room, Server, set_room}
use stealthpipe_relay.Types.Reasons.{CloseReason}
use stealthpipe_relay.ProofOfWork.{has_prefix}
use stealthpipe_relay.Join.{
  Values, Request, check_version, check_room, handle_relay, get_value, request_of, host_relay,
  join_room, in_room, link_request,
}
use stealthpipe_relay.Pairing.{IsPaired, linked, link_request-linked}
use stealthpipe_relay.ClientRelay.{request_message}
use stealthpipe_relay.Bench.Rooms.{Benchmarker, get_room_exists}
use stealthpipe_relay.Bench.Dialing.{Dial, get_url_scheme_join}
use stealthpipe_relay.Bench.Loops.{message, host_reads, answer_query, is_request}

-- A host that answers is read as one.
request_of-answer :
    (game_id request version addr : Text)
    → is_empty request ≡ false
    → request_of (get_url_scheme_join true game_id request version) addr ≡ record {
      id = game_id;
      host = codes "true";
      request = request;
      version = version;
      signal = [];
      remote_addr = addr;
    }
unfolding request_of get_url_scheme_join get_value insert lookup
request_of-answer game_id request version addr some_request = rw some_request refl

request_of-client :
    (game_id version addr : Text)
    → request_of (get_url_scheme_join false game_id [] version) addr ≡ record {
      id = game_id;
      host = [];
      request = [];
      version = version;
      signal = [];
      remote_addr = addr;
    }
unfolding request_of get_url_scheme_join get_value insert lookup
request_of-client game_id version addr = refl

request_message-is_request :
    (n : ℕ) (game_id : Text) → is_request (request_message n game_id) ≡ true
unfolding request_message has_prefix
request_message-is_request n game_id = refl

request_message-is_empty : (n : ℕ) (game_id : Text) → is_empty (request_message n game_id) ≡ false
unfolding request_message
request_message-is_empty n game_id = refl

check_room-present :
    (app : Server) (game_id host : Text) (ref : RoomRef)
    → is_empty game_id ≡ false
    → lookup game_id app.rooms ≡ some ref
    → check_room app game_id host ≡ none
unfolding check_room
check_room-present app game_id host ref named found = rw (named, found) refl

in_room-found :
    (app : Server) (room_id : Text) (change : Room → Room × Option CloseReason) (ref : RoomRef)
    → lookup room_id app.rooms ≡ some ref
    → in_room app room_id change
      ≡ (set_room app ref (change (app.heap ref)).0, (change (app.heap ref)).1)
unfolding in_room
in_room-found app room_id change ref found = rw (found, in_room) refl

-- A host connection with the text of a request that waits is linked and served.
join_room-linked :
    (app : Server) (r : Request) (client conn : Conn) (now ref : ℕ)
    → is_empty r.host ≡ false
    → is_empty r.request ≡ false
    → lookup r.id app.rooms ≡ some ref
    → IsPaired (app.heap ref)
    → lookup r.request (app.heap ref).requested_connections ≡ some client
    → join_room app r conn now
      ≡ (set_room app ref (linked (app.heap ref) r.request client conn now), [], some host_relay)
unfolding join_room
join_room-linked app r client conn now ref hosts text found v waits =
    let entry = v.pending r.request client waits in
    rw (hosts, text)
      (rw
        (
          in_room-found app r.id (λ room. link_request room r.request conn now) ref found,
          link_request-linked (app.heap ref) r.request client conn none now waits entry,
        )
        refl)

handle_relay-join_room :
    (major : Text → Option ℕ) (app : Server) (meanwhile : Server → Server) (r : Request)
    (conn : Conn) (now : ℕ)
    → check_version major app.config r.version ≡ none
    → check_room app r.id r.host ≡ none
    → handle_relay major app meanwhile r conn now ≡ join_room (meanwhile app) r conn now
unfolding handle_relay
handle_relay-join_room major app meanwhile r conn now version room =
    rw (version, handle_relay) (rw (room, handle_relay) refl)

host_reads-request :
    (b : Benchmarker) (game_id m : Text) (d : Dial) (known : RoomRef)
    → is_request m ≡ true
    → lookup game_id b.rooms ≡ some known
    → (host_reads b game_id (message m d ∷ [])).queries
      ≡ get_url_scheme_join true game_id m (codes "4.0.0") ∷ []
unfolding host_reads answer_query get_room_exists
host_reads-request b game_id m d known asks room = rw asks (rw (room, answer_query) refl)

pub answered :
    (major : Text → Option ℕ) (b : Benchmarker) (d : Dial) (app app' : Server) (game_id addr : Text)
    (n now known ref seen : ℕ) (client conn : Conn)
    → is_empty game_id ≡ false
    → lookup game_id b.rooms ≡ some known
    → check_version major app.config (codes "4.0.0") ≡ none
    → lookup game_id app.rooms ≡ some seen
    → lookup game_id app'.rooms ≡ some ref
    → IsPaired (app'.heap ref)
    → lookup (request_message n game_id) (app'.heap ref).requested_connections ≡ some client
    → let m = request_message n game_id in
      (query : Values) × ((host_reads b game_id (message m d ∷ [])).queries ≡ query ∷ [])
      × (handle_relay major app (λ s. app') (request_of query addr) conn now
          ≡ (set_room app' ref (linked (app'.heap ref) m client conn now), [], some host_relay))
answered major b d app app' game_id addr n now known ref seen client conn named room version found
      there v waits =
    let m = request_message n game_id in
    let r : Request = record {
      id = game_id;
      host = codes "true";
      request = m;
      version = codes "4.0.0";
      signal = [];
      remote_addr = addr;
    } in
    (
      get_url_scheme_join true game_id m (codes "4.0.0"),
      host_reads-request b game_id m d known (request_message-is_request n game_id) room,
      rw (request_of-answer game_id m (codes "4.0.0") addr (request_message-is_empty n game_id)) (
          handle_relay-join_room major app (λ s. app') r conn now version
            (check_room-present app game_id (codes "true") seen named found)
          ∙ join_room-linked app' r client conn now ref refl (request_message-is_empty n game_id)
              there v waits),
    )
