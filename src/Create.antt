-- ===== src/Create.antt =====
-- src/core/RoomCreation.go and Utils.go: the `/create` endpoint.
pub mod Search
pub mod Outcome
pub mod Reuse
use stealthpipe_relay.Prelude.{
  ℕ, zero, suc, ◌+◌, Bool, true, false, Option, none, some, List, [], ◌∷◌, ◌++◌, Text, codes,
  text_key, is_empty, ◌==◌, if◌then◌else◌,
}
use stealthpipe_relay.Numbers.{ℤ, parse_int64, print_six}
use stealthpipe_relay.Dict.{Dict, lookup, insert, delete}
use stealthpipe_relay.Types.{
  Conn, Ptr, RoomRef, Room, Server, set_room, Effect, close, unix_milli, add64,
}
use stealthpipe_relay.Types.Reasons.{CloseReason}
use stealthpipe_relay.ProofOfWork.Tokens.{Crypto}
use stealthpipe_relay.ProofOfWork.{is_proof_of_work_valid}
use stealthpipe_relay.ReuseTokens.{generate_reuse_token, is_reuse_token_valid}

-- The parameters of the query.
pub record Request : Type 0 where
  pub token : Text
  pub nonce : Text
  pub reuse_token : Text

-- What the handler takes from outside: the lot for the special code, the draws below 1000000, the
-- instant of the checks, that of the creation, and what other handlers do to the server while
-- the lock is released for the eviction of a host.
pub record World : Type 0 where
  pub lucky : Bool
  pub draws : ℕ → ℕ
  pub now : ℕ
  pub created : ℕ
  pub meanwhile : Server → Server

pub data Response : Type 0 where
  http_error : ℕ → Text → Response
  created : Text → Text → Response
  panicked : Response

-- The body of a successful answer.
unfoldable pub created_body : Text → Text → Text
created_body game_id reuse_token =
    codes "{\"ok\":true,\"message\":\""
    ++ game_id
    ++ codes "\",\"reuseToken\":\""
    ++ reuse_token
    ++ codes "\"}"

-- `generateRandomId`, for the number that was drawn
unfoldable pub generate_random_id : ℕ → Text
generate_random_id n = print_six n

abbrev pub is_some {ℓ} : {A : Type ℓ} → Option A → Bool
is_some none = false
is_some (some a) = true

-- `app.Rooms[gameId] != nil`
abbrev pub is_taken : Server → Text → Bool
is_taken app code = is_some (lookup code app.rooms)

abbrev pub special_code : Text
special_code = codes "676767"

-- The loop over random codes; `left` is 10000 less the attempts so far.
unfoldable pub search_code : Server → (ℕ → ℕ) → ℕ → ℕ → Option Text
unfolding generate_random_id
search_code app draws zero attempts = none
search_code app draws (suc left) attempts =
    elim (is_taken app (generate_random_id (draws attempts))) [
      | true ↦ search_code app draws left (suc attempts)
      | false ↦ some (generate_random_id (draws attempts))
    ]

unfoldable pub fresh_code : Server → World → Option Text
fresh_code app world =
    let searched = search_code app world.draws 10000 0 in
    if world.lucky
    then (if is_taken app special_code then searched else some special_code)
    else searched

unfoldable pub new_room : ℕ → Room
new_room now = record {
  host = none;
  host_mu = true;
  host_ip = [];
  last_room_filled_time = unix_milli now;
  clients_to_host = [];
  host_to_clients = [];
  requested_connections = [];
  created_time = unix_milli now;
  has_host = false;
  webrtc_handshake_connections = [];
}

-- `app.Rooms[gameId] = &Room{…}`: the room has a new address.
unfoldable pub create_room : Server → Text → ℕ → Server
unfolding new_room
create_room app code now =
    let app' = set_room app app.next_ref (new_room now) in
    record app' { rooms = insert code app.next_ref app.rooms; next_ref = suc app.next_ref }

-- A room that holds the reused code loses it; its host, if any, is closed with the lock released.
unfoldable pub evict_host : Server → Ptr → Text → World → Server × List Effect
evict_host app none code world = (record app { rooms = delete code app.rooms }, [])
evict_host app (some host) code world =
    let app' = world.meanwhile app in
    (
      record app' { rooms = delete code app'.rooms },
      close host CloseReason.reuse_token_presented ∷ [],
    )

unfoldable pub evict : Server → Option RoomRef → Text → World → Server × List Effect
unfolding evict_host
evict app none code world = (app, [])
evict app (some ref) code world = evict_host app (app.heap ref).host code world

module _ (lib : Crypto) (secret : Text) where
  unfoldable pub create_fresh : Server → World → Server × List Effect × Response
  unfolding fresh_code
  create_fresh app world = elim (fresh_code app world) [
    | none ↦ (app, [], http_error 503 (codes "Failed to get a random game ID in reasonable time"))
    | some code ↦ (
      create_room app code world.created,
      [],
      created code (generate_reuse_token lib secret app code world.created),
    )
  ]

  abbrev recreate : Server × List Effect → Text → World → Server × List Effect × Response
  recreate (app, effects) code world =
      (create_room app code world.created, effects, created code [])

  unfoldable pub create_reused : Server → Text → World → Server × List Effect × Response
  create_reused app token world =
      let code = is_reuse_token_valid lib secret token world.now in
      if is_empty code
      then (app, [], http_error 401 (codes "Reuse token is not valid"))
      else if code == special_code
      then (
        app,
        [],
        http_error 401
            (codes "Aww man... this code can't be reused :( Please generate a new room code."),
      )
      else recreate (evict app (lookup code app.rooms) code world) code world

  -- After an accepted proof of work.
  unfoldable pub create_checked : Server → Text → World → Server × List Effect × Response
  create_checked app reuse_token world =
      let app' = record app { handshake_counter = add64 app.handshake_counter 1 } in
      if is_empty reuse_token then create_fresh app' world else create_reused app' reuse_token world

  check_work : Server → Option (Server × Bool) → Text → World → Server × List Effect × Response
  unfolding create_checked
  check_work app none reuse_token world = (app, [], panicked)
  check_work app (some (app', false)) reuse_token world =
      (app', [], http_error 400 (codes "{\"ok\":false,\"message\":\"Invalid proof of work\"}"))
  check_work app (some (app', true)) reuse_token world = create_checked app' reuse_token world

  with_nonce : Server → Option ℤ → Request → World → Server × List Effect × Response
  unfolding check_work
  with_nonce app none request world =
      (app, [], http_error 400 (codes "{\"ok\":false,\"message\":\"Invalid nonce provided\"}"))
  with_nonce app (some nonce) request world =
      check_work app (is_proof_of_work_valid lib secret app request.token nonce world.now)
        request.reuse_token world

  unfoldable pub handle_create_path : Server → Request → World → Server × List Effect × Response
  unfolding with_nonce
  handle_create_path app request world =
      if is_empty request.token
      then (app, [], http_error 400 (codes "{\"ok\":false,\"message\":\"No token provided\"}"))
      else if is_empty request.nonce
      then (app, [], http_error 400 (codes "{\"ok\":false,\"message\":\"No nonce provided\"}"))
      else with_nonce app (parse_int64 request.nonce) request world
