-- ===== src/Examples/Loading.antt =====
-- The load generator.
use stealthpipe_relay.Prelude.{
  Option, none, some, [], ◌∷◌, Text, codes, ◌==◌, if◌then◌else◌, text_key, arith, ◌≡◌, refl,
}
use stealthpipe_relay.Dict.{lookup, insert, delete}
use stealthpipe_relay.Bench.Rooms.{
  Benchmarker, new_benchmarker, add_room, connect_signal, create_host_to_relay_connection,
  handle_room_cleanup, get_room_exists, new_room,
}
use stealthpipe_relay.Bench.Cleanup.{start, later, adds, signals, answers, handle_room_cleanup_once}
use stealthpipe_relay.Bench.Tokens.{TokenPayload, decode_jwt_payload}
use stealthpipe_relay.Bench.Decoding.{written, decode_jwt_payload-written}
use stealthpipe_relay.Examples.{code}

-- A room with the host 1 and the host connection 3.
abbrev added : Benchmarker
added = (add_room new_benchmarker code).0

abbrev signaled : Benchmarker
signaled = (connect_signal added code (λ b. b) (some 1)).0

abbrev loaded : Benchmarker
loaded = create_host_to_relay_connection signaled code (λ b. b) (some 3)

handle_room_cleanup_once_example :
    let emptied = record loaded { rooms = delete code loaded.rooms } in
    (handle_room_cleanup loaded code ≡ some (emptied, 3 ∷ 1 ∷ []))
    × (handle_room_cleanup emptied code ≡ none)
unfolding lookup insert add_room new_room connect_signal create_host_to_relay_connection
    get_room_exists
handle_room_cleanup_once_example =
    handle_room_cleanup_once code 0 1
      (later (later (later start (adds code)) (signals code (some 1))) (answers code (some 3))) refl
      refl

-- The claims `{"diff":5}`, which a decoder of just these knows.
abbrev claims : Text
claims = codes "{\"diff\":5}"

abbrev read_claims : Text → Option TokenPayload
read_claims json = if json == claims then some (record { salt = []; diff = 5; exp = 0 }) else none

decode_jwt_payload-written_example :
    decode_jwt_payload read_claims (written (codes "eyJ9") claims (codes "c2ln"))
    ≡ record { salt = []; diff = 5; exp = 0 }
decode_jwt_payload-written_example =
    decode_jwt_payload-written read_claims (codes "eyJ9") claims (codes "c2ln") (ground arith)
      (ground arith) (ground arith)
