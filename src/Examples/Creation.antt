-- ===== src/Examples/Creation.antt =====
-- `/create`, on a server with one room.
use stealthpipe_relay.Prelude.{
  ◌+◌, false, none, some, [], Text, codes, text_key, text_beq_iff, ◌==◌, if◌then◌else◌, ◌≡◌, refl,
  arith,
}
use stealthpipe_relay.Dict.{lookup}
use stealthpipe_relay.Types.{second}
use stealthpipe_relay.ProofOfWork.Tokens.{Payload}
use stealthpipe_relay.Create.{
  World, created, handle_create_path, create_reused, new_room, special_code,
}
use stealthpipe_relay.Create.Outcome.{Outcome, handle_create_path-Outcome}
use stealthpipe_relay.Create.Reuse.{create_reused-created, old_host, resumed, evictions}
use stealthpipe_relay.ReuseTokens.{is_reuse_token_valid, verify_and_get_payload_reuse_token}
use stealthpipe_relay.Examples.{one_token, secret, code, linked_room, with_room}

abbrev challenge : Payload
challenge = record { salt = some (codes "7-7"); diff = some 5; code = none; exp = some 300 }

-- The first draw is the code of the room, so the second one is taken.
abbrev world : World
world = record {
  lucky = false;
  draws = λ k. 123456 + k;
  now = second;
  created = second;
  meanwhile = λ app. app;
}

handle_create_path-Outcome_example :
    Outcome
      (one_token challenge)
      secret
      (with_room linked_room)
      (record world { draws = λ k. 123457 })
      (handle_create_path
        (one_token challenge)
        secret
        (with_room linked_room)
        (record { token = codes "token"; nonce = codes "8"; reuse_token = [] })
        (record world { draws = λ k. 123457 }))
handle_create_path-Outcome_example =
    handle_create_path-Outcome (one_token challenge) secret (record world { draws = λ k. 123457 })
      (with_room linked_room) (codes "token") (codes "8") (λ k. omega arith)

abbrev claims : Payload
claims = record { salt = none; diff = none; code = some code; exp = some 300 }

-- The host of the old room is closed, and the code leads to a new room.
create_reused-created_example :
    let (app', effects, response) =
      create_reused (one_token claims) secret (with_room linked_room) (codes "token") world in
    let before = resumed world (with_room linked_room) (old_host (with_room linked_room) code) in
    (response ≡ created code [])
    × (effects ≡ evictions (old_host (with_room linked_room) code))
    × (app'.heap before.next_ref ≡ new_room second)
    × ((c : Text)
        → lookup c app'.rooms ≡ (if code == c then some before.next_ref else lookup c before.rooms))
unfolding is_reuse_token_valid verify_and_get_payload_reuse_token
create_reused-created_example =
    create_reused-created (one_token claims) secret (with_room linked_room) (codes "token") code
      world refl (λ e. cc) (λ e. cc ((text_beq_iff code special_code).1 e))
