-- ===== src/Create/Outcome.antt =====
-- What `/create` does to the rooms, without a reuse token.
use stealthpipe_relay.Prelude.{
  ℕ, suc, ◌<◌, Bool, true, false, Option, none, some, List, [], ◌∷◌, Text, text_key, ◌==◌,
  if◌then◌else◌, ◌≡◌, refl, arith, Option-cases, inl, inr, length,
}
use stealthpipe_relay.Numbers.{ℤ, parse_int64}
use stealthpipe_relay.Dict.{lookup}
use stealthpipe_relay.Dict.Laws.{lookup-insert}
use stealthpipe_relay.Types.{RoomRef, Server, Effect, add64}
use stealthpipe_relay.ProofOfWork.Tokens.{Crypto}
use stealthpipe_relay.ProofOfWork.{is_replay, is_proof_of_work_valid}
use stealthpipe_relay.ProofOfWork.SingleUse.{check_cases, after}
use stealthpipe_relay.ReuseTokens.{generate_reuse_token}
use stealthpipe_relay.Create.{
  World, Response, http_error, created, panicked, new_room, create_room, create_fresh, check_work,
  with_nonce, handle_create_path, fresh_code,
}
use stealthpipe_relay.Create.Search.{fresh_code_lem}

-- Two states with the same rooms, differing at most in salts and counters.
pub record SameRooms (app app' : Server) : Type 0 where
  pub same_rooms : app'.rooms ≡ app.rooms
  pub same_heap : app'.heap ≡ app.heap
  pub same_next : app'.next_ref ≡ app.next_ref
  pub same_recent : app'.recently_deleted_rooms ≡ app.recently_deleted_rooms
  pub same_config : app'.config ≡ app.config

SameRooms_refl : (app : Server) → SameRooms app app
SameRooms_refl app = ground arith

is_replay-SameRooms : (app : Server) (k : Text) (v : ℕ) → SameRooms app (is_replay app k v).0
unfolding is_replay
is_replay-SameRooms app k v = ground arith

-- The check of the work changes no room.
pub work-SameRooms :
    (lib : Crypto) (secret : Text) (app app' : Server) (token : Text) (nonce : ℤ) (now : ℕ)
    (answer : Bool)
    → is_proof_of_work_valid lib secret app token nonce now ≡ some (app', answer)
    → SameRooms app app'
work-SameRooms lib secret app app' token nonce now answer h =
    rw (h, after) at
      (check_cases lib secret (SameRooms app) app token nonce now (SameRooms_refl app)
        (is_replay-SameRooms app))

-- The code was free, and got a new room at a new address; all other rooms are as they were.
pub record IsCreated (app app' : Server) (code : Text) (now : ℕ) : Type 0 where
  pub was_free : lookup code app.rooms ≡ none
  pub rooms :
      (c : Text)
      → lookup c app'.rooms ≡ (if code == c then some app.next_ref else lookup c app.rooms)
  pub room : app'.heap app.next_ref ≡ new_room now
  pub others : (r : RoomRef) → r < app.next_ref → app'.heap r ≡ app.heap r
  pub next : app'.next_ref ≡ suc app.next_ref

create_room-IsCreated :
    (app : Server) (code : Text) (now : ℕ)
    → lookup code app.rooms ≡ none
    → IsCreated app (create_room app code now) code now
unfolding create_room
create_room-IsCreated app code now free = record {
  was_free = free;
  rooms = λ c. lookup-insert code c app.next_ref app.rooms;
  room = ground arith;
  others = λ r below. ground arith;
  next = refl;
}

-- An error or a panic leaves every room and sends nothing; a success creates a room under a free
-- code of six characters and hands out a reuse token for it.
abbrev pub Outcome : Crypto → Text → Server → World → Server × List Effect × Response → Type 0
Outcome lib secret app world (app', effects, http_error status message) =
    SameRooms app app' × (effects ≡ [])
Outcome lib secret app world (app', effects, panicked) = SameRooms app app' × (effects ≡ [])
Outcome lib secret app world (app', effects, created code token) =
    IsCreated app app' code world.created
    × (effects ≡ [])
    × (length code ≡ 6)
    × (token ≡ generate_reuse_token lib secret app code world.created)

module _ (lib : Crypto) (secret : Text) (world : World) where
  create_fresh-Outcome :
      (app : Server)
      → ((k : ℕ) → world.draws k < 1000000)
      → Outcome lib secret app world (create_fresh lib secret app world)
  unfolding create_fresh
  create_fresh-Outcome app draws = elim (Option-cases (fresh_code app world)) [
    | inl failed ↦ rw (failed, create_fresh) (SameRooms_refl app, refl)
    | inr (code, found) ↦
        let (six, free) = fresh_code_lem app world code draws found in
        rw (found, create_fresh)
          (create_room-IsCreated app code world.created free, refl, six, refl)
  ]

  SameRooms_trans : {a b c : Server} → SameRooms a b → SameRooms b c → SameRooms a c
  SameRooms_trans s t = ground arith

  IsCreated-of_same :
      {a b c : Server} {code : Text} {now : ℕ}
      → SameRooms a b
      → IsCreated b c code now
      → IsCreated a c code now
  IsCreated-of_same {a} {b} {c} {code} s i = record {
    was_free = rw (← s.same_rooms) i.was_free;
    rooms = λ k. rw (← s.same_rooms, ← s.same_next) (i.rooms k);
    room = rw (← s.same_next) i.room;
    others = λ r below. rw (← s.same_heap) (i.others r (rw s.same_next below));
    next = rw (← s.same_next) i.next;
  }

  Outcome-of_same :
      (a b : Server) (t : Server × List Effect × Response)
      → SameRooms a b
      → Outcome lib secret b world t
      → Outcome lib secret a world t
  unfolding generate_reuse_token
  Outcome-of_same a b (c, effects, http_error status message) s o = (SameRooms_trans s o.0, o.1)
  Outcome-of_same a b (c, effects, panicked) s o = (SameRooms_trans s o.0, o.1)
  Outcome-of_same a b (c, effects, created code token) s o =
      (IsCreated-of_same s o.0, o.1, o.2, ground arith)

  counted :
      (app : Server)
      → SameRooms app (record app { handshake_counter = add64 app.handshake_counter 1 })
  counted app = record {
    same_rooms = refl;
    same_heap = refl;
    same_next = refl;
    same_recent = refl;
    same_config = refl;
  }

  check_work-Outcome :
      (app : Server) (checked : Option (Server × Bool))
      → ((k : ℕ) → world.draws k < 1000000)
      → ((app' : Server) (answer : Bool) → checked ≡ some (app', answer) → SameRooms app app')
      → Outcome lib secret app world (check_work lib secret app checked [] world)
  unfolding check_work
  check_work-Outcome app none draws same = (SameRooms_refl app, refl)
  check_work-Outcome app (some (app', false)) draws same = (same app' false refl, refl)
  check_work-Outcome app (some (app', true)) draws same =
      Outcome-of_same app (record app' { handshake_counter = add64 app'.handshake_counter 1 }) _
        (SameRooms_trans (same app' true refl) (counted app')) (create_fresh-Outcome _ draws)

  with_nonce-Outcome :
      (app : Server) (nonce : Option ℤ) (token text : Text)
      → ((k : ℕ) → world.draws k < 1000000)
      → Outcome lib secret app world (
          with_nonce lib secret app nonce
            (record { token = token; nonce = text; reuse_token = [] })
            world)
  unfolding with_nonce
  with_nonce-Outcome app none token text draws = (SameRooms_refl app, refl)
  with_nonce-Outcome app (some nonce) token text draws =
      check_work-Outcome app (is_proof_of_work_valid lib secret app token nonce world.now) draws
        (λ app' answer. work-SameRooms lib secret app app' token nonce world.now answer)

  -- Without a reuse token, and with draws below 1000000, every answer of `/create` has its outcome:
  -- errors and panics change no room, and a success creates one room under a code that was free.
  pub handle_create_path-Outcome :
      (app : Server) (token nonce : Text)
      → ((k : ℕ) → world.draws k < 1000000)
      → Outcome lib secret app world (
          handle_create_path lib secret app
            (record { token = token; nonce = nonce; reuse_token = [] })
            world)
  unfolding handle_create_path
  handle_create_path-Outcome app [] nonce draws = (SameRooms_refl app, refl)
  handle_create_path-Outcome app (c ∷ token) [] draws = (SameRooms_refl app, refl)
  handle_create_path-Outcome app (c ∷ token) (d ∷ nonce) draws =
      with_nonce-Outcome app (parse_int64 (d ∷ nonce)) (c ∷ token) (d ∷ nonce) draws
