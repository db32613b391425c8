-- ===== src/Create/Reuse.antt =====
-- What `/create` does with a reuse token, after an accepted proof of work.
use stealthpipe_relay.Prelude.{
  ℕ, false, none, some, List, [], ◌∷◌, Text, text_key, text_beq_iff, is_empty, ◌==◌, Bool-cases,
  if◌then◌else◌, ◌≡◌, ◌≢◌, refl, arith, inl, inr,
}
use stealthpipe_relay.Dict.{lookup}
use stealthpipe_relay.Dict.Laws.{lookup-insert, lookup-delete}
use stealthpipe_relay.Types.{Ptr, Server, Effect, close}
use stealthpipe_relay.Types.Reasons.{CloseReason}
use stealthpipe_relay.ProofOfWork.Tokens.{Crypto}
use stealthpipe_relay.ReuseTokens.{is_reuse_token_valid}
use stealthpipe_relay.Create.{
  World, created, special_code, new_room, create_room, evict, create_reused,
}

-- The host that has to leave, and the state in which the lock is held again.
abbrev pub old_host : Server → Text → Ptr
old_host app code = elim (lookup code app.rooms) [ none ↦ none | some ref ↦ (app.heap ref).host ]

abbrev pub evictions : Ptr → List Effect
evictions none = []
evictions (some host) = close host CloseReason.reuse_token_presented ∷ []

abbrev pub resumed : World → Server → Ptr → Server
resumed world app none = app
resumed world app (some host) = world.meanwhile app

evict-effects :
    (app : Server) (code : Text) (world : World)
    → (evict app (lookup code app.rooms) code world).1 ≡ evictions (old_host app code)
unfolding evict
evict-effects app code world = ground arith

lookup-evict :
    (app : Server) (code c : Text) (world : World)
    → (code == c) ≡ false
    → lookup c (evict app (lookup code app.rooms) code world).0.rooms
      ≡ lookup c (resumed world app (old_host app code)).rooms
unfolding evict
lookup-evict app code c world other =
    ground (arith, lookup-delete code c app.rooms, lookup-delete code c (world.meanwhile app).rooms)

lookup-create_room :
    (app : Server) (code c : Text) (now : ℕ)
    → lookup c (create_room app code now).rooms
      ≡ (if code == c then some app.next_ref else lookup c app.rooms)
unfolding create_room
lookup-create_room app code c now = lookup-insert code c app.next_ref app.rooms

heap-create_room :
    (app : Server) (code : Text) (now : ℕ)
    → (create_room app code now).heap app.next_ref ≡ new_room now
unfolding create_room
heap-create_room app code now = ground arith

next_ref-evict :
    (app : Server) (code : Text) (world : World)
    → (evict app (lookup code app.rooms) code world).0.next_ref
      ≡ (resumed world app (old_host app code)).next_ref
unfolding evict
next_ref-evict app code world = ground arith

lookup-recreated :
    (app : Server) (code : Text) (world : World) (c : Text)
    → lookup c
        (create_room (evict app (lookup code app.rooms) code world).0 code world.created).rooms
      ≡ (if code == c
          then some (resumed world app (old_host app code)).next_ref
          else lookup c (resumed world app (old_host app code)).rooms)
lookup-recreated app code world c =
    rw
      (
        lookup-create_room (evict app (lookup code app.rooms) code world).0 code c world.created,
        next_ref-evict app code world,
      )
      (elim (Bool-cases (code == c)) [
        | inl same ↦ rw same refl
        | inr other ↦ rw other (lookup-evict app code c world other)
      ])

is_empty_ne : (t : Text) → t ≢ [] → is_empty t ≡ false
is_empty_ne [] h = absurd (h refl)
is_empty_ne (c ∷ t) h = refl

-- With a reuse token for a code that is not empty and not the special one the answer is a success
-- without a new token: the code leads to an empty room at a new address, all other codes are as they
-- were when the lock was taken again, and the host of the room that had the code, if there is one,
-- is closed for that reason, and nothing else.
pub create_reused-created :
    (lib : Crypto) (secret : Text) (app : Server) (token code : Text) (world : World)
    → is_reuse_token_valid lib secret token world.now ≡ code
    → code ≢ []
    → code ≢ special_code
    → let (app', effects, response) = create_reused lib secret app token world in
      let before = resumed world app (old_host app code) in
      (response ≡ created code [])
      × (effects ≡ evictions (old_host app code))
      × (app'.heap before.next_ref ≡ new_room world.created)
      × ((c : Text)
          → lookup c app'.rooms
            ≡ (if code == c then some before.next_ref else lookup c before.rooms))
unfolding create_reused
create_reused-created lib secret app token code world h full plain =
    let plain' : (code == special_code) ≡ false = ground (arith, text_beq_iff code special_code) in
    rw h (
      rw (is_empty_ne code full, plain')
        (
          refl,
          evict-effects app code world,
          (rw (← next_ref-evict app code world) (
              heap-create_room (evict app (lookup code app.rooms) code world).0 code
                world.created)),
          lookup-recreated app code world,
        ))
