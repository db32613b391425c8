-- ===== src/Tasks/Unused.antt =====
-- What `CleanUnusedRooms` removes, whatever happens between its two phases.
use stealthpipe_relay.Prelude.{
  ℕ, Bool, false, not, ◌&&◌, none, some, List, [], ◌∷◌, Text, text_key, if◌then◌else◌, ◌≡◌, refl,
  ◌∙◌, arith, ◌==◌, text_beq_iff,
}
use stealthpipe_relay.Dict.{lookup}
use stealthpipe_relay.Dict.Laws.{lookup-delete, member}
use stealthpipe_relay.Dict.Distinct.{IsDict, member-keys_where}
use stealthpipe_relay.Types.{Server, unix_milli}
use stealthpipe_relay.Tasks.{is_stale, stale_rooms, prune_room, prune_rooms, clean_unused_rooms}

-- The code has a room with no host.
abbrev pub lacks_host : Server → Text → Bool
lacks_host app code = elim (lookup code app.rooms) [
  | none ↦ false
  | some ref ↦ not (app.heap ref).has_host
]

prune_room-heap : (code : Text) (app : Server) → (prune_room code app).heap ≡ app.heap
unfolding prune_room
prune_room-heap code app = ground arith

pub prune_rooms-heap : (codes : List Text) (app : Server) → (prune_rooms codes app).heap ≡ app.heap
unfolding prune_rooms
prune_rooms-heap [] app = refl
prune_rooms-heap (code ∷ codes) app =
    prune_rooms-heap codes (prune_room code app) ∙ prune_room-heap code app

lookup-prune_room :
    (k code : Text) (app : Server)
    → lookup code (prune_room k app).rooms
      ≡ (if (k == code) && lacks_host app code then none else lookup code app.rooms)
unfolding prune_room
lookup-prune_room k code app = ground (arith, lookup-delete k code app.rooms, text_beq_iff k code)

-- The second phase removes exactly the listed rooms that have no host when it runs.
pub lookup-prune_rooms :
    (codes : List Text) (code : Text) (app : Server)
    → lookup code (prune_rooms codes app).rooms
      ≡ (if member code codes && lacks_host app code then none else lookup code app.rooms)
unfolding prune_rooms
lookup-prune_rooms [] code app = refl
lookup-prune_rooms (k ∷ codes) code app = ground (
  arith,
  lookup-prune_rooms codes code (prune_room k app),
  lookup-prune_room k code app,
  prune_room-heap k app,
)

-- The code's room was stale in the state that the scan saw.
abbrev pub was_stale : Server → ℕ → Text → Bool
was_stale seen now code = elim (lookup code seen.rooms) [
  | none ↦ false
  | some ref ↦ is_stale seen.config (unix_milli now) (seen.heap ref)
]

-- A tick removes exactly the rooms that were stale at the scan and still have no host at the
-- deletion, whatever other handlers did to the server in between; every other room stays.
pub lookup-clean_unused_rooms :
    (seen app : Server) (now : ℕ) (code : Text)
    → IsDict seen.rooms
    → lookup code (clean_unused_rooms seen now app).rooms
      ≡ (if was_stale seen now code && lacks_host app code then none else lookup code app.rooms)
unfolding clean_unused_rooms stale_rooms
lookup-clean_unused_rooms seen app now code d =
    rw (lookup-prune_rooms (stale_rooms seen now) code app, member-keys_where _ code seen.rooms d)
