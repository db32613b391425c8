-- ===== src/Tasks/Reasons.antt =====
-- How long the reason of a deleted room is remembered.
use stealthpipe_relay.Prelude.{ℕ, false, none, some, Text, text_key, if◌then◌else◌, ◌≡◌}
use stealthpipe_relay.Dict.{lookup}
use stealthpipe_relay.Dict.Laws.{lookup-delete_all}
use stealthpipe_relay.Dict.Distinct.{IsDict, member-keys_where}
use stealthpipe_relay.Types.{Server}
use stealthpipe_relay.Tasks.{is_outdated, outdated_reasons, clean_recently_deleted_room_reasons}

-- A tick forgets exactly the reasons that were older than the storage time when it looked.
pub lookup-clean_recently_deleted_room_reasons :
    (seen app : Server) (now : ℕ) (code : Text)
    → IsDict seen.recently_deleted_rooms
    → lookup code (clean_recently_deleted_room_reasons seen now app).recently_deleted_rooms ≡ (
        if (elim (lookup code seen.recently_deleted_rooms) [
          | none ↦ false
          | some room ↦ is_outdated seen.config now room
        ])
        then none
        else lookup code app.recently_deleted_rooms)
unfolding clean_recently_deleted_room_reasons outdated_reasons
lookup-clean_recently_deleted_room_reasons seen app now code d = rw (
  lookup-delete_all (outdated_reasons seen now) code app.recently_deleted_rooms,
  member-keys_where _ code seen.recently_deleted_rooms d,
)
