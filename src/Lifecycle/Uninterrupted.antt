-- ===== src/Lifecycle/Uninterrupted.antt =====
-- The sections of one handler without another's in between, against the operations that take them
-- as one step.
use stealthpipe_relay.Prelude.{
  ℕ, Option, none, some, Text, text_key, nat_key, ◌≡◌, refl, arith, Option-cases, inl, inr,
}
use stealthpipe_relay.Dict.{lookup}
use stealthpipe_relay.Types.{Conn, Room, unix_milli}
use stealthpipe_relay.Types.Reasons.{CloseReason}
use stealthpipe_relay.Join.{link_request, link_client}
use stealthpipe_relay.ClientRelay.{register}
use stealthpipe_relay.Lifecycle.Sections.{ask, enter, take, name_conn, name_client}

register-sections :
    (room : Room) (request : Text) (client : Conn)
    → register room request client ≡ enter (ask room request client) client
unfolding register
register-sections room request client = refl

-- The three sections in a row, with the refusals of the first two.
abbrev link_in_sections : Room → Text → Conn → ℕ → Room × Option CloseReason
link_in_sections room request conn now = elim (take room request) [
  | none ↦ (room, some CloseReason.invalid_request_id)
  | some (client, taken) ↦ elim (name_conn taken client conn) [
    | none ↦ (taken, some CloseReason.pair_link_failed)
    | some named ↦
        (record (name_client named client conn) { last_room_filled_time = unix_milli now }, none)
  ]
]

link_request-sections :
    (room : Room) (request : Text) (conn : Conn) (now : ℕ)
    → link_request room request conn now ≡ link_in_sections room request conn now
unfolding link_request link_client take name_conn
link_request-sections room request conn now =
    elim (Option-cases (lookup request room.requested_connections)) [
      | inl missing ↦ ground arith
      | inr (client, waits) ↦ elim (Option-cases (lookup client room.clients_to_host)) [
        | inl missing ↦ ground arith
        | inr (entry, there) ↦ ground arith
      ]
    ]
