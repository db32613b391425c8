-- ===== src/Examples/Signaling.antt =====
-- Signal connections.
use stealthpipe_relay.Prelude.{[], ◌∷◌, text_key, ◌≡◌, refl, ◌↔◌, none, true}
use stealthpipe_relay.Dict.{lookup}
use stealthpipe_relay.Signal.{handle_signal_packet_from_client}
use stealthpipe_relay.Signal.Routing.{is_forwarded, handle_signal_packet_from_client_panics}
use stealthpipe_relay.Examples.{code, empty_room, with_room}

handle_signal_packet_from_client_panics_example :
    (handle_signal_packet_from_client (with_room empty_room) (3 ∷ 17 ∷ []) 5 code ≡ none)
    ↔ ((empty_room.host ≡ none) × (is_forwarded (3 ∷ 17 ∷ []) ≡ true))
unfolding lookup
handle_signal_packet_from_client_panics_example =
    handle_signal_packet_from_client_panics (with_room empty_room) 0 5 code (3 ∷ 17 ∷ []) refl
