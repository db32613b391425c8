-- ===== src/Examples/Meeting.antt =====
-- A client and a host that meet in a room.
use stealthpipe_relay.Prelude.{true, some, [], ◌∷◌, codes, text_key, nat_key, refl, arith}
use stealthpipe_relay.Numbers.{print_nat}
use stealthpipe_relay.Dict.{lookup, insert, delete}
use stealthpipe_relay.Types.{Room, second, write}
use stealthpipe_relay.Create.{new_room}
use stealthpipe_relay.Join.{set_host, link_request, link_client}
use stealthpipe_relay.ClientRelay.{World, register, request_message, client_relay_handler}
use stealthpipe_relay.ClientRelay.Wait.{Seen, poll, poll_room, poll_entry, handle_request_cleanup}
use stealthpipe_relay.ClientRelay.Forward.{copy_failed}
use stealthpipe_relay.ClientRelay.Session.{Serves, closing}
use stealthpipe_relay.Pairing.{IsPaired}
use stealthpipe_relay.Lifecycle.{here, next, hosts, registers}
use stealthpipe_relay.Lifecycle.Rooms.{RoomReach-IsPaired}
use stealthpipe_relay.Lifecycle.Served.{answered_client}
use stealthpipe_relay.Examples.{code, with_room}
use stealthpipe_relay.Examples.Relaying.{frames}

-- A new room that the host 1 has joined.
abbrev hosted : Room
hosted = (set_host (new_room second) 1 (codes "::1") second).0

hosted-IsPaired : IsPaired hosted
hosted-IsPaired = RoomReach-IsPaired second (next here (hosts 1 (codes "::1") second))

-- The client 2 asks, another client asks after it, and the host answers the first with 3.
abbrev asking : Room
asking = register (register hosted (request_message 42 code) 2) (codes "other") 8

abbrev met : Room
met = (link_request asking (request_message 42 code) 3 second).0

abbrev waiting : Seen
waiting = record { server = with_room asking; elapsed = 0 }

abbrev meeting : Seen
meeting = record { server = with_room met; elapsed = second }

abbrev joining : World
joining = record {
  drawn = some 42;
  written = true;
  polls = waiting ∷ meeting ∷ [];
  waited = λ app. with_room met;
  frames = frames;
  ended = λ app. app;
  now = second;
}

answered_client_example :
    Serves
      (write 1 (request_message 42 code) ∷ write 3 (codes "one") ∷ write 3 (codes "two") ∷ [])
      true
      (closing
        (handle_request_cleanup (with_room met) (request_message 42 code) code)
        2
        code
        joining
        2)
      (client_relay_handler (with_room hosted) 2 code joining)
unfolding lookup insert delete new_room set_host register link_request link_client request_message
    print_nat poll poll_room poll_entry copy_failed
answered_client_example =
    answered_client (with_room hosted) 2 1 3 code joining 0 42 second asking (waiting ∷ []) []
      meeting refl refl refl refl refl hosted-IsPaired refl
      (next here (registers (codes "other") 8 refl)) refl refl here refl refl (refl, tt)
      (omega arith)
