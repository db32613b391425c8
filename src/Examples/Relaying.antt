-- ===== src/Examples/Relaying.antt =====
-- Clients and host connections on the relay.
use stealthpipe_relay.Prelude.{
  ◌*◌, All, true, some, List, [], ◌∷◌, codes, text_key, nat_key, ◌≡◌, refl, arith, In,
}
use stealthpipe_relay.Dict.{lookup}
use stealthpipe_relay.Types.{close, Server, Room, second, write, dec64}
use stealthpipe_relay.Types.Reasons.{CloseReason}
use stealthpipe_relay.Cleanup.{handle_cleanup, is_host, close_all, client_closing}
use stealthpipe_relay.ClientRelay.{
  over, open_client, close_client, Served, World, client_relay_handler, finish_client,
  request_message,
}
use stealthpipe_relay.ClientRelay.Wait.{
  handle_request_cleanup, Seen, wait_for_host, still_waiting, poll, continues,
}
use stealthpipe_relay.ClientRelay.Forward.{
  CopyError, Frame, read_error, not_binary, binary, client_loop, copy_failed,
}
use stealthpipe_relay.ClientRelay.Forwarding.{IsForwarded, client_loop-IsForwarded}
use stealthpipe_relay.ClientRelay.Waiting.{wait_for_host-never_times_out}
use stealthpipe_relay.ClientRelay.Closing.{IsToldOnly, client_relay_handler_unspecified}
use stealthpipe_relay.ClientRelay.Session.{Serves, closing, registered, client_relay_handler-Serves}
use stealthpipe_relay.HostRelay.{host_loop}
use stealthpipe_relay.HostRelay.Forwarding.{host_loop-IsForwarded}
use stealthpipe_relay.Examples.{code, linked_room, with_room}

-- Two messages, one that is not binary between them, and an error of the reader.
abbrev pub frames : List Frame
frames =
    binary (codes "one") true CopyError.no_error true
    ∷ not_binary
    ∷ binary (codes "two") true CopyError.eof true
    ∷ read_error
    ∷ binary (codes "three") true CopyError.no_error true
    ∷ []

client_loop-IsForwarded_example :
    IsForwarded (with_room linked_room) 3 frames (client_loop (with_room linked_room) 3 frames)
client_loop-IsForwarded_example =
    client_loop-IsForwarded (with_room linked_room) 3 frames (omega arith)

host_loop-IsForwarded_example :
    IsForwarded (with_room linked_room) 2 frames (host_loop (with_room linked_room) 2 frames)
host_loop-IsForwarded_example = host_loop-IsForwarded (with_room linked_room) 2 frames (omega arith)

-- The client 4 waits for longer than a minute.
abbrev late : List Seen
late =
    record { server = with_room linked_room; elapsed = 59 * second }
    ∷ record { server = with_room linked_room; elapsed = 3600 * second }
    ∷ []

wait_for_host-never_times_out_example :
    All (λ seen. poll 4 code seen ≡ continues) late × (wait_for_host 4 code late ≡ still_waiting)
unfolding lookup
wait_for_host-never_times_out_example =
    wait_for_host-never_times_out 4 code late
      ((0, 1, refl, refl, refl), ((0, 1, refl, refl, refl), tt))

-- A client that is new to the room: the host answers with the connection 6, and the first message
-- is one byte over a maximum of 2.
abbrev served_room : Room
served_room = record linked_room { clients_to_host = (5, some 6) ∷ linked_room.clients_to_host }

abbrev strict : Room → Server
strict room =
    let app = with_room room in
    record app { config = record app.config { packet_maximum_size = 2 } }

abbrev oversized : World
oversized = record {
  drawn = some 7;
  written = true;
  polls = record { server = strict served_room; elapsed = 0 } ∷ [];
  waited = λ app. strict served_room;
  frames = binary (codes "one") true CopyError.no_error true ∷ [];
  ended = λ app. strict served_room;
  now = second;
}

-- The handler ended because the packet was too large, and the client is closed for no reason.
abbrev dismissed : Served
dismissed = record {
  server = record (strict served_room) {
    number_of_clients_connected = dec64 (strict served_room).number_of_clients_connected;
  };
  effects =
      write 1 (request_message 7 code)
      ∷ close 6 CloseReason.client_disconnected
      ∷ close 5 CloseReason.unspecified
      ∷ [];
  last_reason = CloseReason.packet_too_large;
}

client_relay_handler_unspecified_example :
    IsToldOnly 5 code oversized (over dismissed)
    × In (close 5 CloseReason.unspecified) dismissed.effects
unfolding lookup client_relay_handler open_client wait_for_host client_loop handle_request_cleanup
    finish_client close_client handle_cleanup is_host close_all client_closing
client_relay_handler_unspecified_example =
    client_relay_handler_unspecified 5 code oversized (strict linked_room)
      (registered (strict linked_room) 0 (request_message 7 code) 5)
      (write 1 (request_message 7 code) ∷ []) (request_message 7 code) dismissed 0 refl refl refl

-- The host answers with the connection 6, and two messages come before the error of the reader.
abbrev answered : World
answered = record oversized {
  polls = record { server = with_room served_room; elapsed = 0 } ∷ [];
  waited = λ app. with_room served_room;
  frames = frames;
}

client_relay_handler-Serves_example :
    Serves
      (write 1 (request_message 7 code) ∷ write 6 (codes "one") ∷ write 6 (codes "two") ∷ [])
      true
      (closing
        (handle_request_cleanup (with_room served_room) (request_message 7 code) code)
        5
        code
        answered
        2)
      (client_relay_handler (with_room linked_room) 5 code answered)
unfolding lookup wait_for_host copy_failed
client_relay_handler-Serves_example =
    client_relay_handler-Serves (with_room linked_room) 5 1 6 code answered 0 7 refl refl refl refl
      refl refl (omega arith)
