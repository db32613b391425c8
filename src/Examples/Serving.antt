-- ===== src/Examples/Serving.antt =====
-- The process and its recovery.
use stealthpipe_relay.Prelude.{
  true, false, none, some, [], ◌∷◌, ◌++◌, Text, codes, text_key, nat_key, ◌≡◌, refl, arith, length,
}
use stealthpipe_relay.Dict.{lookup}
use stealthpipe_relay.Types.{new_server, second, close}
use stealthpipe_relay.Types.Reasons.{CloseReason}
use stealthpipe_relay.Serve.{new_process, do_init, call_http, serve_https, Loop}
use stealthpipe_relay.Serve.Once.{handler_of, times_started, served_once}
use stealthpipe_relay.ClientRelay.Forward.{not_binary}
use stealthpipe_relay.HostRelay.{World, host_loop, host_round, host_relay_handler}
use stealthpipe_relay.HostRelay.Recovery.{IsLink, recovery_of, recovered_twice}
use stealthpipe_relay.Examples.{code, linked_room, with_room}

served_once_example :
    let (p, panicked) = do_init (new_process new_server) in
    let (q, handlers) = serve_https (new_process new_server) (codes "/ping" ∷ codes "/" ∷ []) in
    (panicked ≡ false)
    × (p.server.is_healthy ≡ true)
    × ((loop : Loop) → times_started loop p.loops ≡ 1)
    × (length p.loops ≡ 7)
    × ((other : Text) → call_http p other ≡ some (handler_of other))
    × (handlers ≡ some (handler_of (codes "/ping")) ∷ none ∷ [])
    × (length q.loops ≡ 14)
served_once_example = served_once new_server (codes "/ping") (codes "/" ∷ [])

-- A text message is skipped, and then the handler panics.
abbrev panicking : World
panicking = record {
  frames = not_binary ∷ [];
  panics = true;
  ended = λ app. app;
  recovered = λ app. app;
  now = second;
}

-- The connection 3 is linked with the client 2 in the room at the address 0.
linked-IsLink : IsLink (with_room linked_room) code 3 2
unfolding lookup
linked-IsLink = record {
  ref = 0;
  there = refl;
  not_host = λ e. ground arith;
  not_client = refl;
  link = refl;
}

recovered_twice_example :
    host_relay_handler (with_room linked_room) 3 code panicking
    ≡ some (record {
      server = recovery_of (with_room linked_room) 2 panicking;
      effects =
          (host_loop (with_room linked_room) 2 panicking.frames).effects
          ++ (close 2 CloseReason.client_disconnected ∷ close 3 CloseReason.unspecified ∷ [])
          ++ (close 2 CloseReason.client_disconnected ∷ close 3 CloseReason.internal_error ∷ []);
      last_reason = CloseReason.unspecified;
    })
unfolding lookup host_loop host_round
recovered_twice_example =
    recovered_twice (with_room linked_room) 3 2 code panicking linked-IsLink refl refl linked-IsLink
      linked-IsLink
