-- ===== src/Examples/Answering.antt =====
-- The load generator and the relay together.
use stealthpipe_relay.Prelude.{ℕ, Option, some, Text, text_key, nat_key}
use stealthpipe_relay.Types.{Room, second}
use stealthpipe_relay.Create.{new_room}
use stealthpipe_relay.ClientRelay.{register, request_message}
use stealthpipe_relay.Bench.Rooms.{Benchmarker, new_benchmarker, add_room}
use stealthpipe_relay.Bench.Dialing.{Dial}
use stealthpipe_relay.Examples.{code}

-- The client 2 of the room waits for an answer to the request that it has sent to the host.
abbrev asking_room : Room
asking_room = register (new_room second) (request_message 42 code) 2

abbrev only_four : Text → Option ℕ
only_four version = some 4

abbrev generator : Benchmarker
generator = (add_room new_benchmarker code).0

abbrev dial : Dial
dial = record { meanwhile = λ b. b; dialed = some 3 }
