-- ===== src/HostRelay/Forwarding.antt =====
-- The loop of `handleHostToRelayGameConnection`, beside that of `clientRelayHandler`.
use stealthpipe_relay.Prelude.{ℕ, ◌<◌, ◌^◌, List, [], ◌∷◌, ◌≡◌, refl, arith}
use stealthpipe_relay.Types.{Conn, Server}
use stealthpipe_relay.ClientRelay.Forward.{
  Frame, read_error, not_binary, binary, client_round, counted, client_loop,
}
use stealthpipe_relay.ClientRelay.Forwarding.{IsForwarded, client_loop-IsForwarded}
use stealthpipe_relay.HostRelay.{host_round, host_loop}

host_round-client_round :
    (maximum : ℕ) (frame : Frame) → host_round maximum frame ≡ client_round maximum frame
unfolding host_round client_round
host_round-client_round maximum read_error = refl
host_round-client_round maximum not_binary = refl
host_round-client_round maximum (binary m w c l) = refl

host_loop-client_loop :
    (app : Server) (target : Conn) (frames : List Frame)
    → host_loop app target frames ≡ client_loop app target frames
unfolding host_loop client_loop
host_loop-client_loop app target [] = refl
host_loop-client_loop app target (frame ∷ frames) = ground (
  arith,
  host_round-client_round app.config.packet_maximum_size frame,
  host_loop-client_loop app target frames,
  host_loop-client_loop (counted app) target frames,
)

-- The loop sends to the client exactly the binary messages that the host connection sent before the
-- first frame that ends the loop, unchanged and in order; it counts each, modulo 2^64, and changes
-- nothing else.
pub host_loop-IsForwarded :
    (app : Server) (target : Conn) (frames : List Frame)
    → app.packet_counter < 2 ^ 64
    → IsForwarded app target frames (host_loop app target frames)
host_loop-IsForwarded app target frames h =
    rw (host_loop-client_loop app target frames) (client_loop-IsForwarded app target frames h)
