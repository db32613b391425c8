-- ===== src/Lifecycle/Hosts.antt =====
-- The host of a room under all steps of its handlers.
use stealthpipe_relay.Prelude.{ℕ, some, [], ◌∷◌, Text, nat_key, text_key, ◌≡◌, arith, ◌∙◌}
use stealthpipe_relay.Types.{Conn, Room}
use stealthpipe_relay.Types.Reasons.{CloseReason}
use stealthpipe_relay.Join.{set_host, link_request, link_client}
use stealthpipe_relay.ClientRelay.{register}
use stealthpipe_relay.ClientRelay.Wait.{drop_request}
use stealthpipe_relay.Signal.{assign_client}
use stealthpipe_relay.Lifecycle.{
  RoomStep, registers, links, hosts, drops, assigns, RoomReach, here, next,
}

link_request-host :
    (room : Room) (request : Text) (conn : Conn) (now : ℕ)
    → (link_request room request conn now).0.host ≡ room.host
unfolding link_request link_client
link_request-host room request conn now = ground arith

RoomStep-host : {s t : Room} (host : Conn) → RoomStep s t → s.host ≡ some host → t.host ≡ some host
unfolding register set_host drop_request assign_client
RoomStep-host {s} host (registers message conn new) h = h
RoomStep-host {s} host (links request conn now new) h = link_request-host s request conn now ∙ h
RoomStep-host {s} host (hosts conn addr now) h = ground arith
RoomStep-host {s} host (drops request) h = ground arith
RoomStep-host {s} host (assigns [] conn) h = h
RoomStep-host {s} host (assigns (t ∷ []) conn) h = h
RoomStep-host {s} host (assigns (t ∷ id ∷ rest) conn) h = h

pub RoomReach-host :
    {room s : Room} (host : Conn) → RoomReach room s → room.host ≡ some host → s.host ≡ some host
RoomReach-host host here h = h
RoomReach-host host (next r st) h = RoomStep-host host st (RoomReach-host host r h)

-- Once a room has a host it keeps that host through any steps of its handlers, and every other
-- connection that joins it as a host is turned away without a change.
pub RoomReach-keeps_host :
    (room s : Room) (host conn : Conn) (remote_addr : Text) (now : ℕ)
    → RoomReach room s
    → room.host ≡ some host
    → (s.host ≡ some host)
      × (set_host s conn remote_addr now ≡ (s, some CloseReason.invalid_action))
unfolding set_host
RoomReach-keeps_host room s host conn remote_addr now r h =
    let kept = RoomReach-host host r h in (kept, ground (arith, kept))
