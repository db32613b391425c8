-- ===== src/Lifecycle/Rooms.antt =====
-- The pairing of a room's maps and the flag of its host under all steps of its handlers.
use stealthpipe_relay.Prelude.{
  ℕ, Bool, true, false, none, some, [], ◌∷◌, Text, nat_key, text_key, ◌≡◌, refl, arith,
  Option-cases, inl, inr,
}
use stealthpipe_relay.Dict.{lookup, delete}
use stealthpipe_relay.Dict.Laws.{lookup-delete}
use stealthpipe_relay.Types.{Conn, Ptr, Room, null_room}
use stealthpipe_relay.Join.{set_host}
use stealthpipe_relay.ClientRelay.Wait.{drop_request}
use stealthpipe_relay.Create.{new_room}
use stealthpipe_relay.Signal.{assign_client}
use stealthpipe_relay.Pairing.{IsPaired, register-IsPaired, link_request-IsPaired}
use stealthpipe_relay.Lifecycle.{
  RoomWrite, asks, enters, takes, names_conn, names_client, fills, joins, withdraws, hands_on,
}
use stealthpipe_relay.Lifecycle.Taken.{take-taken, name_conn-named}
use stealthpipe_relay.Lifecycle.{
  RoomStep, registers, links, hosts, drops, assigns, RoomReach, here, next,
}

pub new_room-IsPaired : (now : ℕ) → IsPaired (new_room now)
unfolding new_room lookup
new_room-IsPaired now = record {
  pending = λ r c h. cc;
  unique = λ r s c h k. cc;
  paired = λ h c l. cc;
  back = λ c h l. cc;
}

pub null_room-IsPaired : IsPaired null_room
unfolding lookup
null_room-IsPaired = record {
  pending = λ r c h. cc;
  unique = λ r s c h k. cc;
  paired = λ h c l. cc;
  back = λ c h l. cc;
}

-- Only the three maps matter.
IsPaired-of_maps :
    (room room' : Room)
    → room'.requested_connections ≡ room.requested_connections
    → room'.clients_to_host ≡ room.clients_to_host
    → room'.host_to_clients ≡ room.host_to_clients
    → IsPaired room
    → IsPaired room'
IsPaired-of_maps room room' p q r v = record {
  pending = rw (p, q) v.pending;
  unique = rw p v.unique;
  paired = rw (q, r) v.paired;
  back = rw (q, r) v.back;
}

set_host-IsPaired :
    (room : Room) (conn : Conn) (addr : Text) (now : ℕ)
    → IsPaired room
    → IsPaired (set_host room conn addr now).0
unfolding set_host
set_host-IsPaired room conn addr now v =
    IsPaired-of_maps room _ (ground arith) (ground arith) (ground arith) v

dropped-IsPaired :
    (room : Room) (request : Text)
    → IsPaired room
    → IsPaired (record room { requested_connections = delete request room.requested_connections })
dropped-IsPaired room request v = record {
  pending =
      λ r c h. v.pending r c (ground (arith, lookup-delete request r room.requested_connections));
  unique = λ r s c h k.
      v.unique r s c (ground (arith, lookup-delete request r room.requested_connections))
        (ground (arith, lookup-delete request s room.requested_connections));
  paired = v.paired;
  back = v.back;
}

drop_request-IsPaired :
    (room : Room) (request : Text) → IsPaired room → IsPaired (drop_request room request)
unfolding drop_request
drop_request-IsPaired room request v =
    elim (Option-cases (lookup request room.requested_connections)) [
      | inl missing ↦ rw (missing, drop_request) v
      | inr (c, waits) ↦ rw (waits, drop_request) (dropped-IsPaired room request v)
    ]

assign_client-IsPaired :
    (room : Room) (message : Text) (conn : Conn)
    → IsPaired room
    → IsPaired (assign_client room message conn)
unfolding assign_client
assign_client-IsPaired room [] conn v = v
assign_client-IsPaired room (t ∷ []) conn v = v
assign_client-IsPaired room (t ∷ id ∷ rest) conn v = IsPaired-of_maps room _ refl refl refl v

pub RoomStep-IsPaired : {s t : Room} → RoomStep s t → IsPaired s → IsPaired t
RoomStep-IsPaired {s} (registers message conn new) v = register-IsPaired s message conn v new
RoomStep-IsPaired {s} (links request conn now new) v =
    link_request-IsPaired s request conn now v new
RoomStep-IsPaired {s} (hosts conn addr now) v = set_host-IsPaired s conn addr now v
RoomStep-IsPaired {s} (drops request) v = drop_request-IsPaired s request v
RoomStep-IsPaired {s} (assigns message conn) v = assign_client-IsPaired s message conn v

abbrev pub has_some : Ptr → Bool
has_some none = false
has_some (some conn) = true

-- `HasHost` says whether the room has a host.
abbrev pub IsHosted : Room → Type 0
IsHosted room = room.has_host ≡ has_some room.host

pub new_room-IsHosted : (now : ℕ) → IsHosted (new_room now)
unfolding new_room
new_room-IsHosted now = refl

pub RoomWrite-IsHosted : {s t : Room} → RoomWrite s t → IsHosted s → IsHosted t
unfolding set_host assign_client
RoomWrite-IsHosted (asks request client) h = h
RoomWrite-IsHosted (enters client) h = h
RoomWrite-IsHosted {s} (takes request client room took) h =
    let (waits, e) = take-taken s room request client took in rw e h
RoomWrite-IsHosted {s} (names_conn client conn room named) h =
    let (there, e) = name_conn-named s room client conn named in rw e h
RoomWrite-IsHosted (names_client client conn) h = h
RoomWrite-IsHosted (fills now) h = h
RoomWrite-IsHosted {s} (joins conn addr now) h = ground arith
RoomWrite-IsHosted (withdraws request) h = h
RoomWrite-IsHosted (hands_on [] conn) h = h
RoomWrite-IsHosted (hands_on (t ∷ []) conn) h = h
RoomWrite-IsHosted (hands_on (t ∷ id ∷ rest) conn) h = h

-- In every room that handlers make of a new one, the maps pair clients and host connections: a
-- request that waits belongs to one client without a host connection, and the map from clients to
-- host connections and the map back are inverse to one another.
pub RoomReach-IsPaired : (now : ℕ) {room : Room} → RoomReach (new_room now) room → IsPaired room
RoomReach-IsPaired now here = new_room-IsPaired now
RoomReach-IsPaired now (next r st) = RoomStep-IsPaired st (RoomReach-IsPaired now r)
