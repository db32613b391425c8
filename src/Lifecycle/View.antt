-- ===== src/Lifecycle/View.antt =====
-- The registry that the relay's state stands for, and the moves of one room under its handlers.
use stealthpipe_relay.Prelude.{
  ℕ, Option, none, some, [], ◌∷◌, Text, nat_key, text_key, refl, Option-cases, inl, inr,
}
use stealthpipe_relay.Dict.{lookup}
use stealthpipe_relay.Dict.Laws.{lookup-insert, lookup-delete}
use stealthpipe_relay.Types.{Conn, Ptr, RoomRef, Room, Server}
use stealthpipe_relay.Join.{set_host}
use stealthpipe_relay.Signal.{assign_client}
use stealthpipe_relay.Lifecycle.{
  RoomWrite, asks, enters, takes, names_conn, names_client, fills, joins, withdraws, hands_on,
}
use stealthpipe_relay.Lifecycle.Taken.{take-taken, name_conn-named}
use stealthpipe_relay.Lifecycle.Registry

abbrev pub view_room : Room → Registry.Place
view_room room = record {
  host = room.host;
  clients = λ c. lookup c room.clients_to_host;
  waiting = λ r. lookup r room.requested_connections;
}

abbrev pub placed : (RoomRef → Room) → Option RoomRef → Option Registry.Place
placed heap none = none
placed heap (some ref) = some (view_room (heap ref))

abbrev pub view : Server → Registry.Registry
view app code = placed app.heap (lookup code app.rooms)

set_host-Move :
    (room : Room) (conn : Conn) (addr : Text) (now : ℕ)
    → Registry.Move (view_room room) (view_room (set_host room conn addr now).0)
unfolding set_host
set_host-Move room conn addr now = elim (Option-cases room.host) [
  | inl free ↦ rw (free, set_host) (Registry.Move.hosts conn refl refl (λ c. refl) (λ r. refl))
  | inr (host, taken) ↦ rw (taken, set_host) (Registry.Move.rests taken (λ c. refl) (λ r. refl))
]

assign_client-Move :
    (room : Room) (message : Text) (conn : Conn)
    → Registry.Move (view_room room) (view_room (assign_client room message conn))
unfolding assign_client
assign_client-Move room [] conn = Registry.Move.rests refl (λ c. refl) (λ r. refl)
assign_client-Move room (t ∷ []) conn = Registry.Move.rests refl (λ c. refl) (λ r. refl)
assign_client-Move room (t ∷ id ∷ rest) conn = Registry.Move.rests refl (λ c. refl) (λ r. refl)

-- What a critical section of a handler does to a room is a move of its place.
pub RoomWrite-Move : {s t : Room} → RoomWrite s t → Registry.Move (view_room s) (view_room t)
RoomWrite-Move {s} (asks request client) =
    Registry.Move.asks request client refl (λ c. refl)
      (λ r. lookup-insert request r client s.requested_connections)
RoomWrite-Move {s} (enters client) =
    Registry.Move.enters client refl (λ c. lookup-insert {V = Ptr} client c none s.clients_to_host)
      (λ r. refl)
RoomWrite-Move {s} (takes request client room took) =
    let (waits, e) = take-taken s room request client took in
    rw e (
      Registry.Move.takes request client waits refl (λ c. refl)
        (λ r. lookup-delete request r s.requested_connections))
RoomWrite-Move {s} (names_conn client conn room named) =
    let (there, e) = name_conn-named s room client conn named in
    rw e (
      Registry.Move.names client conn there refl
        (λ c. lookup-insert client c (some conn) s.clients_to_host) (λ r. refl))
RoomWrite-Move (names_client client conn) = Registry.Move.rests refl (λ c. refl) (λ r. refl)
RoomWrite-Move (fills now) = Registry.Move.rests refl (λ c. refl) (λ r. refl)
RoomWrite-Move {s} (joins conn addr now) = set_host-Move s conn addr now
RoomWrite-Move {s} (withdraws request) =
    Registry.Move.withdraws request refl (λ c. refl)
      (λ r. lookup-delete request r s.requested_connections)
RoomWrite-Move {s} (hands_on message conn) = assign_client-Move s message conn
