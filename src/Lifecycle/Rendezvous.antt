-- ===== src/Lifecycle/Rendezvous.antt =====
-- The meeting of a client and its host connection, across all that may happen in between.
use stealthpipe_relay.Prelude.{
  ℕ, none, some, [], ◌∷◌, Text, nat_key, text_key, nat_beq_iff, ◌≡◌, arith, Option-cases, inl, inr,
}
use stealthpipe_relay.Dict.{lookup}
use stealthpipe_relay.Dict.Laws.{lookup-insert, lookup-insert_self}
use stealthpipe_relay.Types.{Conn, Ptr, Room}
use stealthpipe_relay.Join.{set_host, link_request}
use stealthpipe_relay.ClientRelay.{register}
use stealthpipe_relay.ClientRelay.Wait.{drop_request, poll_room, returns}
use stealthpipe_relay.Signal.{assign_client}
use stealthpipe_relay.Pairing.{IsPaired, linked, link_request-linked, link_request-missing}
use stealthpipe_relay.Lifecycle.{
  RoomStep, registers, links, hosts, drops, assigns, RoomReach, here, next,
}
use stealthpipe_relay.Lifecycle.Rooms.{RoomStep-IsPaired}

module _ (client conn host : Conn) where
  -- The client has its host connection, in a room with a host.
  pub record IsLinked (room : Room) : Type 0 where
    pub sound : IsPaired room
    pub entry : lookup client room.clients_to_host ≡ some (some conn)
    pub hosted : room.host ≡ some host

  register-entry :
      (room : Room) (message : Text) (other : Conn)
      → lookup other room.clients_to_host ≡ none
      → lookup client room.clients_to_host ≡ some (some conn)
      → lookup client (register room message other).clients_to_host ≡ some (some conn)
  unfolding register
  register-entry room message other new h = ground (
    arith,
    lookup-insert {V = Ptr} other client none room.clients_to_host,
    nat_beq_iff other client,
  )

  linked-entry :
      (room : Room) (request : Text) (other h : Conn) (now : ℕ)
      → IsPaired room
      → lookup request room.requested_connections ≡ some other
      → lookup client room.clients_to_host ≡ some (some conn)
      → lookup client (linked room request other h now).clients_to_host ≡ some (some conn)
  linked-entry room request other h now v waits e = ground (
    arith,
    lookup-insert {V = Ptr} other client (some h) room.clients_to_host,
    nat_beq_iff other client,
    v.pending request other waits,
  )

  link_request-IsLinked :
      (room : Room) (request : Text) (h : Conn) (now : ℕ)
      → IsPaired (link_request room request h now).0
      → IsLinked room
      → IsLinked (link_request room request h now).0
  link_request-IsLinked room request h now w l =
      elim (Option-cases (lookup request room.requested_connections)) [
        | inl missing ↦ rw (link_request-missing room request h now missing) l
        | inr (other, waits) ↦
            let e =
              link_request-linked room request other h none now waits
                (l.sound.pending request other waits) in
            record {
              sound = w;
              entry = rw e (linked-entry room request other h now l.sound waits l.entry);
              hosted = rw e l.hosted;
            }
      ]

  RoomStep-IsLinked : {s t : Room} → RoomStep s t → IsLinked s → IsLinked t
  unfolding register set_host drop_request assign_client
  RoomStep-IsLinked {s} (registers message other new) l = record {
    sound = RoomStep-IsPaired (registers message other new) l.sound;
    entry = register-entry s message other new l.entry;
    hosted = l.hosted;
  }
  RoomStep-IsLinked {s} (links request h now new) l =
      link_request-IsLinked s request h now (RoomStep-IsPaired (links request h now new) l.sound) l
  RoomStep-IsLinked {s} (hosts other addr now) l = record {
    sound = RoomStep-IsPaired (hosts other addr now) l.sound;
    entry = ground (arith, l.entry);
    hosted = ground (arith, l.hosted);
  }
  RoomStep-IsLinked {s} (drops request) l = record {
    sound = RoomStep-IsPaired (drops request) l.sound;
    entry = ground (arith, l.entry);
    hosted = ground (arith, l.hosted);
  }
  RoomStep-IsLinked {s} (assigns message other) l = record {
    sound = RoomStep-IsPaired (assigns message other) l.sound;
    entry = assigned_entry message other l.entry;
    hosted = assigned_host message other l.hosted;
  }
    where
      assigned_entry :
          (message : Text) (other : Conn)
          → lookup client s.clients_to_host ≡ some (some conn)
          → lookup client (assign_client s message other).clients_to_host ≡ some (some conn)
      assigned_entry [] other h = h
      assigned_entry (t ∷ []) other h = h
      assigned_entry (t ∷ id ∷ rest) other h = h

      assigned_host :
          (message : Text) (other : Conn)
          → s.host ≡ some host
          → (assign_client s message other).host ≡ some host
      assigned_host [] other h = h
      assigned_host (t ∷ []) other h = h
      assigned_host (t ∷ id ∷ rest) other h = h

  RoomReach-IsLinked : {room s : Room} → RoomReach room s → IsLinked room → IsLinked s
  RoomReach-IsLinked here l = l
  RoomReach-IsLinked (next r st) l = RoomStep-IsLinked st (RoomReach-IsLinked r l)

  poll_room-IsLinked :
      (room : Room) (elapsed : ℕ) → IsLinked room → poll_room room client elapsed ≡ returns conn
  unfolding poll_room
  poll_room-IsLinked room elapsed l = ground (arith, l.entry, l.hosted)

pub rendezvous :
    (room s : Room) (request : Text) (client conn host : Conn) (now elapsed : ℕ)
    → IsPaired room
    → room.host ≡ some host
    → lookup request room.requested_connections ≡ some client
    → lookup conn room.host_to_clients ≡ none
    → RoomReach (link_request room request conn now).0 s
    → poll_room s client elapsed ≡ returns conn
rendezvous room s request client conn host now elapsed v hosted waits new r =
    let e =
      link_request-linked room request client conn none now waits
        (v.pending request client waits) in
    poll_room-IsLinked client conn host s elapsed (
      RoomReach-IsLinked client conn host r (record {
        sound = RoomStep-IsPaired (links request conn now new) v;
        entry = rw e (lookup-insert_self client (some conn) room.clients_to_host);
        hosted = rw e hosted;
      }))
