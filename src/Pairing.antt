-- ===== src/Pairing.antt =====
-- The three maps of a room that link clients to host connections, across the operations that write
-- them: `register` of a client, `link_request` of a host connection, and the dropping of a request.
use stealthpipe_relay.Prelude.{
  ℕ, none, some, Text, nat_key, text_key, text_beq_iff, nat_beq_iff, ◌≡◌, refl, arith, Option-cases,
  inl, inr,
}
use stealthpipe_relay.Dict.{lookup, insert, delete}
use stealthpipe_relay.Dict.Laws.{
  lookup-insert, lookup-delete, lookup-insert_self, lookup-delete_self,
}
use stealthpipe_relay.Types.{Conn, Ptr, Room, unix_milli}
use stealthpipe_relay.Types.Reasons.{CloseReason}
use stealthpipe_relay.Join.{link_request, link_client}
use stealthpipe_relay.ClientRelay.{register}

-- A request that waits belongs to one client, which has no host connection yet; a client and a host
-- connection name one another.
pub record IsPaired (room : Room) : Type 0 where
  pub pending :
      (r : Text) (c : Conn)
      → lookup r room.requested_connections ≡ some c
      → lookup c room.clients_to_host ≡ some none
  pub unique :
      (r s : Text) (c : Conn)
      → lookup r room.requested_connections ≡ some c
      → lookup s room.requested_connections ≡ some c
      → r ≡ s
  pub paired :
      (h c : Conn)
      → lookup h room.host_to_clients ≡ some c
      → lookup c room.clients_to_host ≡ some (some h)
  pub back :
      (c h : Conn)
      → lookup c room.clients_to_host ≡ some (some h)
      → lookup h room.host_to_clients ≡ some c

-- A client that is new to the room and asks for a host connection keeps the room paired, also if its
-- request has the text of another that waits.
pub register-IsPaired :
    (room : Room) (message : Text) (conn : Conn)
    → IsPaired room
    → lookup conn room.clients_to_host ≡ none
    → IsPaired (register room message conn)
unfolding register
register-IsPaired room message conn v new = record {
  pending = λ r c h. ground (
    arith,
    lookup-insert message r conn room.requested_connections,
    lookup-insert {V = Ptr} conn c none room.clients_to_host,
    v.pending r c,
    nat_beq_iff conn c,
  );
  unique = λ r s c h k. ground (
    arith,
    lookup-insert message r conn room.requested_connections,
    lookup-insert message s conn room.requested_connections,
    v.pending r c,
    v.pending s c,
    v.unique r s c,
    text_beq_iff message r,
    text_beq_iff message s,
  );
  paired = λ h c l. ground (
    arith,
    lookup-insert {V = Ptr} conn c none room.clients_to_host,
    v.paired h c,
    nat_beq_iff conn c,
  );
  back =
      λ c h l. ground (arith, lookup-insert {V = Ptr} conn c none room.clients_to_host, v.back c h);
}

-- The room after a request has been answered.
abbrev pub linked : Room → Text → Conn → Conn → ℕ → Room
linked room request client conn now = record room {
  requested_connections = delete request room.requested_connections;
  clients_to_host = insert client (some conn) room.clients_to_host;
  host_to_clients = insert conn client room.host_to_clients;
  last_room_filled_time = unix_milli now;
}

pub link_request-missing :
    (room : Room) (request : Text) (conn : Conn) (now : ℕ)
    → lookup request room.requested_connections ≡ none
    → link_request room request conn now ≡ (room, some CloseReason.invalid_request_id)
unfolding link_request
link_request-missing room request conn now h = rw (h, link_request) refl

pub link_request-linked :
    (room : Room) (request : Text) (client conn : Conn) (p : Ptr) (now : ℕ)
    → lookup request room.requested_connections ≡ some client
    → lookup client room.clients_to_host ≡ some p
    → link_request room request conn now ≡ (linked room request client conn now, none)
unfolding link_request
link_request-linked room request client conn p now waits entry =
    rw (waits, link_request) (rw (entry, link_client) refl)

linked-IsPaired :
    (room : Room) (request : Text) (client conn : Conn) (now : ℕ)
    → IsPaired room
    → lookup conn room.host_to_clients ≡ none
    → lookup request room.requested_connections ≡ some client
    → IsPaired (linked room request client conn now)
linked-IsPaired room request client conn now v new waits =
    let entry = v.pending request client waits in
    record {
      pending = λ r c h. ground (
        arith,
        lookup-delete request r room.requested_connections,
        lookup-insert {V = Ptr} client c (some conn) room.clients_to_host,
        v.pending r c,
        v.unique request r c,
        nat_beq_iff client c,
        text_beq_iff request r,
      );
      unique = λ r s c h k. ground (
        arith,
        lookup-delete request r room.requested_connections,
        lookup-delete request s room.requested_connections,
        v.unique r s c,
      );
      paired = λ h c l. ground (
        arith,
        lookup-insert conn h client room.host_to_clients,
        lookup-insert {V = Ptr} client c (some conn) room.clients_to_host,
        v.paired h c,
        entry,
        nat_beq_iff client c,
        nat_beq_iff conn h,
      );
      back = λ c h l. ground (
        arith,
        lookup-insert conn h client room.host_to_clients,
        lookup-insert {V = Ptr} client c (some conn) room.clients_to_host,
        v.back c h,
        nat_beq_iff client c,
        nat_beq_iff conn h,
      );
    }

-- A host connection that is new to the room keeps it paired, whether its request is served or not.
pub link_request-IsPaired :
    (room : Room) (request : Text) (conn : Conn) (now : ℕ)
    → IsPaired room
    → lookup conn room.host_to_clients ≡ none
    → IsPaired (link_request room request conn now).0
link_request-IsPaired room request conn now v new =
    elim (Option-cases (lookup request room.requested_connections)) [
      | inl missing ↦ rw (link_request-missing room request conn now missing) v
      | inr (client, waits) ↦
          rw
            (link_request-linked room request client conn none now waits
              (v.pending request client waits))
            (linked-IsPaired room request client conn now v new waits)
    ]

-- In a paired room a request that waits is answered once: the client and the host connection are
-- linked both ways, and a second host connection with the same request is turned away.
link_request_once :
    (room : Room) (request : Text) (client conn conn' : Conn) (now later : ℕ)
    → IsPaired room
    → lookup request room.requested_connections ≡ some client
    → let (room', refusal) = link_request room request conn now in
      (refusal ≡ none)
      × (lookup client room'.clients_to_host ≡ some (some conn))
      × (lookup conn room'.host_to_clients ≡ some client)
      × (link_request room' request conn' later ≡ (room', some CloseReason.invalid_request_id))
link_request_once room request client conn conn' now later v waits =
    rw
      (link_request-linked room request client conn none now waits (v.pending request client waits))
      (
        refl,
        lookup-insert_self client (some conn) room.clients_to_host,
        lookup-insert_self conn client room.host_to_clients,
        link_request-missing (linked room request client conn now) request conn' later
            (lookup-delete_self request room.requested_connections),
      )
