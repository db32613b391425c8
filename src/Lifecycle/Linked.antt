-- ===== src/Lifecycle/Linked.antt =====
-- The links of a room under every interleaving of the critical sections that make them.
use stealthpipe_relay.Prelude.{
  ℕ, Option, none, some, Text, nat_beq_iff, nat_key, text_key, ◌≡◌, ◌≢◌, ◌⊎◌, inl, inr, refl, arith,
}
use stealthpipe_relay.Dict.{lookup}
use stealthpipe_relay.Dict.Laws.{lookup-insert}
use stealthpipe_relay.Types.{Conn, Ptr}
use stealthpipe_relay.Create.{new_room}
use stealthpipe_relay.Pairing.{IsPaired}
use stealthpipe_relay.Lifecycle.Sections.{
  asking, linking, linked, State, beginning, Section, asks, enters, takes, finds_no_request,
  names_conn, finds_no_client, names_client, gives_up, Run, begun, further,
}
use stealthpipe_relay.Lifecycle.Taken.{take-taken, name_conn-named}
use stealthpipe_relay.Lifecycle.Orderly.{IsOrderly}
use stealthpipe_relay.Lifecycle.Orderly.Clients.{
  asks-IsOrderly, enters-IsOrderly, gives_up-IsOrderly,
}
use stealthpipe_relay.Lifecycle.Orderly.Hosts.{
  takes-IsOrderly, names_conn-IsOrderly, names_client-IsOrderly, refused-IsOrderly,
}

beginning-IsOrderly : (now : ℕ) → IsOrderly (beginning now)
unfolding new_room lookup
beginning-IsOrderly now = record {
  requested_by = λ r c e. cc;
  taken_by = λ h c r e. cc;
  untaken = λ r q h c e f. cc;
  one_taker = λ h k c r q e f. cc;
  fresh = λ c e. refl;
  not_entered = λ c r e. refl;
  entered = λ c r e. cc;
  unlinked = λ r c h e. cc;
  unlinked_taken = λ r k c h e. cc;
  linked_to = λ c h e. cc;
  link_of = λ h c e. cc;
  linked_of = λ h c e. cc;
  hosted = λ h c e. cc;
}

Section-IsOrderly : {s t : State} → Section s t → IsOrderly s → IsOrderly t
Section-IsOrderly {s} (asks request c free) v = asks-IsOrderly s request c free v
Section-IsOrderly {s} (enters request c asked) v = enters-IsOrderly s request c asked v
Section-IsOrderly {s} (takes request h c room free took) v =
    let (waits, e) = take-taken s.room room request c took in
    rw e (takes-IsOrderly s request h c free waits v)
Section-IsOrderly {s} (finds_no_request request h free missing) v =
    refused-IsOrderly s h (inl free) v
Section-IsOrderly {s} (names_conn request h c room taken named) v =
    let (there, e) = name_conn-named s.room room c h named in
    rw e (names_conn-IsOrderly s request h c taken there v)
Section-IsOrderly {s} (finds_no_client request h c taken missing) v =
    refused-IsOrderly s h (inr (request, c, taken)) v
Section-IsOrderly {s} (names_client h c halfway) v = names_client-IsOrderly s h c halfway v
Section-IsOrderly {s} (gives_up request) v = gives_up-IsOrderly s request v

Run-IsOrderly : {s t : State} → Run s t → IsOrderly s → IsOrderly t
Run-IsOrderly begun v = v
Run-IsOrderly (further r section) v = Section-IsOrderly section (Run-IsOrderly r v)

-- A client's entry, and where it names a connection, does not change any more.
Section-keeps :
    {s t : State} (c h : Conn)
    → Section s t
    → IsOrderly s
    → lookup c s.room.clients_to_host ≡ some (some h)
    → lookup c t.room.clients_to_host ≡ some (some h)
Section-keeps {s} c h (asks request d free) v l = l
Section-keeps {s} c h (enters request d asked) v l =
    ground (
      arith,
      lookup-insert {V = Ptr} d c none s.room.clients_to_host,
      v.not_entered d request asked,
    )
Section-keeps {s} c h (takes request k d room free took) v l =
    let (waits, e) = take-taken s.room room request d took in rw e l
Section-keeps {s} c h (finds_no_request request k free missing) v l = l
Section-keeps {s} c h (names_conn request k d room taken named) v l =
    let (there, e) = name_conn-named s.room room d k named in
    ground (
      arith,
      lookup-insert {V = Ptr} d c (some k) s.room.clients_to_host,
      v.unlinked_taken request k d h taken,
    )
Section-keeps {s} c h (finds_no_client request k d taken missing) v l = l
Section-keeps {s} c h (names_client k d halfway) v l = l
Section-keeps {s} c h (gives_up request) v l = l

Run-keeps :
    {s t : State} (c h : Conn)
    → Run s t
    → IsOrderly s
    → lookup c s.room.clients_to_host ≡ some (some h)
    → lookup c t.room.clients_to_host ≡ some (some h)
Run-keeps c h begun v l = l
Run-keeps c h (further r section) v l =
    Section-keeps c h section (Run-IsOrderly r v) (Run-keeps c h r v l)

-- An entry that names no connection is missing or empty.
unlinked_entry :
    (entry : Option Ptr)
    → ((h : Conn) → entry ≢ some (some h))
    → (entry ≡ none) ⊎ (entry ≡ some none)
unlinked_entry none n = inl refl
unlinked_entry (some none) n = inr refl
unlinked_entry (some (some h)) n = absurd (n h refl)

-- A connection that is linked stays so.
Section-stays : {s t : State} (c h : Conn) → Section s t → s.at h ≡ linked c → t.at h ≡ linked c
Section-stays {s} c h (asks request d free) l = ground (arith, nat_beq_iff d h)
Section-stays {s} c h (enters request d asked) l = ground (arith, nat_beq_iff d h)
Section-stays {s} c h (takes request k d room free took) l = ground (arith, nat_beq_iff k h)
Section-stays {s} c h (finds_no_request request k free missing) l = ground (arith, nat_beq_iff k h)
Section-stays {s} c h (names_conn request k d room taken named) l = ground (arith, nat_beq_iff k h)
Section-stays {s} c h (finds_no_client request k d taken missing) l =
    ground (arith, nat_beq_iff k h)
Section-stays {s} c h (names_client k d halfway) l = ground (arith, nat_beq_iff k h)
Section-stays {s} c h (gives_up request) l = l

Run-stays : {s t : State} (c h : Conn) → Run s t → s.at h ≡ linked c → t.at h ≡ linked c
Run-stays c h begun l = l
Run-stays c h (further r section) l = Section-stays c h section (Run-stays c h r l)

-- Let the critical sections of a room's handlers, in any order and with any interleaving, lead from
-- a new room to `t`, and from there to `u`. Where a client's entry in `t` names a host connection,
-- it names the same one in `u`, and that connection's entry in `u` names the client, unless in `t`
-- the handler of the connection was still between the two sections that write these entries.
pub Run-linked :
    (now : ℕ) (t u : State) (client conn : Conn)
    → Run (beginning now) t
    → Run t u
    → lookup client t.room.clients_to_host ≡ some (some conn)
    → (lookup client u.room.clients_to_host ≡ some (some conn))
      × ((t.at conn ≡ linking client) ⊎ (lookup conn u.room.host_to_clients ≡ some client))
Run-linked now t u client conn r later l =
    let v = Run-IsOrderly r (beginning-IsOrderly now) in
    let w = Run-IsOrderly later v in
    (
      Run-keeps client conn later v l,
      elim (v.linked_to client conn l) [
        | inl halfway ↦ inl halfway
        | inr done ↦ inr (w.linked_of conn client (Run-stays client conn later done)).1
      ],
    )

-- However the critical sections of a room's handlers have interleaved since the room was new, its
-- maps are paired as soon as no client is between the two sections of its registration and no
-- host connection between the two sections that write its link: every request belongs to one
-- client, which has an entry without a connection, and a client and a host connection name one
-- another.
pub quiet-IsPaired :
    (now : ℕ) (t : State)
    → Run (beginning now) t
    → ((client : Conn) (request : Text) → t.at client ≢ asking request)
    → ((conn client : Conn) → t.at conn ≢ linking client)
    → IsPaired t.room
quiet-IsPaired now t r no_asking no_linking =
    let v = Run-IsOrderly r (beginning-IsOrderly now) in
    record {
      pending = λ q c e. ground (
        arith,
        v.requested_by q c e,
        no_asking c q,
        v.entered c q,
        unlinked_entry (lookup c t.room.clients_to_host) (λ h. v.unlinked q c h e),
      );
      unique = λ q p c e f. ground (arith, v.requested_by q c e, v.requested_by p c f);
      paired = λ h c e. (v.linked_of h c (v.hosted h c e)).0;
      back = λ c h e. ground (arith, v.linked_to c h e, no_linking h c, v.linked_of h c);
    }
