-- ===== src/Lifecycle/Orderly/Hosts.antt =====
-- The sections of host connections: a request taken, and the two halves of a link.
use stealthpipe_relay.Prelude.{
  none, some, Text, nat_key, text_key, nat_beq_iff, text_beq_iff, ◌≡◌, ◌≢◌, ◌⊎◌, arith,
}
use stealthpipe_relay.Dict.{lookup, insert, delete}
use stealthpipe_relay.Dict.Laws.{lookup-insert, lookup-delete}
use stealthpipe_relay.Types.{Conn, Ptr}
use stealthpipe_relay.Lifecycle.Sections.{idle, taking, linking, linked, refused, State, move}
use stealthpipe_relay.Lifecycle.Orderly.{IsOrderly}

pub takes-IsOrderly :
    (s : State) (request : Text) (h c : Conn)
    → s.at h ≡ idle
    → lookup request s.room.requested_connections ≡ some c
    → IsOrderly s
    → IsOrderly (
        move s h
          (taking request c)
          (record s.room { requested_connections = delete request s.room.requested_connections }))
takes-IsOrderly s request h c free waits v =
    let asker = v.requested_by request c waits in
    let cut = λ (r : Text). lookup-delete request r s.room.requested_connections in
    record {
      requested_by = λ r d e. ground (arith, v.requested_by r d, cut r, nat_beq_iff h d);
      taken_by =
          λ k d r e. ground (arith, v.taken_by k d r, asker, nat_beq_iff h k, nat_beq_iff h d);
      untaken = λ r q k d e f. ground (
        arith,
        v.untaken r q k d,
        cut r,
        v.requested_by r d,
        asker,
        nat_beq_iff h k,
        text_beq_iff request r,
      );
      one_taker = λ k l d r q e f. ground (
        arith,
        v.one_taker k l d r q,
        v.untaken request r k d,
        v.untaken request q l d,
        nat_beq_iff h k,
        nat_beq_iff h l,
      );
      fresh = λ d e. ground (arith, v.fresh d, nat_beq_iff h d);
      not_entered = λ d r e. ground (arith, v.not_entered d r, nat_beq_iff h d);
      entered = λ d r e. ground (arith, v.entered d r, nat_beq_iff h d);
      unlinked = λ r d k e. ground (arith, v.unlinked r d k, cut r);
      unlinked_taken = λ r k d l e.
          ground (arith, v.unlinked_taken r k d l, v.unlinked request d l, nat_beq_iff h k);
      linked_to = λ d k e. ground (arith, v.linked_to d k, nat_beq_iff h k);
      link_of = λ k d e. ground (arith, v.link_of k d, nat_beq_iff h k);
      linked_of = λ k d e. ground (arith, v.linked_of k d, nat_beq_iff h k);
      hosted = λ k d e. ground (arith, v.hosted k d, nat_beq_iff h k);
    }

pub names_conn-IsOrderly :
    (s : State) (request : Text) (h c : Conn)
    → s.at h ≡ taking request c
    → lookup c s.room.clients_to_host ≢ none
    → IsOrderly s
    → IsOrderly (
        move s h
          (linking c)
          (record s.room { clients_to_host = insert c (some h) s.room.clients_to_host }))
names_conn-IsOrderly s request h c taken there v =
    let put = λ (d : Conn). lookup-insert {V = Ptr} c d (some h) s.room.clients_to_host in
    record {
      requested_by = λ r d e. ground (arith, v.requested_by r d, nat_beq_iff h d);
      taken_by = λ k d r e. ground (arith, v.taken_by k d r, nat_beq_iff h k, nat_beq_iff h d);
      untaken = λ r q k d e f. ground (
        arith,
        v.untaken r q k d,
        v.requested_by r d,
        nat_beq_iff h k,
        nat_beq_iff h d,
        v.taken_by k d q,
      );
      one_taker =
          λ k l d r q e f. ground (arith, v.one_taker k l d r q, nat_beq_iff h k, nat_beq_iff h l);
      fresh =
          λ d e. ground (arith, v.fresh d, v.taken_by h c request taken, nat_beq_iff h d, put d);
      not_entered = λ d r e.
          ground (arith, v.not_entered d r, v.taken_by h c request taken, nat_beq_iff h d, put d);
      entered = λ d r e. ground (arith, v.entered d r, nat_beq_iff h d, put d);
      unlinked = λ r d k e. ground (arith, v.unlinked r d k, v.untaken r request h c, put d);
      unlinked_taken = λ r k d l e.
          ground
            (arith, v.unlinked_taken r k d l, v.one_taker h k c request r, nat_beq_iff h k, put d);
      linked_to = λ d k e. ground (arith, v.linked_to d k, nat_beq_iff h k, put d);
      link_of = λ k d e.
          ground (arith, v.link_of k d, v.unlinked_taken request h c k, nat_beq_iff h k, put d);
      linked_of = λ k d e.
          ground (arith, v.linked_of k d, v.unlinked_taken request h c k, nat_beq_iff h k, put d);
      hosted = λ k d e. ground (arith, v.hosted k d, nat_beq_iff h k);
    }

pub names_client-IsOrderly :
    (s : State) (h c : Conn)
    → s.at h ≡ linking c
    → IsOrderly s
    → IsOrderly (
        move s h (linked c) (record s.room { host_to_clients = insert h c s.room.host_to_clients }))
names_client-IsOrderly s h c halfway v =
    let put = λ (k : Conn). lookup-insert h k c s.room.host_to_clients in
    record {
      requested_by = λ r d e. ground (arith, v.requested_by r d, nat_beq_iff h d);
      taken_by = λ k d r e. ground (arith, v.taken_by k d r, nat_beq_iff h k, nat_beq_iff h d);
      untaken = λ r q k d e f. ground (
        arith,
        v.untaken r q k d,
        v.requested_by r d,
        nat_beq_iff h k,
        nat_beq_iff h d,
        v.taken_by k d q,
      );
      one_taker =
          λ k l d r q e f. ground (arith, v.one_taker k l d r q, nat_beq_iff h k, nat_beq_iff h l);
      fresh = λ d e. ground (arith, v.fresh d, nat_beq_iff h d);
      not_entered = λ d r e. ground (arith, v.not_entered d r, nat_beq_iff h d);
      entered = λ d r e. ground (arith, v.entered d r, nat_beq_iff h d);
      unlinked = λ r d k e. ground (arith, v.unlinked r d k);
      unlinked_taken = λ r k d l e. ground (arith, v.unlinked_taken r k d l, nat_beq_iff h k);
      linked_to = λ d k e. ground (arith, v.linked_to d k, nat_beq_iff h k);
      link_of = λ k d e. ground (arith, v.link_of k d, nat_beq_iff h k);
      linked_of =
          λ k d e. ground (arith, v.linked_of k d, v.link_of h c halfway, nat_beq_iff h k, put k);
      hosted = λ k d e. ground (arith, v.hosted k d, nat_beq_iff h k, put k);
    }

-- A host connection that is refused was idle, or had taken a request.
pub refused-IsOrderly :
    (s : State) (h : Conn)
    → (s.at h ≡ idle) ⊎ ((request : Text) × (c : Conn) × (s.at h ≡ taking request c))
    → IsOrderly s
    → IsOrderly (move s h refused s.room)
refused-IsOrderly s h was v = record {
  requested_by = λ r d e. ground (arith, v.requested_by r d, nat_beq_iff h d);
  taken_by = λ k d r e. ground (arith, v.taken_by k d r, nat_beq_iff h k, nat_beq_iff h d);
  untaken = λ r q k d e f. ground (
    arith,
    v.untaken r q k d,
    v.requested_by r d,
    nat_beq_iff h k,
    nat_beq_iff h d,
    v.taken_by k d q,
  );
  one_taker =
      λ k l d r q e f. ground (arith, v.one_taker k l d r q, nat_beq_iff h k, nat_beq_iff h l);
  fresh = λ d e. ground (arith, v.fresh d, nat_beq_iff h d);
  not_entered = λ d r e. ground (arith, v.not_entered d r, nat_beq_iff h d);
  entered = λ d r e. ground (arith, v.entered d r, nat_beq_iff h d);
  unlinked = λ r d k e. ground (arith, v.unlinked r d k);
  unlinked_taken = λ r k d l e. ground (arith, v.unlinked_taken r k d l, nat_beq_iff h k);
  linked_to = λ d k e. ground (arith, v.linked_to d k, nat_beq_iff h k);
  link_of = λ k d e. ground (arith, v.link_of k d, nat_beq_iff h k);
  linked_of = λ k d e. ground (arith, v.linked_of k d, nat_beq_iff h k);
  hosted = λ k d e. ground (arith, v.hosted k d, nat_beq_iff h k);
}
