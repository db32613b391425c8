-- ===== src/Lifecycle/Orderly/Clients.antt =====
-- The sections of clients: a request, an entry, and the end of a wait.
use stealthpipe_relay.Prelude.{none, Text, nat_key, text_key, nat_beq_iff, text_beq_iff, ◌≡◌, arith}
use stealthpipe_relay.Dict.{insert, delete}
use stealthpipe_relay.Dict.Laws.{lookup-insert, lookup-delete}
use stealthpipe_relay.Types.{Conn, Ptr}
use stealthpipe_relay.Lifecycle.Sections.{idle, asking, waiting, State, move}
use stealthpipe_relay.Lifecycle.Orderly.{IsOrderly}

pub asks-IsOrderly :
    (s : State) (request : Text) (c : Conn)
    → s.at c ≡ idle
    → IsOrderly s
    → IsOrderly (
        move s c
          (asking request)
          (record s.room { requested_connections = insert request c s.room.requested_connections }))
asks-IsOrderly s request c free v =
    let put = λ (r : Text). lookup-insert request r c s.room.requested_connections in
    record {
      requested_by = λ r d e.
          ground (arith, v.requested_by r d, put r, nat_beq_iff c d, text_beq_iff request r);
      taken_by = λ k d r e. ground (arith, v.taken_by k d r, nat_beq_iff c k, nat_beq_iff c d);
      untaken = λ r q k d e f. ground (
        arith,
        v.untaken r q k d,
        put r,
        v.requested_by r d,
        nat_beq_iff c k,
        nat_beq_iff c d,
        v.taken_by k d q,
      );
      one_taker =
          λ k l d r q e f. ground (arith, v.one_taker k l d r q, nat_beq_iff c k, nat_beq_iff c l);
      fresh = λ d e. ground (arith, v.fresh d, nat_beq_iff c d);
      not_entered = λ d r e. ground (arith, v.not_entered d r, v.fresh c free, nat_beq_iff c d);
      entered = λ d r e. ground (arith, v.entered d r, nat_beq_iff c d);
      unlinked = λ r d k e.
          ground (arith, v.unlinked r d k, v.fresh c free, text_beq_iff request r, put r);
      unlinked_taken = λ r k d l e. ground (arith, v.unlinked_taken r k d l, nat_beq_iff c k);
      linked_to = λ d k e. ground (arith, v.linked_to d k, nat_beq_iff c k);
      link_of = λ k d e. ground (arith, v.link_of k d, nat_beq_iff c k);
      linked_of = λ k d e. ground (arith, v.linked_of k d, nat_beq_iff c k);
      hosted = λ k d e. ground (arith, v.hosted k d, nat_beq_iff c k);
    }

pub enters-IsOrderly :
    (s : State) (request : Text) (c : Conn)
    → s.at c ≡ asking request
    → IsOrderly s
    → IsOrderly (
        move s c
          (waiting request)
          (record s.room { clients_to_host = insert c none s.room.clients_to_host }))
enters-IsOrderly s request c asked v =
    let put = λ (d : Conn). lookup-insert {V = Ptr} c d none s.room.clients_to_host in
    record {
      requested_by = λ r d e. ground (arith, v.requested_by r d, nat_beq_iff c d);
      taken_by = λ k d r e. ground (arith, v.taken_by k d r, nat_beq_iff c k, nat_beq_iff c d);
      untaken = λ r q k d e f. ground (
        arith,
        v.untaken r q k d,
        v.requested_by r d,
        nat_beq_iff c k,
        nat_beq_iff c d,
        v.taken_by k d q,
      );
      one_taker =
          λ k l d r q e f. ground (arith, v.one_taker k l d r q, nat_beq_iff c k, nat_beq_iff c l);
      fresh =
          λ d e. ground (arith, v.fresh d, v.not_entered c request asked, nat_beq_iff c d, put d);
      not_entered = λ d r e. ground (arith, v.not_entered d r, nat_beq_iff c d, put d);
      entered = λ d r e. ground (arith, v.entered d r, nat_beq_iff c d, put d);
      unlinked = λ r d k e. ground (arith, v.unlinked r d k, put d);
      unlinked_taken =
          λ r k d l e. ground (arith, v.unlinked_taken r k d l, nat_beq_iff c k, put d);
      linked_to = λ d k e. ground (arith, v.linked_to d k, nat_beq_iff c k, put d);
      link_of = λ k d e.
          ground (arith, v.link_of k d, v.not_entered c request asked, nat_beq_iff c k, put d);
      linked_of = λ k d e.
          ground (arith, v.linked_of k d, v.not_entered c request asked, nat_beq_iff c k, put d);
      hosted = λ k d e. ground (arith, v.hosted k d, nat_beq_iff c k);
    }

pub gives_up-IsOrderly :
    (s : State) (request : Text)
    → IsOrderly s
    → IsOrderly (record {
      room = record s.room { requested_connections = delete request s.room.requested_connections };
      at = s.at;
    })
gives_up-IsOrderly s request v =
    let cut = λ (r : Text). lookup-delete request r s.room.requested_connections in
    record {
      requested_by = λ r d e. v.requested_by r d (ground (arith, cut r));
      taken_by = v.taken_by;
      untaken = λ r q k d e. v.untaken r q k d (ground (arith, cut r));
      one_taker = v.one_taker;
      fresh = v.fresh;
      not_entered = v.not_entered;
      entered = v.entered;
      unlinked = λ r d k e. v.unlinked r d k (ground (arith, cut r));
      unlinked_taken = v.unlinked_taken;
      linked_to = v.linked_to;
      link_of = v.link_of;
      linked_of = v.linked_of;
      hosted = v.hosted;
    }
