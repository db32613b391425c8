-- ===== src/Locks/Sections.antt =====
-- What each critical section does, in the order of its statements.
use stealthpipe_relay.Prelude.{List, [], ◌∷◌, ◌++◌}
use stealthpipe_relay.Types.{RoomRef}
use stealthpipe_relay.Locks.{
  Lock, rooms_mu, recently_deleted_mu, used_salts_mu, requested_mu, clients_mu, hosts_mu, host_mu,
  Mode, exclusive, shared, rooms, recently_deleted, used_salts, requested_connections,
  clients_to_host, host_to_clients, handshake_connections, room_host, Action, does, acquire,
  release, reads, writes, send, respond, sleep, Section,
}

abbrev under : Mode → Lock → List Action → List Action
under mode l body = acquire mode l ∷ (body ++ release l ∷ [])

-- `len(room.ClientsToHostConnections)` and `room.Host` for each room that the scan comes to.
abbrev pub reads_clients : List RoomRef → List Action
reads_clients [] = []
reads_clients (ref ∷ refs) =
    does (reads (clients_to_host ref)) ∷ does (reads (room_host ref)) ∷ reads_clients refs

-- `room.HasHost` for each room that the scan comes to.
abbrev pub reads_hosts : List RoomRef → List Action
reads_hosts [] = []
reads_hosts (ref ∷ refs) = does (reads (room_host ref)) ∷ reads_hosts refs

-- The second look at each room that is stale, and its deletion.
abbrev pub prunes : List RoomRef → List Action
prunes [] = []
prunes (ref ∷ refs) =
    does (reads rooms) ∷ does (reads (room_host ref)) ∷ does (writes rooms) ∷ prunes refs

-- Where a branch leaves early, the section lists the longer path. `HandleCreatePath` reads the host of an evicted room
-- once more after it has let go of `RoomsMu`; that read is left out, since a host that is set is not
-- written again.

abbrev pub get_room_exists_actions : List Action
get_room_exists_actions = under shared rooms_mu (does (reads rooms) ∷ [])

abbrev pub cleanup_gone_actions : List Action
cleanup_gone_actions = under exclusive rooms_mu (does (reads rooms) ∷ [])

abbrev pub cleanup_host_actions : RoomRef → List Action
cleanup_host_actions ref =
    under exclusive rooms_mu (
      does (reads rooms)
      ∷ does (reads (room_host ref))
      ∷ does (reads (clients_to_host ref))
      ∷ does (writes rooms)
      ∷ under exclusive recently_deleted_mu (does (writes recently_deleted) ∷ []))
    ++ does send ∷ []

abbrev pub cleanup_other_actions : RoomRef → List Action
cleanup_other_actions ref =
    under exclusive rooms_mu (
      does (reads rooms)
      ∷ does (reads (room_host ref))
      ∷ (under shared (clients_mu ref) (does (reads (clients_to_host ref)) ∷ [])
          ++ under shared (hosts_mu ref) (does (reads (host_to_clients ref)) ∷ [])))
    ++ does send ∷ []

abbrev pub check_room_actions : List Action
check_room_actions = under shared rooms_mu (does (reads rooms) ∷ [])

abbrev pub check_recently_deleted_actions : List Action
check_recently_deleted_actions =
    under shared recently_deleted_mu (does (reads recently_deleted) ∷ []) ++ does send ∷ []

abbrev pub take_request_actions : RoomRef → List Action
take_request_actions ref =
    under exclusive (requested_mu ref)
      (does (reads (requested_connections ref)) ∷ does (writes (requested_connections ref)) ∷ [])

abbrev pub link_client_actions : RoomRef → List Action
link_client_actions ref =
    under exclusive (clients_mu ref)
      (does (reads (clients_to_host ref)) ∷ does (writes (clients_to_host ref)) ∷ [])

abbrev pub link_host_actions : RoomRef → List Action
link_host_actions ref = under exclusive (hosts_mu ref) (does (writes (host_to_clients ref)) ∷ [])

abbrev pub join_host_actions : RoomRef → List Action
join_host_actions ref =
    under exclusive rooms_mu
      (does (reads rooms) ∷ does (reads (room_host ref)) ∷ does (writes (room_host ref)) ∷ [])

abbrev pub open_client_actions : RoomRef → List Action
open_client_actions ref = does (reads (room_host ref)) ∷ []

abbrev pub open_signal_actions : RoomRef → List Action
open_signal_actions ref = does (reads (room_host ref)) ∷ []

abbrev pub poll_host_actions : RoomRef → List Action
poll_host_actions ref = does (reads (room_host ref)) ∷ []

abbrev pub register_request_actions : RoomRef → List Action
register_request_actions ref =
    under exclusive (requested_mu ref) (does (writes (requested_connections ref)) ∷ [])

abbrev pub register_client_actions : RoomRef → List Action
register_client_actions ref =
    under exclusive (clients_mu ref) (does (writes (clients_to_host ref)) ∷ [])

abbrev pub request_host_actions : RoomRef → List Action
request_host_actions ref = under exclusive (host_mu ref) (does send ∷ [])

abbrev pub poll_client_actions : RoomRef → List Action
poll_client_actions ref = under shared (clients_mu ref) (does (reads (clients_to_host ref)) ∷ [])

abbrev pub look_for_request_actions : RoomRef → List Action
look_for_request_actions ref =
    under shared (requested_mu ref) (does (reads (requested_connections ref)) ∷ [])

abbrev pub drop_request_actions : RoomRef → List Action
drop_request_actions ref =
    under exclusive (requested_mu ref) (does (writes (requested_connections ref)) ∷ [])

abbrev pub find_client_actions : RoomRef → List Action
find_client_actions ref = under shared (clients_mu ref) (does (reads (host_to_clients ref)) ∷ [])

abbrev pub answer_ping_actions : RoomRef → List Action
answer_ping_actions ref = under exclusive (host_mu ref) (does send ∷ [])

abbrev pub forward_to_host_actions : RoomRef → List Action
forward_to_host_actions ref =
    under exclusive (host_mu ref) (does (reads (room_host ref)) ∷ does send ∷ [])

-- Where the host is nil, the write panics, and nothing releases the mutex.
abbrev pub forward_to_nil_actions : RoomRef → List Action
forward_to_nil_actions ref = acquire exclusive (host_mu ref) ∷ does (reads (room_host ref)) ∷ []

abbrev pub assign_client_actions : RoomRef → List Action
assign_client_actions ref = does (writes (handshake_connections ref)) ∷ []

abbrev pub forward_to_client_actions : RoomRef → List Action
forward_to_client_actions ref = does (reads (handshake_connections ref)) ∷ does send ∷ []

abbrev pub scan_rooms_actions : List RoomRef → List Action
scan_rooms_actions refs = under shared rooms_mu (does (reads rooms) ∷ reads_hosts refs)

abbrev pub scan_idle_rooms_actions : List RoomRef → List Action
scan_idle_rooms_actions refs = under shared rooms_mu (does (reads rooms) ∷ reads_clients refs)

abbrev pub prune_rooms_actions : List RoomRef → List Action
prune_rooms_actions refs = under exclusive rooms_mu (prunes refs)

abbrev pub delete_rooms_actions : List Action
delete_rooms_actions = under exclusive rooms_mu (does (writes rooms) ∷ [])

abbrev pub scan_reasons_actions : List Action
scan_reasons_actions = under shared recently_deleted_mu (does (reads recently_deleted) ∷ [])

abbrev pub delete_reasons_actions : List Action
delete_reasons_actions = under exclusive recently_deleted_mu (does (writes recently_deleted) ∷ [])

abbrev pub create_fresh_actions : List Action
create_fresh_actions =
    under exclusive rooms_mu (does (reads rooms) ∷ does (writes rooms) ∷ does respond ∷ [])

abbrev pub create_reused_actions : RoomRef → List Action
create_reused_actions ref = under exclusive rooms_mu (
    does (reads rooms)
    ∷ does (reads (room_host ref))
    ∷ does (writes rooms)
    ∷ does sleep
    ∷ does (writes rooms)
    ∷ does respond
    ∷ [])

abbrev pub create_evicting_actions : RoomRef → List Action
create_evicting_actions ref =
    under exclusive rooms_mu (does (reads rooms) ∷ does (reads (room_host ref)) ∷ [])
    ++ does send
      ∷ does sleep
      ∷ under exclusive rooms_mu
          (does (writes rooms) ∷ does sleep ∷ does (writes rooms) ∷ does respond ∷ [])

abbrev pub create_refused_actions : List Action
create_refused_actions = under exclusive rooms_mu (does (reads rooms) ∷ does respond ∷ [])

abbrev pub is_replay_actions : List Action
is_replay_actions =
    under exclusive used_salts_mu (does (reads used_salts) ∷ does (writes used_salts) ∷ [])

abbrev pub clean_used_salts_actions : List Action
clean_used_salts_actions =
    under exclusive used_salts_mu (does (reads used_salts) ∷ does (writes used_salts) ∷ [])

abbrev pub watch_rooms_actions : List Action
watch_rooms_actions = under shared rooms_mu (does (reads rooms) ∷ [])

unfoldable pub actions : Section → List Action
actions Section.get_room_exists = get_room_exists_actions
actions Section.cleanup_gone = cleanup_gone_actions
actions (Section.cleanup_host ref) = cleanup_host_actions ref
actions (Section.cleanup_other ref) = cleanup_other_actions ref
actions Section.check_room = check_room_actions
actions Section.check_recently_deleted = check_recently_deleted_actions
actions (Section.take_request ref) = take_request_actions ref
actions (Section.link_client ref) = link_client_actions ref
actions (Section.link_host ref) = link_host_actions ref
actions (Section.join_host ref) = join_host_actions ref
actions (Section.open_client ref) = open_client_actions ref
actions (Section.open_signal ref) = open_signal_actions ref
actions (Section.poll_host ref) = poll_host_actions ref
actions (Section.register_request ref) = register_request_actions ref
actions (Section.register_client ref) = register_client_actions ref
actions (Section.request_host ref) = request_host_actions ref
actions (Section.poll_client ref) = poll_client_actions ref
actions (Section.look_for_request ref) = look_for_request_actions ref
actions (Section.drop_request ref) = drop_request_actions ref
actions (Section.find_client ref) = find_client_actions ref
actions (Section.answer_ping ref) = answer_ping_actions ref
actions (Section.forward_to_host ref) = forward_to_host_actions ref
actions (Section.forward_to_nil ref) = forward_to_nil_actions ref
actions (Section.assign_client ref) = assign_client_actions ref
actions (Section.forward_to_client ref) = forward_to_client_actions ref
actions (Section.scan_rooms refs) = scan_rooms_actions refs
actions (Section.scan_idle_rooms refs) = scan_idle_rooms_actions refs
actions (Section.prune_rooms refs) = prune_rooms_actions refs
actions Section.delete_rooms = delete_rooms_actions
actions Section.scan_reasons = scan_reasons_actions
actions Section.delete_reasons = delete_reasons_actions
actions Section.create_fresh = create_fresh_actions
actions (Section.create_reused ref) = create_reused_actions ref
actions (Section.create_evicting ref) = create_evicting_actions ref
actions Section.create_refused = create_refused_actions
actions Section.is_replay = is_replay_actions
actions Section.clean_used_salts = clean_used_salts_actions
actions Section.watch_rooms = watch_rooms_actions

-- A goroutine goes through sections, one after another.
abbrev pub program : List Section → List Action
program [] = []
program (s ∷ ss) = actions s ++ program ss
