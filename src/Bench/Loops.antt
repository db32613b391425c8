-- ===== src/Bench/Loops.antt =====
-- benchmark/src/core/HostConnect.go, HostToRelayConnect.go, ClientToRelayConnect.go and the ticker of
-- benchmark/src/Main.go: the loops that read and write the connections of the load generator.
use stealthpipe_relay.Prelude.{
  Bool, true, false, Option, none, some, List, [], ◌∷◌, Text, codes, replicate, if◌then◌else◌,
}
use stealthpipe_relay.Types.{Conn, RoomRef, add64}
use stealthpipe_relay.ProofOfWork.{has_prefix}
use stealthpipe_relay.Join.{Values}
use stealthpipe_relay.Bench.Rooms.{
  Room, Benchmarker, put_room, get_room_exists, create_host_to_relay_connection,
  handle_room_cleanup,
}
use stealthpipe_relay.Bench.Dialing.{Dial, get_url_scheme_join}

abbrev pub count_recv : Benchmarker → Benchmarker
count_recv b = record b { packets_counter_recv = add64 b.packets_counter_recv 1 }

abbrev pub count_sent : Benchmarker → Benchmarker
count_sent b = record b { packets_counter_sent = add64 b.packets_counter_sent 1 }

-- What a read of the signal connection gives: an error, or a message, with what a dialing for it would
-- answer.
pub data Incoming : Type 0 where
  failed : Incoming
  message : Text → Dial → Incoming

-- The query that `CreateHostToRelayConnection` dials, if the room is known.
unfoldable pub answer_query : Benchmarker → Text → Text → Option Values
answer_query b game_id request_id = elim (get_room_exists b game_id) [
  | none ↦ none
  | some ref ↦ some (get_url_scheme_join true game_id request_id (codes "4.0.0"))
]

abbrev pub push_query : Option Values → List Values → List Values
push_query none queries = queries
push_query (some q) queries = q ∷ queries

-- How far a loop has come: the state, the queries dialed, and whether a read has failed.
pub record Reading : Type 0 where
  pub bench : Benchmarker
  pub queries : List Values
  pub over : Bool

abbrev pub is_request : Text → Bool
is_request m = has_prefix m (codes "REQUESTCONNECTION")

-- The loop of `HostReadLoop`.
unfoldable pub host_reads : Benchmarker → Text → List Incoming → Reading
host_reads b game_id [] = record { bench = b; queries = []; over = false }
host_reads b game_id (failed ∷ incoming) = record {
  bench = count_recv b;
  queries = [];
  over = true;
}
host_reads b game_id (message m d ∷ incoming) =
    let b' = count_recv b in
    let next =
      if is_request m
      then create_host_to_relay_connection b' game_id d.meanwhile d.dialed
      else b' in
    let rest = host_reads next game_id incoming in
    record rest {
      queries =
          if is_request m
          then push_query (answer_query b' game_id m) rest.queries
          else rest.queries;
    }

-- How `HostReadLoop` ends: it still reads, or its deferred cleanup has run, where `none` is its panic.
pub data HostEnd : Type 0 where
  reading : Benchmarker → HostEnd
  cleaned : Option (Benchmarker × List Conn) → HostEnd

abbrev pub host_end : Reading → Text → HostEnd
host_end r game_id =
    if r.over then cleaned (handle_room_cleanup r.bench game_id) else reading r.bench

unfoldable pub host_read_loop : Benchmarker → Text → List Incoming → HostEnd
unfolding host_reads
host_read_loop b game_id incoming = host_end (host_reads b game_id incoming) game_id

-- The read loops of a game connection: each entry says whether a read succeeds, and `count` adds one to
-- the counter of the room.
unfoldable pub read_loop : (Room → Room) → Benchmarker → RoomRef → List Bool → Benchmarker × Bool
read_loop count b ref [] = (b, false)
read_loop count b ref (false ∷ reads) = (count_recv b, true)
read_loop count b ref (true ∷ reads) =
    let b' = count_recv b in read_loop count (put_room b' ref (count (b'.heap ref))) ref reads

-- `HandleHostToRelayConnectionReadLoop` and `HandleClientToRelayConnectionReadLoop`
abbrev pub count_from_client : Room → Room
count_from_client room = record room {
  packets_per_second_clients_to_host = add64 room.packets_per_second_clients_to_host 1;
}

abbrev pub count_from_host : Room → Room
count_from_host room = record room {
  packets_per_second_host_to_clients = add64 room.packets_per_second_host_to_clients 1;
}

unfoldable pub host_connection_read_loop : Benchmarker → RoomRef → List Bool → Benchmarker × Bool
unfolding read_loop
host_connection_read_loop = read_loop count_from_client

unfoldable pub client_connection_read_loop : Benchmarker → RoomRef → List Bool → Benchmarker × Bool
unfolding read_loop
client_connection_read_loop = read_loop count_from_host

-- A write loop: each entry says whether a write succeeds; the messages are those that were written.
unfoldable pub write_loop : Text → Benchmarker → List Bool → Benchmarker × List Text × Bool
write_loop m b [] = (b, [], false)
write_loop m b (false ∷ writes) = (count_sent b, [], true)
write_loop m b (true ∷ writes) =
    let (b', sent, over) = write_loop m (count_sent b) writes in (b', m ∷ sent, over)

-- `HostWriteLoop`, `HandleHostToRelayConnectionWriteLoop` and `HandleClientToRelayConnectionWriteLoop`
unfoldable pub host_write_loop : Benchmarker → List Bool → Benchmarker × List Text × Bool
unfolding write_loop
host_write_loop = write_loop (0x01 ∷ [])

unfoldable pub host_connection_write_loop : Benchmarker → List Bool → Benchmarker × List Text × Bool
unfolding write_loop
host_connection_write_loop b = write_loop (replicate b.host_to_clients_bytes_per_message b'A') b

unfoldable pub client_connection_write_loop :
    Benchmarker → List Bool → Benchmarker × List Text × Bool
unfolding write_loop
client_connection_write_loop b = write_loop (replicate b.client_to_host_bytes_per_message b'A') b

-- A tick of `StatsTicker`; the gauges and the ratio that it logs are not modelled.
unfoldable pub stats_tick : Benchmarker → Benchmarker
stats_tick b = record b {
  pps_recv = b.packets_counter_recv;
  pps_sent = b.packets_counter_sent;
  packets_counter_recv = 0;
  packets_counter_sent = 0;
}
