-- ===== src/Types.antt =====
-- The state of the relay: src/core/Types.go, the close reasons and the connections.
use stealthpipe_relay.Prelude.{
  ℕ, ◌/◌, ◌+◌, ◌-◌, ◌*◌, ◌^◌, ◌%◌, Bool, true, false, Option, none, some, List, [], ◌∷◌, Text,
  codes, if◌then◌else◌, nat_beq,
}
use stealthpipe_relay.Dict.{Dict}
pub mod Reasons
use Reasons.{CloseReason}

-- The identity of a `*websocket.Conn` that is not nil, and a pointer that may be nil.
abbrev pub Conn : Type 0
Conn = ℕ

abbrev pub Ptr : Type 0
Ptr = Option Conn

-- The address of a `Room`.
abbrev pub RoomRef : Type 0
RoomRef = ℕ

-- Instants are nanoseconds of one clock, as `time.Time` counts them.
abbrev pub unix_milli : ℕ → ℕ
unix_milli now = now / 1000000

abbrev pub unix : ℕ → ℕ
unix now = now / 1000000000

abbrev pub second : ℕ
second = 1000000000

-- 64-bit counters: addition wraps, and a signed one keeps its two's complement pattern.
abbrev pub word64 : ℕ
word64 = 2 ^ 64

abbrev pub add64 : ℕ → ℕ → ℕ
add64 a b = (a + b) % word64

abbrev pub dec64 : ℕ → ℕ
dec64 a = (a + (word64 - 1)) % word64

pub record Room : Type 0 where
  pub host : Ptr
  pub host_mu : Bool
  pub host_ip : Text
  pub last_room_filled_time : ℕ
  pub clients_to_host : Dict Conn Ptr
  pub host_to_clients : Dict Conn Conn
  pub requested_connections : Dict Text Conn
  pub created_time : ℕ
  pub has_host : Bool
  pub webrtc_handshake_connections : Dict ℕ Conn

pub record RecentlyDeletedRoom : Type 0 where
  pub time_deleted : ℕ
  pub deletion_reason : CloseReason

pub record ServerConfig : Type 0 where
  pub relay_version : Text
  pub packet_throttling_outbound_host : ℕ
  pub packet_throttling_burst_outbound : ℕ
  pub packet_throttling_inbound_host : ℕ
  pub packet_throttling_burst_inbound : ℕ
  pub signaling_maximum_packet_size : ℕ
  pub packet_maximum_size : ℕ
  pub difficulty6_threshold : ℕ
  pub difficulty7_threshold : ℕ
  pub difficulty_cooldown : ℕ
  pub room_empty_cleanup_delay : ℕ
  pub room_idle_no_client_delay : ℕ
  pub room_deletion_reason_storage_time_seconds : ℕ
  pub terminate_when_unhealthy : Bool
  pub read_deadline_seconds_signaling : ℕ
  pub reuse_token_expiry_hours : ℕ
  pub pow_token_expiry_minutes : ℕ
  pub signal_max_pps : ℕ
  pub signal_burst_pps : ℕ

abbrev pub new_server_config : ServerConfig
new_server_config = record {
  relay_version = codes "4.1.0";
  packet_throttling_outbound_host = 1500000;
  packet_throttling_burst_outbound = 12000000;
  packet_throttling_inbound_host = 300000;
  packet_throttling_burst_inbound = 4000000;
  packet_maximum_size = 2200000;
  signaling_maximum_packet_size = 50000;
  difficulty6_threshold = 20;
  difficulty7_threshold = 100;
  difficulty_cooldown = 30000;
  room_empty_cleanup_delay = 60000;
  room_idle_no_client_delay = 60000 * 15;
  room_deletion_reason_storage_time_seconds = 30;
  terminate_when_unhealthy = true;
  read_deadline_seconds_signaling = 30;
  reuse_token_expiry_hours = 3;
  pow_token_expiry_minutes = 5;
  signal_max_pps = 20;
  signal_burst_pps = 50;
}

-- `rooms` maps a code to an address and `heap` an address to its room, since a handler keeps the
-- pointer to a room that may have left the map.
pub record Server : Type 0 where
  pub rooms : Dict Text RoomRef
  pub heap : RoomRef → Room
  pub next_ref : RoomRef
  pub packet_counter : ℕ
  pub packets_per_second : ℕ
  pub number_of_clients_connected : ℕ
  pub handshake_counter : ℕ
  pub current_difficulty : ℕ
  pub last_upped : ℕ
  pub used_salts : Dict Text ℕ
  pub is_healthy : Bool
  pub config : ServerConfig
  pub recently_deleted_rooms : Dict Text RecentlyDeletedRoom

abbrev pub null_room : Room
null_room = record {
  host = none;
  host_mu = false;
  host_ip = [];
  last_room_filled_time = 0;
  clients_to_host = [];
  host_to_clients = [];
  requested_connections = [];
  created_time = 0;
  has_host = false;
  webrtc_handshake_connections = [];
}

abbrev pub new_server : Server
new_server = record {
  rooms = [];
  heap = λ ref. null_room;
  next_ref = 0;
  packet_counter = 0;
  packets_per_second = 0;
  number_of_clients_connected = 0;
  handshake_counter = 0;
  current_difficulty = 5;
  last_upped = 0;
  used_salts = [];
  is_healthy = false;
  config = new_server_config;
  recently_deleted_rooms = [];
}

abbrev pub new_recently_deleted_room : ℕ → CloseReason → RecentlyDeletedRoom
new_recently_deleted_room time reason = record { time_deleted = time; deletion_reason = reason }

-- A write through a pointer to a room.
abbrev pub set_room : Server → RoomRef → Room → Server
set_room app ref room = record app { heap = λ r. if nat_beq ref r then room else app.heap r }

-- What the relay does to the outside: a binary message, or a close frame and the closing.
pub data Effect : Type 0 where
  write : Conn → Text → Effect
  close : Conn → CloseReason → Effect
