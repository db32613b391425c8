-- ===== src/Types/Reasons.antt =====
-- src/core/WebsocketConnectionCloseReasons.go: the close reasons, and the texts on the wire.
use stealthpipe_relay.Prelude.{Text, codes}

pub data CloseReason : Type 0 where
  host_disconnected connection_high_bandwidth connection_high_usage socket_read_failed : CloseReason
  socket_write_failed connection_idle room_not_found room_no_host room_bad_state : CloseReason
  internal_error invalid_request_id pair_link_failed invalid_action : CloseReason
  reuse_token_presented unknown client_disconnected signal_disconnected unspecified : CloseReason
  packet_too_large bad_request invalid_version outdated_client unsupported_client : CloseReason
  room_recently_closed : CloseReason

pub reason_text : CloseReason → Text
reason_text CloseReason.host_disconnected = codes "HOST_DISCONNECTED"
reason_text CloseReason.connection_high_bandwidth = codes "HIGH_BANDWIDTH"
reason_text CloseReason.connection_high_usage = codes "HIGH_USAGE"
reason_text CloseReason.socket_read_failed = codes "WSS_READ_FAILED"
reason_text CloseReason.socket_write_failed = codes "WSS_WRITE_FAILED"
reason_text CloseReason.connection_idle = codes "WSS_IDLE"
reason_text CloseReason.room_not_found = codes "ROOM_NOT_FOUND"
reason_text CloseReason.room_no_host = codes "ROOM_NO_HOST"
reason_text CloseReason.room_bad_state = codes "ROOM_BAD_STATE"
reason_text CloseReason.internal_error = codes "INTERNAL_ERROR"
reason_text CloseReason.invalid_request_id = codes "INVALID_REQUEST_ID"
reason_text CloseReason.pair_link_failed = codes "PAIR_LINK_FAILED"
reason_text CloseReason.invalid_action = codes "INVALID_ACTION"
reason_text CloseReason.reuse_token_presented = codes "REUSE_TOKEN_PRESENTED"
reason_text CloseReason.unknown = codes "UNKNOWN"
reason_text CloseReason.client_disconnected = codes "CLIENT_DISCONNECTED"
reason_text CloseReason.unspecified = codes "UNSPECIFIED"
reason_text CloseReason.packet_too_large = codes "PACKET_TOO_LARGE"
reason_text CloseReason.signal_disconnected = codes "SIGNAL_DISCONNECTED"
reason_text CloseReason.bad_request = codes "BAD_REQUEST"
reason_text CloseReason.invalid_version = codes "INVALID_VERSION"
reason_text CloseReason.outdated_client = codes "OUTDATED_CLIENT"
reason_text CloseReason.unsupported_client = codes "UNSUPPORTED_CLIENT"
reason_text CloseReason.room_recently_closed = codes "ROOM_RECENTLY_CLOSED"
