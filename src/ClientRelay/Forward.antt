-- ===== src/ClientRelay/Forward.antt =====
-- The forwarding loop from a client to its host connection. A message counts as sent when its writer
-- is closed; what an unfinished message leaves on the wire is not an effect, and the error that the
-- closing may return is ignored, as the code ignores it.
use stealthpipe_relay.Prelude.{
  ℕ, ◌+◌, Bool, true, false, Option, none, some, List, [], ◌∷◌, Text, take, length, ltb,
  if◌then◌else◌,
}
use stealthpipe_relay.Types.{Conn, Server, Effect, write, add64}
use stealthpipe_relay.Types.Reasons.{CloseReason}

-- The error that `io.CopyBuffer` returns beside the number of bytes.
pub data CopyError : Type 0 where
  no_error eof unexpected_eof other_error : CopyError

-- What one call of `NextReader` leads to: an error, a message that is not binary, or a binary
-- message, with what the writer, the copy and the limiter answer.
pub data Frame : Type 0 where
  read_error : Frame
  not_binary : Frame
  binary : (message : Text) (writer_ok : Bool) (copy : CopyError) (limiter_ok : Bool) → Frame

-- `err != nil && err != io.EOF`
unfoldable pub copy_failed : CopyError → Bool
copy_failed CopyError.no_error = false
copy_failed CopyError.eof = false
copy_failed CopyError.unexpected_eof = true
copy_failed CopyError.other_error = true

-- A round of the loop: it skips the message, forwards it, or ends with a reason.
pub data Round : Type 0 where
  skip : Round
  forward : Text → Round
  stop : CloseReason → Round

-- The reader is limited to one byte more than the maximum, and its bytes go to the writer.
unfoldable pub client_binary : ℕ → Text → CopyError → Bool → Round
unfolding copy_failed
client_binary maximum message copy limiter_ok =
    let copied = take (maximum + 1) message in
    if copy_failed copy
    then stop CloseReason.socket_read_failed
    else if ltb maximum (length copied)
    then stop CloseReason.packet_too_large
    else if limiter_ok
    then forward copied
    else stop CloseReason.internal_error

unfoldable pub client_round : ℕ → Frame → Round
unfolding client_binary
client_round maximum read_error = stop CloseReason.socket_read_failed
client_round maximum not_binary = skip
client_round maximum (binary message writer_ok copy limiter_ok) =
    if writer_ok
    then client_binary maximum message copy limiter_ok
    else stop CloseReason.socket_write_failed

-- Where the loop stands after the frames: `reason` is none while it runs.
pub record Stopped : Type 0 where
  pub server : Server
  pub effects : List Effect
  pub reason : Option CloseReason

-- `writer.Close()` sends the message, and the packet is counted.
unfoldable pub sent : Conn → Text → Stopped → Stopped
sent target message rest = record rest { effects = write target message ∷ rest.effects }

unfoldable pub counted : Server → Server
counted app = record app { packet_counter = add64 app.packet_counter 1 }

unfoldable pub client_loop : Server → Conn → List Frame → Stopped
unfolding client_round sent counted
client_loop app target [] = record { server = app; effects = []; reason = none }
client_loop app target (frame ∷ frames) = elim (client_round app.config.packet_maximum_size frame) [
  | skip ↦ client_loop app target frames
  | forward message ↦ sent target message (client_loop (counted app) target frames)
  | stop reason ↦ record { server = app; effects = []; reason = some reason }
]
