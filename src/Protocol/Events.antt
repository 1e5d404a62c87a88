-- ===== src/Protocol/Events.antt =====
-- crates/datum-protocol/src/client.rs: `decode_event`, from a received frame to a typed event.
pub mod Dispatch
use datum_rs.Common.{
  ℕ, Bool, true, false, ◌&&◌, not, List, [], ◌∷◌, ◌==◌, if◌then◌else◌, Result, ok, err, map_err,
  ◌>>=◌,
}
use datum_rs.Protocol.Frame.{FrameHeader}
use datum_rs.Protocol.Opcodes.{ProtoCmd, from_bits, coinbaser}
use datum_rs.Protocol.Messages.{
  MessageError, CoinbaserResponse, ClientConfig, ShareResponse, decode_coinbaser_response,
  decode_client_config, decode_share_response, coinbaser_response_opcode, client_config_opcode,
  share_response_opcode, job_validation_opcode,
}

pub data UpstreamEvent : Type 0 where
  coinbaser_event : CoinbaserResponse → UpstreamEvent
  client_config_event : ClientConfig → UpstreamEvent
  share_response_event : ShareResponse → UpstreamEvent
  block_notify_event : List ℕ → UpstreamEvent
  job_validation_request : List ℕ → UpstreamEvent
  unknown_frame : ℕ → List ℕ → UpstreamEvent

pub data EventError : Type 0 where
  message : MessageError → EventError
  undersized_decoded : (got need : ℕ) → EventError

-- `body[0] == opcode` decides; the rest of the body is decoded.
unfoldable pub coinbaser_arm : ℕ → List ℕ → Result EventError UpstreamEvent
coinbaser_arm cmd [] = err (undersized_decoded 0 1)
coinbaser_arm cmd (b ∷ rest) =
    if b == coinbaser_response_opcode
    then (map_err message (decode_coinbaser_response rest) >>= λ r. ok (coinbaser_event r))
    else if b == job_validation_opcode
    then ok (job_validation_request rest)
    else ok (unknown_frame cmd (b ∷ rest))

unfoldable pub mining_arm : ℕ → List ℕ → Result EventError UpstreamEvent
mining_arm cmd [] = ok (unknown_frame cmd [])
mining_arm cmd (b ∷ rest) =
    if b == share_response_opcode
    then (map_err message (decode_share_response rest) >>= λ r. ok (share_response_event r))
    else if b == client_config_opcode
    then (map_err message (decode_client_config rest) >>= λ r. ok (client_config_event r))
    else if b == coinbaser_response_opcode
    then (map_err message (decode_coinbaser_response rest) >>= λ r. ok (coinbaser_event r))
    else if b == job_validation_opcode
    then ok (job_validation_request rest)
    else ok (unknown_frame cmd (b ∷ rest))

unfoldable pub command_arm : ProtoCmd → ℕ → List ℕ → Result EventError UpstreamEvent
unfolding coinbaser_arm mining_arm
command_arm coinbaser cmd body = coinbaser_arm cmd body
command_arm other cmd body = mining_arm cmd body

-- 0xf9 & 0x1f is 0x19.
unfoldable pub decode_event : FrameHeader → List ℕ → Result EventError UpstreamEvent
unfolding command_arm
decode_event header body =
    if header.proto_cmd == 0x19 && (not header.is_signed && not header.is_encrypted_pubkey)
    then ok (block_notify_event body)
    else command_arm (from_bits header.proto_cmd) header.proto_cmd body
