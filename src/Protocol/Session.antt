-- ===== src/Protocol/Session.antt =====
-- crates/datum-protocol/src/client.rs: frames of an established connection. A connection is the
-- state that `Connected` guards by its locks; the socket is the list of bytes written or still to
-- be read.
pub mod Delivery
use datum_rs.Common.{
  ℕ, zero, suc, ◌-◌, ◌*◌, ◌%◌, ◌^◌, Bool, true, false, ◌&&◌, not, List, [], ◌∷◌, ◌++◌, length, take,
  drop, leb, ltb, if◌then◌else◌, to_le_bytes, from_le_bytes, Result, ok, err, ◌>>=◌, ◌>>◌, fail_if,
  map_err,
}
use datum_rs.Protocol.Crypto.{CryptoError, DatumCrypto}
use datum_rs.Protocol.Frame.{FrameHeader, FrameError, pack, unpack}
use datum_rs.Protocol.Obfuscation.{HeaderObfuscator, encrypt, decrypt}
use datum_rs.Protocol.Nonce.{increment_nonce}
use datum_rs.Protocol.Opcodes.{ProtoCmd}
use datum_rs.Protocol.Handshake.{HandshakeError}
use datum_rs.Protocol.Messages.{MessageError}

-- `io` stands for a socket that ended, at once or after a timeout.
pub data ClientError : Type 0 where
  io : ClientError
  crypto : CryptoError → ClientError
  handshake : HandshakeError → ClientError
  frame : FrameError → ClientError
  message : MessageError → ClientError
  undersized_response oversized_response : ℕ → ClientError
  handshake_rejected : ProtoCmd → ClientError
  echo_mismatch : ClientError
  undersized_decoded : (got need : ℕ) → ClientError

pub record Connected : Type 0 where
  pub sender_obf : HeaderObfuscator
  pub receiver_obf : HeaderObfuscator
  pub precomp_key : List ℕ
  pub sender_nonce : List ℕ
  pub receiver_nonce : List ℕ

unfoldable pub channel_header : ℕ → ℕ → FrameHeader
channel_header cmd_len proto_cmd = record {
  cmd_len = cmd_len;
  is_signed = false;
  is_encrypted_pubkey = false;
  is_encrypted_channel = true;
  proto_cmd = proto_cmd;
}

-- The connection afterwards and the bytes written. `as u32` wraps the length.
unfoldable pub send_frame :
    DatumCrypto → Connected → ℕ → List ℕ → Result ClientError (Connected × List ℕ)
unfolding channel_header
send_frame c conn proto_cmd plaintext = do
  ciphertext ← map_err crypto (c.box_easy_afternm conn.precomp_key conn.sender_nonce plaintext)
  raw ← map_err frame (pack (channel_header (length ciphertext % 2 ^ 32) proto_cmd))
  let (obf, xored) = encrypt conn.sender_obf (from_le_bytes raw)
  let conn' = record conn { sender_obf = obf; sender_nonce = increment_nonce conn.sender_nonce }
  ok (conn', to_le_bytes 4 xored ++ ciphertext)

-- `read_exact`: the bytes read and those that are left.
unfoldable pub read_exact : ℕ → List ℕ → Result ClientError (List ℕ × List ℕ)
read_exact n input = if ltb (length input) n then err io else ok (take n input, drop n input)

-- The body mode that the two encryption flags select.
unfoldable pub open_body :
    DatumCrypto → Connected → FrameHeader → List ℕ → Result ClientError (Connected × List ℕ)
open_body c conn header raw =
    if not header.is_encrypted_pubkey && header.is_encrypted_channel
    then (map_err crypto (c.box_open_easy_afternm conn.precomp_key conn.receiver_nonce raw)
        >>= λ pt. ok (record conn { receiver_nonce = increment_nonce conn.receiver_nonce }, pt))
    else ok (conn, raw)

-- A detached signature is the last 64 bytes.
unfoldable pub strip_signature : FrameHeader → List ℕ → List ℕ
strip_signature header body =
    if header.is_signed && leb 64 (length body) then take (length body - 64) body else body

unfoldable pub recv_frame :
    DatumCrypto
    → Connected
    → List ℕ
    → Result ClientError (Connected × FrameHeader × List ℕ × List ℕ)
unfolding open_body strip_signature
recv_frame c conn input = do
  (header_buf, input1) ← read_exact 4 input
  let (obf, plain_word) = decrypt conn.receiver_obf (from_le_bytes header_buf)
  let header = unpack (to_le_bytes 4 plain_word)
  fail_if (ltb (16 * 1024 * 1024) header.cmd_len) (oversized_response header.cmd_len)
  (raw, input2) ← read_exact header.cmd_len input1
  (conn', body) ← open_body c (record conn { receiver_obf = obf }) header raw
  ok (conn', header, strip_signature header body, input2)

-- One call after the other: the bytes of all frames, in order.
unfoldable pub send_all :
    DatumCrypto → Connected → List (ℕ × List ℕ) → Result ClientError (Connected × List ℕ)
send_all c conn [] = ok (conn, [])
send_all c conn ((cmd, plaintext) ∷ frames) = do
  (conn', out) ← send_frame c conn cmd plaintext
  (conn'', more) ← send_all c conn' frames
  ok (conn'', out ++ more)

-- `n` frames off the socket.
unfoldable pub recv_all :
    DatumCrypto
    → Connected
    → ℕ
    → List ℕ
    → Result ClientError (Connected × List (ℕ × List ℕ) × List ℕ)
recv_all c conn zero input = ok (conn, [], input)
recv_all c conn (suc n) input = do
  (conn', header, body, rest) ← recv_frame c conn input
  (conn'', frames, left) ← recv_all c conn' n rest
  ok (conn'', (header.proto_cmd, body) ∷ frames, left)
