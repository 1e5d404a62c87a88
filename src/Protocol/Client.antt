-- ===== src/Protocol/Client.antt =====
-- crates/datum-protocol/src/client.rs: DatumClient::connect, and Connected::run with its two loops. The
-- keys, `nk` and the padding, which the code draws at random, are arguments; the pool is a function
-- from the bytes that it is sent to the bytes that it answers.
pub mod Streams
use datum_rs.Common.{
  ℕ, zero, suc, ◌+◌, ◌*◌, ◌%◌, Bool, true, false, ◌||◌, not, List, [], ◌∷◌, ◌++◌, length, take,
  drop, slice, leb, ltb, ◌==◌, if◌then◌else◌, to_le_bytes, Result, ok, err, ◌>>=◌, ◌>>◌, fail_if,
  map_err, Option, some, none,
}
use datum_rs.Protocol.Crypto.{DatumCrypto}
use datum_rs.Protocol.Opcodes.{ProtoCmd, pong, from_bits}
use datum_rs.Protocol.Frame.{FrameHeader}
use datum_rs.Protocol.Obfuscation.{for_sender, for_receiver}
use datum_rs.Protocol.Handshake.{
  ClientKeypairs, build_hello_payload, seal_hello, frame_for_hello, parse_received_header,
}
use datum_rs.Protocol.Nonce.{derive_session_nonces}
use datum_rs.Protocol.Messages.{coinbaser_fetch_opcode}
use datum_rs.Protocol.Session.{
  ClientError, io, crypto, handshake, frame, undersized_response, oversized_response,
  handshake_rejected, echo_mismatch, undersized_decoded, message, Connected, read_exact, send_frame,
  recv_frame,
}
use datum_rs.Protocol.Events.{UpstreamEvent, EventError, decode_event}

abbrev pub crypto_box_seal_bytes : ℕ
crypto_box_seal_bytes = 48

-- `==` on byte strings.
abbrev pub same_bytes : List ℕ → List ℕ → Bool
same_bytes [] [] = true
same_bytes [] (y ∷ ys) = false
same_bytes (x ∷ xs) [] = false
same_bytes (x ∷ xs) (y ∷ ys) = if x == y then same_bytes xs ys else false

abbrev pub is_pong : ProtoCmd → Bool
is_pong pong = true
is_pong other = false

-- What `connect` returns: the state of the frames, and what the pool told of itself. The message of
-- the day keeps its bytes; the code reads them as text, with a mark for what is no UTF-8.
pub record Established : Type 0 where
  pub connected : Connected
  pub pool_session_ed25519 : List ℕ
  pub pool_session_x25519 : List ℕ
  pub motd : List ℕ

-- The bytes up to the first NUL, or all.
unfoldable pub until_nul : List ℕ → List ℕ
until_nul [] = []
until_nul (b ∷ bs) = if b == 0 then [] else (b ∷ until_nul bs)

-- One of the four keys that the pool echoes is another than the one it was sent.
unfoldable pub echo_differs : ClientKeypairs → List ℕ → Bool
echo_differs keys plaintext_resp =
    not (same_bytes (slice plaintext_resp 0 32) keys.long_term_ed25519_pub)
    || (not (same_bytes (slice plaintext_resp 32 32) keys.long_term_x25519_pub)
        || (not (same_bytes (slice plaintext_resp 64 32) keys.session_ed25519_pub)
            || not (same_bytes (slice plaintext_resp 96 32) keys.session_x25519_pub)))

module _ (c : DatumCrypto) where
  -- The hello as it is written to the socket.
  unfoldable pub hello_bytes :
      ClientKeypairs → List ℕ → List ℕ → ℕ → List ℕ → List ℕ → Result ClientError (List ℕ)
  hello_bytes keys version client_id nk padding pool_long_term_x25519_pub = do
    plaintext ← map_err handshake (build_hello_payload c keys version client_id nk padding)
    sealed ← map_err handshake (seal_hello c plaintext pool_long_term_x25519_pub)
    map_err handshake (frame_for_hello sealed)

  -- The rest of `connect`, from the first byte that is read.
  unfoldable pub read_response :
      ClientKeypairs → ℕ → List ℕ → Result ClientError (Established × List ℕ)
  unfolding echo_differs
  read_response keys nk input = do
    (header_buf, input1) ← read_exact 4 input
    let (recv_obf, parsed) = parse_received_header (for_receiver nk) header_buf
    resp_header ← map_err frame parsed
    fail_if (ltb (4 * 1024 * 1024) resp_header.cmd_len) (oversized_response resp_header.cmd_len)
    fail_if (ltb resp_header.cmd_len crypto_box_seal_bytes)
        (undersized_response resp_header.cmd_len)
    let response_cmd = from_bits resp_header.proto_cmd
    fail_if (not (is_pong response_cmd)) (handshake_rejected response_cmd)
    (sealed_resp, rest) ← read_exact resp_header.cmd_len input1
    plaintext_resp ←
        map_err crypto (c.box_seal_open sealed_resp keys.session_x25519_pub keys.session_x25519_sec)
    fail_if (ltb (length plaintext_resp) 192) (undersized_decoded (length plaintext_resp) 192)
    fail_if (echo_differs keys plaintext_resp) echo_mismatch
    let pool_session_x25519 = slice plaintext_resp 160 32
    precomp ← map_err crypto (c.box_beforenm pool_session_x25519 keys.session_x25519_sec)
    let (sender_nonce, receiver_nonce) = derive_session_nonces nk keys.session_ed25519_pub
    let connected : Connected = record {
      sender_obf = for_sender nk;
      receiver_obf = recv_obf;
      precomp_key = precomp;
      sender_nonce = sender_nonce;
      receiver_nonce = receiver_nonce;
    }
    ok (
      record {
        connected = connected;
        pool_session_ed25519 = slice plaintext_resp 128 32;
        pool_session_x25519 = pool_session_x25519;
        motd = until_nul (drop 192 plaintext_resp);
      },
      rest,
    )

  -- The established connection, and what the pool has sent behind its response.
  unfoldable pub connect :
      ClientKeypairs
      → List ℕ
      → List ℕ
      → ℕ
      → List ℕ
      → List ℕ
      → (List ℕ → List ℕ)
      → Result ClientError (Established × List ℕ)
  connect keys version client_id nk padding pool_long_term_x25519_pub answer = do
    framed ← hello_bytes keys version client_id nk padding pool_long_term_x25519_pub
    read_response keys nk (answer framed)

pub data UpstreamCommand : Type 0 where
  submit_share : (body : List ℕ) → UpstreamCommand
  request_coinbaser : (coinbase_value : ℕ) (prevhash_bin : List ℕ) → UpstreamCommand
  raw : (proto_cmd : ℕ) (body : List ℕ) → UpstreamCommand

-- The frame of a command; `pad` is the random padding of a coinbaser request.
unfoldable pub command_frame : UpstreamCommand × List ℕ → ℕ × List ℕ
command_frame (submit_share body, pad) = (5, body)
command_frame (request_coinbaser coinbase_value prevhash_bin, pad) =
    (5, coinbaser_fetch_opcode ∷ (to_le_bytes 8 coinbase_value ++ (prevhash_bin ++ (0xfe ∷ pad))))
command_frame (raw proto_cmd body, pad) = (proto_cmd, body)

abbrev pub client_error : EventError → ClientError
client_error (EventError.message e) = message e
client_error (EventError.undersized_decoded got need) = undersized_decoded got need

abbrev pub on_sent :
    (Connected → List ℕ × Result ClientError Connected)
    → Result ClientError (Connected × List ℕ)
    → List ℕ × Result ClientError Connected
on_sent next (err e) = ([], err e)
on_sent next (ok (conn, out)) = (out ++ (next conn).0, (next conn).1)

abbrev pub on_event :
    Result EventError UpstreamEvent
    → List UpstreamEvent × Option ClientError
    → List UpstreamEvent × Option ClientError
on_event (err e) later = ([], some (client_error e))
on_event (ok event) (events, end) = (event ∷ events, end)

abbrev pub on_frame :
    (Connected → List ℕ → List UpstreamEvent × Option ClientError)
    → Result ClientError (Connected × FrameHeader × List ℕ × List ℕ)
    → List UpstreamEvent × Option ClientError
on_frame next (err e) = ([], some e)
on_frame next (ok (conn, header, body, rest)) = on_event (decode_event header body) (next conn rest)

module _ (c : DatumCrypto) where
  -- The loop over the commands: the bytes written, and the error that ended it, if any did.
  unfoldable pub run_commands :
      Connected → List (UpstreamCommand × List ℕ) → List ℕ × Result ClientError Connected
  run_commands conn [] = ([], ok conn)
  run_commands conn (cmd ∷ cmds) =
      on_sent (λ next. run_commands next cmds)
        (send_frame c conn (command_frame cmd).0 (command_frame cmd).1)

  -- The loop over the frames: the events that are sent on, and the error that ends it, none where the
  -- fuel runs out.
  -- The runtime takes every event; the arm for a runtime that has closed its channel, which ends the
  -- loop without an error, is left out.
  unfoldable pub run_events : ℕ → Connected → List ℕ → List UpstreamEvent × Option ClientError
  run_events zero conn input = ([], none)
  run_events (suc fuel) conn input = on_frame (run_events fuel) (recv_frame c conn input)
