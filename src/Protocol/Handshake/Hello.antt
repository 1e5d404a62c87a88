-- ===== src/Protocol/Handshake/Hello.antt =====
-- The hello as its receiver sees it, and what the builder refuses.
use datum_rs.Common.{
  ℕ, ◌^◌, ◌≤◌, ◌<◌, ◌≡◌, arith, true, false, List, ◌++◌, length, take, drop, take_front, drop_front,
  ok, err, leb,
}
use datum_rs.Protocol.Crypto.{DatumCrypto}
use datum_rs.Protocol.Frame.{FrameHeader, cmd_len_too_large}
use datum_rs.Protocol.Frame.Codec.{IsValid, pack_ok, pack_refuses}
use datum_rs.Protocol.Obfuscation.Header.{
  wire_header, packed_bytes_word, length-wire_header, unpack-wire_header,
}
use datum_rs.Protocol.Obfuscation.{
  initial_sender, encrypt, decrypt, datum_header_xor_feedback, initial_sending_header_key,
}
use datum_rs.Protocol.Handshake.{
  frame, payload_too_large, ClientKeypairs, contains_nul, hello_fields, build_hello_payload,
  hello_header, frame_for_hello, parse_received_header,
}

-- A sealed hello of less than 2 ^ 22 bytes is framed; a receiver that starts at the client's first
-- key reads from the first four bytes the header with the payload's length and the hello's flags,
-- finds the payload behind them, and stands at the client's next key.
pub parse_received_header-frame_for_hello :
    (sealed : List ℕ)
    → length sealed < 2 ^ 22
    → (out : List ℕ) × (frame_for_hello sealed ≡ ok out)
      × (drop 4 out ≡ sealed)
      × (parse_received_header initial_sender (take 4 out) ≡ (
        record { key = datum_header_xor_feedback initial_sending_header_key },
        ok (hello_header (length sealed)),
      ))
unfolding frame_for_hello parse_received_header encrypt decrypt initial_sender hello_header
parse_received_header-frame_for_hello sealed h = (
  wire ++ sealed,
  rw (below, pack_ok header valid, packed_bytes_word header valid key (omega arith)),
  drop_front 4 wire sealed (length-wire_header header valid key (omega arith)),
  rw (take_front 4 wire sealed (length-wire_header header valid key (omega arith))) (λ i. (
    record { key = datum_header_xor_feedback initial_sending_header_key },
    ok (unpack-wire_header header valid key (omega arith) i),
  )),
)
  where
    header : FrameHeader
    header = hello_header (length sealed)

    key : ℕ
    key = initial_sending_header_key

    valid : IsValid header
    valid = record { len_fits = h; cmd_fits = omega arith }

    wire : List ℕ
    wire = wire_header header valid key (omega arith)

    below : leb (2 ^ 32) (length sealed) ≡ false
    below = ground arith

-- A sealed hello of 2 ^ 22 bytes or more is refused: by the header's `cmd_len` check below 2 ^ 32
-- bytes, and only from there on as too large a payload.
pub frame_for_hello_refuses :
    (sealed : List ℕ)
    → (2 ^ 22 ≤ length sealed
        → length sealed < 2 ^ 32
        → frame_for_hello sealed ≡ err (frame (cmd_len_too_large (length sealed))))
      × (2 ^ 32 ≤ length sealed → frame_for_hello sealed ≡ err (payload_too_large (length sealed)))
unfolding frame_for_hello
frame_for_hello_refuses sealed =
    (λ p q. rw (below q, (pack_refuses (hello_header (length sealed))).0 p), λ p. rw (above p))
  where
    below : length sealed < 2 ^ 32 → leb (2 ^ 32) (length sealed) ≡ false
    below q = ground arith

    above : 2 ^ 32 ≤ length sealed → leb (2 ^ 32) (length sealed) ≡ true
    above q = ground arith

-- A payload that is built consists of the nine fields and then of the signature that the
-- cryptography gives for exactly these under the long-term key; neither text has a NUL byte, and the
-- padding has 1 to 200 bytes.
pub build_hello_payload_shape :
    (c : DatumCrypto) (keys : ClientKeypairs) (version client_id : List ℕ) (nk : ℕ)
    (padding payload : List ℕ)
    → build_hello_payload c keys version client_id nk padding ≡ ok payload
    → (signature : List ℕ) × (c.sign_detached
          (hello_fields keys version client_id nk padding)
          keys.long_term_ed25519_sec
        ≡ ok signature)
      × (payload ≡ hello_fields keys version client_id nk padding ++ signature)
      × (contains_nul version ≡ false)
      × (contains_nul client_id ≡ false)
      × (1 ≤ length padding)
      × (length padding ≤ 200)
unfolding build_hello_payload
build_hello_payload_shape c keys version client_id nk padding payload e = ground arith
