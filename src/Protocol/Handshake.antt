-- ===== src/Protocol/Handshake.antt =====
-- crates/datum-protocol/src/handshake.rs: the client's hello and its frame.
pub mod Hello
use datum_rs.Common.{
  ℕ, zero, suc, ◌^◌, Bool, true, false, ◌||◌, not, List, [], ◌∷◌, ◌++◌, length, leb, ltb, ◌==◌,
  if◌then◌else◌, to_le_bytes, from_le_bytes, Result, ok, err, ◌>>=◌, ◌>>◌, fail_if, map_err,
}
use datum_rs.Protocol.Crypto.{CryptoError, DatumCrypto}
use datum_rs.Protocol.Frame.{FrameHeader, FrameError, pack, unpack}
use datum_rs.Protocol.Obfuscation.{HeaderObfuscator, initial_sender, encrypt, decrypt}

abbrev pub hello_sentinel : ℕ
hello_sentinel = 0xfe

abbrev pub hello_proto_cmd : ℕ
hello_proto_cmd = 0x01

pub data HandshakeError : Type 0 where
  crypto : CryptoError → HandshakeError
  frame : FrameError → HandshakeError
  bad_padding_len : ℕ → HandshakeError
  version_has_nul client_id_has_nul : HandshakeError
  payload_too_large : ℕ → HandshakeError

-- The keys are byte strings: 32 bytes, and 64 for the Ed25519 secrets.
pub record ClientKeypairs : Type 0 where
  pub long_term_ed25519_pub : List ℕ
  pub long_term_ed25519_sec : List ℕ
  pub long_term_x25519_pub : List ℕ
  pub long_term_x25519_sec : List ℕ
  pub session_ed25519_pub : List ℕ
  pub session_ed25519_sec : List ℕ
  pub session_x25519_pub : List ℕ
  pub session_x25519_sec : List ℕ

-- `bytes.contains(&0)`.
unfoldable pub contains_nul : List ℕ → Bool
contains_nul [] = false
contains_nul (b ∷ bs) = (b == 0) || contains_nul bs

-- Fields 1 to 9 of the plaintext: what is signed.
unfoldable pub hello_fields : ClientKeypairs → List ℕ → List ℕ → ℕ → List ℕ → List ℕ
hello_fields keys version client_id nk padding =
    keys.long_term_ed25519_pub
    ++ (keys.long_term_x25519_pub
        ++ (keys.session_ed25519_pub
            ++ (keys.session_x25519_pub
                ++ (version
                    ++ (client_id ++ (0 ∷ (hello_sentinel ∷ (to_le_bytes 4 nk ++ padding))))))))

unfoldable pub build_hello_payload :
    DatumCrypto → ClientKeypairs → List ℕ → List ℕ → ℕ → List ℕ → Result HandshakeError (List ℕ)
unfolding contains_nul hello_fields
build_hello_payload c keys version client_id nk padding = do
  fail_if (contains_nul version) version_has_nul
  fail_if (contains_nul client_id) client_id_has_nul
  fail_if (not (leb 1 (length padding)) || ltb 200 (length padding))
      (bad_padding_len (length padding))
  let buf = hello_fields keys version client_id nk padding
  signature ← map_err crypto (c.sign_detached buf keys.long_term_ed25519_sec)
  ok (buf ++ signature)

unfoldable pub seal_hello : DatumCrypto → List ℕ → List ℕ → Result HandshakeError (List ℕ)
seal_hello c plaintext pool_x25519_pub = map_err crypto (c.box_seal pool_x25519_pub plaintext)

unfoldable pub hello_header : ℕ → FrameHeader
hello_header cmd_len = record {
  cmd_len = cmd_len;
  is_signed = true;
  is_encrypted_pubkey = true;
  is_encrypted_channel = false;
  proto_cmd = hello_proto_cmd;
}

-- `try_into` a u32 fails at 2 ^ 32.
unfoldable pub frame_for_hello : List ℕ → Result HandshakeError (List ℕ)
unfolding hello_header
frame_for_hello sealed = do
  fail_if (leb (2 ^ 32) (length sealed)) (payload_too_large (length sealed))
  raw_header ← map_err frame (pack (hello_header (length sealed)))
  let (obf, xored_word) = encrypt initial_sender (from_le_bytes raw_header)
  ok (to_le_bytes 4 xored_word ++ sealed)

-- The receiving chain after the call, and the header.
unfoldable pub parse_received_header :
    HeaderObfuscator → List ℕ → HeaderObfuscator × Result FrameError FrameHeader
parse_received_header obf wire =
    let (obf', plain_word) = decrypt obf (from_le_bytes wire) in
    (obf', ok (unpack (to_le_bytes 4 plain_word)))
