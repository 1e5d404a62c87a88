-- ===== src/Protocol/Frame.antt =====
-- crates/datum-protocol/src/frame.rs: the packed 32-bit frame header.
pub mod Codec
use datum_rs.Common.{
  ℕ, ◌+◌, ◌*◌, ◌/◌, ◌%◌, ◌^◌, bit_and, bit_or, Bool, true, false, ◌||◌, not, List, ltb, leb, ◌==◌,
  if◌then◌else◌, to_le_bytes, from_le_bytes, Result, ok, err,
}

pub record FrameHeader : Type 0 where
  pub cmd_len : ℕ
  pub is_signed : Bool
  pub is_encrypted_pubkey : Bool
  pub is_encrypted_channel : Bool
  pub proto_cmd : ℕ

abbrev pub max_cmd_len : ℕ
max_cmd_len = 4 * 1024 * 1024

abbrev pub header_len : ℕ
header_len = 4

pub data FrameError : Type 0 where
  cmd_len_too_large : ℕ → FrameError
  proto_cmd_too_large : ℕ → FrameError

-- `if flag { word |= bit }`.
unfoldable pub set_flag : Bool → ℕ → ℕ → ℕ
set_flag true bit word = bit_or word bit
set_flag false bit word = word

-- The word that `pack` builds; a shift of a u32 drops what leaves 32 bits.
unfoldable pub packed_word : FrameHeader → ℕ
packed_word h =
    let len = bit_and h.cmd_len 0x3f_ffff in
    let signed = set_flag h.is_signed (2 ^ 24) len in
    let pubkey = set_flag h.is_encrypted_pubkey (2 ^ 25) signed in
    let channel = set_flag h.is_encrypted_channel (2 ^ 26) pubkey in
    bit_or channel (bit_and h.proto_cmd 0x1f * 2 ^ 27 % 2 ^ 32)

unfoldable pub pack : FrameHeader → Result FrameError (List ℕ)
pack h =
    if leb (2 ^ 22) h.cmd_len || ltb max_cmd_len h.cmd_len
    then err (cmd_len_too_large h.cmd_len)
    else if leb 32 h.proto_cmd
    then err (proto_cmd_too_large h.proto_cmd)
    else ok (to_le_bytes 4 (packed_word h))

unfoldable pub unpack_word : ℕ → FrameHeader
unpack_word word = record {
  cmd_len = bit_and word 0x3f_ffff;
  is_signed = not (bit_and word (2 ^ 24) == 0);
  is_encrypted_pubkey = not (bit_and word (2 ^ 25) == 0);
  is_encrypted_channel = not (bit_and word (2 ^ 26) == 0);
  proto_cmd = bit_and (word / 2 ^ 27) 0x1f % 256;
}

unfoldable pub unpack : List ℕ → FrameHeader
unfolding unpack_word
unpack bytes = unpack_word (from_le_bytes bytes)
