-- ===== src/Protocol/Obfuscation/Header.antt =====
-- A packed header through one step of the key chain and back.
use datum_rs.Common.{
  ℕ, ◌≡◌, ap, ◌∙◌, bit_xor, List, length, to_le_bytes, from_le_bytes, length-to_le_bytes,
  from_le_bytes-to_le_bytes,
}
use datum_rs.Common.Bits.{bit_xor-lt, bit_xor_twice}
use datum_rs.Protocol.Frame.{FrameHeader, packed_word, unpack, unpack_word}
use datum_rs.Protocol.Frame.Codec.{IsValid, packed_word-lt, unpack_word-packed_word}
use datum_rs.Protocol.Obfuscation.Chain.{IsWord}

module _ (h : FrameHeader) (v : IsValid h) (key : ℕ) (hk : IsWord key) where
  bit_xor-IsWord : IsWord (bit_xor (packed_word h) key)
  bit_xor-IsWord = bit_xor-lt 32 (packed_word h) key (packed_word-lt h v) hk

  -- The word of the packed bytes.
  pub packed_bytes_word : from_le_bytes (to_le_bytes 4 (packed_word h)) ≡ packed_word h
  packed_bytes_word = from_le_bytes-to_le_bytes 4 (packed_word h) (packed_word-lt h v)

  -- The header on the wire.
  abbrev pub wire_header : List ℕ
  wire_header = to_le_bytes 4 (bit_xor (packed_word h) key)

  pub length-wire_header : length wire_header ≡ 4
  length-wire_header = length-to_le_bytes 4 (bit_xor (packed_word h) key)

  -- Read off the wire under the same key, it is the header that was packed.
  pub unpack-wire_header : unpack (to_le_bytes 4 (bit_xor (from_le_bytes wire_header) key)) ≡ h
  unfolding unpack
  unpack-wire_header =
      ap (λ (w : ℕ). unpack (to_le_bytes 4 (bit_xor w key)))
        (from_le_bytes-to_le_bytes 4 (bit_xor (packed_word h) key) bit_xor-IsWord)
      ∙ ap (λ (w : ℕ). unpack (to_le_bytes 4 w))
          (bit_xor_twice 32 (packed_word h) key (packed_word-lt h v) hk)
      ∙ ap unpack_word packed_bytes_word
      ∙ unpack_word-packed_word h v
