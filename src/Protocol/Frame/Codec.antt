-- ===== src/Protocol/Frame/Codec.antt =====
-- `pack` and `unpack` against each other, and the refusals of `pack`.
use datum_rs.Common.{
  ℕ, ◌+◌, ◌*◌, ◌/◌, ◌%◌, ◌^◌, ◌≤◌, ◌<◌, ◌≡◌, ap, ◌∙◌, bit_and, bit_or, Bool, true, false, not, List,
  length, All, IsByte, ◌==◌, to_le_bytes, from_le_bytes, ok, err, arith,
}
use datum_rs.Common.{
  from_le_bytes-to_le_bytes, to_le_bytes-from_le_bytes, from_le_bytes-lt, length-to_le_bytes,
}
use datum_rs.Common.Bits.{bit_and_mask, bit_and_bit, bit_or_disjoint}
use datum_rs.Protocol.Frame.{
  FrameHeader, FrameError, cmd_len_too_large, proto_cmd_too_large, set_flag, packed_word, pack,
  unpack_word, unpack,
}

-- A header whose fields fit their bit fields.
pub record IsValid (h : FrameHeader) : Type 0 where
  pub len_fits : h.cmd_len < 2 ^ 22
  pub cmd_fits : h.proto_cmd < 32

abbrev pub bit : Bool → ℕ
bit true = 1
bit false = 0

bit-le : (f : Bool) → bit f ≤ 1
bit-le true = omega arith
bit-le false = omega arith

set_flag_sum : (f : Bool) (k w : ℕ) → w < 2 ^ k → set_flag f (2 ^ k) w ≡ w + bit f * 2 ^ k
unfolding set_flag
set_flag_sum true k w h = omega (arith, ap (λ (t : ℕ). bit_or w t) one, bit_or_disjoint k w 1 h)
  where
    one : 1 * 2 ^ k ≡ 2 ^ k
    one = omega arith
set_flag_sum false k w h = omega arith

-- The word as a sum of its fields.
pub packed_word_sum :
    (h : FrameHeader)
    → IsValid h
    → packed_word h
      ≡ h.cmd_len
        + bit h.is_signed * 2 ^ 24
        + bit h.is_encrypted_pubkey * 2 ^ 25
        + bit h.is_encrypted_channel * 2 ^ 26
        + h.proto_cmd * 2 ^ 27
unfolding packed_word
packed_word_sum h v =
    rw
      (
        len,
        set_flag_sum h.is_signed 24 h.cmd_len (omega arith),
        set_flag_sum h.is_encrypted_pubkey 25 w1 (omega (arith, bit-le h.is_signed)),
        set_flag_sum h.is_encrypted_channel 26 w2
            (omega (arith, bit-le h.is_signed, bit-le h.is_encrypted_pubkey)),
        cmd,
      )
      (bit_or_disjoint 27 w3 h.proto_cmd (omega (arith, bits)))
  where
    len : bit_and h.cmd_len 0x3f_ffff ≡ h.cmd_len
    len = omega (arith, bit_and_mask 22 h.cmd_len)

    cmd : bit_and h.proto_cmd 0x1f * 2 ^ 27 % 2 ^ 32 ≡ h.proto_cmd * 2 ^ 27
    cmd = omega (arith, bit_and_mask 5 h.proto_cmd)

    bits :
        (bit h.is_signed ≤ 1) × (bit h.is_encrypted_pubkey ≤ 1) × (bit h.is_encrypted_channel ≤ 1)
    bits = (bit-le h.is_signed, bit-le h.is_encrypted_pubkey, bit-le h.is_encrypted_channel)

    w1 : ℕ
    w1 = h.cmd_len + bit h.is_signed * 2 ^ 24

    w2 : ℕ
    w2 = w1 + bit h.is_encrypted_pubkey * 2 ^ 25

    w3 : ℕ
    w3 = w2 + bit h.is_encrypted_channel * 2 ^ 26

pub packed_word-lt : (h : FrameHeader) → IsValid h → packed_word h < 2 ^ 32
packed_word-lt h v = omega (
  arith,
  packed_word_sum h v,
  bit-le h.is_signed,
  bit-le h.is_encrypted_pubkey,
  bit-le h.is_encrypted_channel,
)

-- One bit of a sum whose lower part fits below it.
bit_test :
    (k : ℕ) (f : Bool) (word : ℕ)
    → word / 2 ^ k % 2 ≡ bit f
    → 0 < 2 ^ k
    → not (bit_and word (2 ^ k) == 0) ≡ f
bit_test k true word e p = ground (arith, bit_and_bit k word)
bit_test k false word e p = ground (arith, bit_and_bit k word)

pub unpack_word-packed_word : (h : FrameHeader) → IsValid h → unpack_word (packed_word h) ≡ h
unfolding unpack_word
unpack_word-packed_word h v = λ i. record {
  cmd_len = len i;
  is_signed = signed i;
  is_encrypted_pubkey = pubkey i;
  is_encrypted_channel = channel i;
  proto_cmd = cmd i;
}
  where
    word : ℕ
    word = packed_word h

    sum :
        word
        ≡ h.cmd_len
          + bit h.is_signed * 2 ^ 24
          + bit h.is_encrypted_pubkey * 2 ^ 25
          + bit h.is_encrypted_channel * 2 ^ 26
          + h.proto_cmd * 2 ^ 27
    sum = packed_word_sum h v

    bits :
        (bit h.is_signed ≤ 1) × (bit h.is_encrypted_pubkey ≤ 1) × (bit h.is_encrypted_channel ≤ 1)
    bits = (bit-le h.is_signed, bit-le h.is_encrypted_pubkey, bit-le h.is_encrypted_channel)

    len : bit_and word 0x3f_ffff ≡ h.cmd_len
    len = omega (arith, bit_and_mask 22 word, sum)

    signed : not (bit_and word (2 ^ 24) == 0) ≡ h.is_signed
    signed = bit_test 24 h.is_signed word (omega (arith, sum, bits)) (omega arith)

    pubkey : not (bit_and word (2 ^ 25) == 0) ≡ h.is_encrypted_pubkey
    pubkey = bit_test 25 h.is_encrypted_pubkey word (omega (arith, sum, bits)) (omega arith)

    channel : not (bit_and word (2 ^ 26) == 0) ≡ h.is_encrypted_channel
    channel = bit_test 26 h.is_encrypted_channel word (omega (arith, sum, bits)) (omega arith)

    cmd : bit_and (word / 2 ^ 27) 0x1f % 256 ≡ h.proto_cmd
    cmd = omega (arith, bit_and_mask 5 (word / 2 ^ 27), sum, bits)

pub pack_ok : (h : FrameHeader) → IsValid h → pack h ≡ ok (to_le_bytes 4 (packed_word h))
unfolding pack
pack_ok h v = ground arith

-- Every header whose fields fit packs into four bytes, and these unpack to the header.
pub unpack-pack :
    (h : FrameHeader)
    → IsValid h
    → (bytes : List ℕ) × (pack h ≡ ok bytes) × (length bytes ≡ 4) × (unpack bytes ≡ h)
unfolding unpack
unpack-pack h v = (
  to_le_bytes 4 (packed_word h),
  pack_ok h v,
  length-to_le_bytes 4 (packed_word h),
  ap unpack_word (from_le_bytes-to_le_bytes 4 (packed_word h) (packed_word-lt h v))
      ∙ unpack_word-packed_word h v,
)

-- `pack` refuses a length of 2 ^ 22 or more, whatever the command, and then a command of 32 or
-- more; it refuses nothing else.
pub pack_refuses :
    (h : FrameHeader)
    → ((2 ^ 22 ≤ h.cmd_len) → pack h ≡ err (cmd_len_too_large h.cmd_len))
      × (h.cmd_len < 2 ^ 22 → 32 ≤ h.proto_cmd → pack h ≡ err (proto_cmd_too_large h.proto_cmd))
      × ((e : FrameError) → pack h ≡ err e → ¬ IsValid h)
unfolding pack
pack_refuses h = (λ p. ground arith, λ p q. ground arith, λ e p v. ground arith)

-- What `unpack` reads is always packable.
pub unpack-IsValid : (bytes : List ℕ) → IsValid (unpack bytes)
unfolding unpack unpack_word
unpack-IsValid bytes = record {
  len_fits = omega (arith, bit_and_mask 22 (from_le_bytes bytes));
  cmd_fits = omega (arith, bit_and_mask 5 (from_le_bytes bytes / 2 ^ 27));
}

bit_read : (k word : ℕ) → 0 < 2 ^ k → bit (not (bit_and word (2 ^ k) == 0)) ≡ word / 2 ^ k % 2
bit_read k word p = ground (arith, bit_and_bit k word)

packed_word-unpack_word :
    (w : ℕ) → w < 2 ^ 32 → w / 2 ^ 22 % 4 ≡ 0 → packed_word (unpack_word w) ≡ w
unfolding unpack_word
packed_word-unpack_word w h reserved = omega (
  arith,
  packed_word_sum (unpack_word w) valid,
  bit_and_mask 22 w,
  bit_and_mask 5 (w / 2 ^ 27),
  bit_read 24 w (omega arith),
  bit_read 25 w (omega arith),
  bit_read 26 w (omega arith),
)
  where
    valid : IsValid (unpack_word w)
    valid = record {
      len_fits = omega (arith, bit_and_mask 22 w);
      cmd_fits = omega (arith, bit_and_mask 5 (w / 2 ^ 27));
    }

-- Four bytes whose reserved bits 22 and 23 are clear are what `unpack`, then `pack`, gives back.
pub pack-unpack :
    (bytes : List ℕ)
    → All IsByte bytes
    → length bytes ≡ 4
    → from_le_bytes bytes / 2 ^ 22 % 4 ≡ 0
    → pack (unpack bytes) ≡ ok bytes
unfolding unpack
pack-unpack bytes b len reserved =
    pack_ok (unpack bytes) (unpack-IsValid bytes)
    ∙ ap ok (ap (to_le_bytes 4) word ∙ rw len at (to_le_bytes-from_le_bytes bytes b))
  where
    fits : from_le_bytes bytes < 2 ^ 32
    fits = omega (arith, rw len at (from_le_bytes-lt bytes b))

    word : packed_word (unpack bytes) ≡ from_le_bytes bytes
    word = packed_word-unpack_word (from_le_bytes bytes) fits reserved
