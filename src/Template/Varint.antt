-- ===== src/Template/Varint.antt =====
-- push_varint of crates/datum-blocktemplates/src/template_state.rs.
use native.Mathlib.Nat.{mod-eq_of_lt}
use datum_rs.Common.{
  ℕ, ◌%◌, ◌^◌, ◌<◌, ◌≡◌, arith, List, [], ◌∷◌, ◌++◌, length, length-append, take, drop, take_front,
  drop_front, ltb, leb, if◌then◌else◌, Option, some, none, to_le_bytes, from_le_bytes,
  length-to_le_bytes, from_le_bytes-to_le_bytes, Bool-cases, inl, inr,
}

-- The bytes that are pushed.
unfoldable pub push_varint : ℕ → List ℕ
push_varint n =
    if ltb n 0xFD
    then (n % 2 ^ 8) ∷ []
    else if leb n 0xFFFF
    then 0xFD ∷ to_le_bytes 2 (n % 2 ^ 16)
    else if leb n 0xFFFFFFFF
    then 0xFE ∷ to_le_bytes 4 (n % 2 ^ 32)
    else 0xFF ∷ to_le_bytes 8 n

-- A word of `k` bytes off the front.
abbrev read_word : ℕ → List ℕ → Option (ℕ × List ℕ)
read_word k bs = if ltb (length bs) k then none else some (from_le_bytes (take k bs), drop k bs)

-- Bitcoin's CompactSize, read.
abbrev pub read_compact_size : List ℕ → Option (ℕ × List ℕ)
read_compact_size [] = none
read_compact_size (b ∷ bs) =
    if ltb b 0xFD
    then some (b, bs)
    else if ltb b 0xFE
    then read_word 2 bs
    else (if ltb b 0xFF then read_word 4 bs else read_word 8 bs)

read_word-to_le_bytes :
    (k n : ℕ) (bs : List ℕ) → n < 256 ^ k → read_word k (to_le_bytes k n ++ bs) ≡ some (n, bs)
read_word-to_le_bytes k n bs h =
    rw
      (
        take_front k (to_le_bytes k n) bs (length-to_le_bytes k n),
        drop_front k (to_le_bytes k n) bs (length-to_le_bytes k n),
        from_le_bytes-to_le_bytes k n h,
      )
      (ground (arith, length-append (to_le_bytes k n) bs, length-to_le_bytes k n))

small_mod : (p n : ℕ) → n < p → n % p ≡ n
small_mod p n h = mod-eq_of_lt h

-- What `push_varint` writes of a 64-bit number is read back as a CompactSize, whatever follows it.
pub read_compact_size-push_varint :
    (n : ℕ) (bs : List ℕ) → n < 2 ^ 64 → read_compact_size (push_varint n ++ bs) ≡ some (n, bs)
unfolding push_varint
read_compact_size-push_varint n bs h = elim (Bool-cases (ltb n 0xFD)) [
  | inl a ↦ rw a (ground (arith, a))
  | inr a ↦ elim (Bool-cases (leb n 0xFFFF)) [
    | inl b ↦
        rw (a, b, small_mod (2 ^ 16) n (ground (arith, b)))
          (read_word-to_le_bytes 2 n bs (ground (arith, b)))
    | inr b ↦ elim (Bool-cases (leb n 0xFFFFFFFF)) [
      | inl c ↦
          rw (a, b, c, small_mod (2 ^ 32) n (ground (arith, c)))
            (read_word-to_le_bytes 4 n bs (ground (arith, c)))
      | inr c ↦ rw (a, b, c) (read_word-to_le_bytes 8 n bs h)
    ]
  ]
]
