-- ===== src/Template/Height.antt =====
-- bip34_height_script of crates/datum-blocktemplates/src/template_state.rs.
use datum_rs.Common.{
  ℕ, zero, suc, ◌/◌, ◌%◌, ◌^◌, ◌≤◌, ◌<◌, ◌≡◌, ap, arith, List, [], ◌∷◌, ◌++◌, length, length-append,
  ◌==◌, if◌then◌else◌, bit_and, from_le_bytes, from_le_bytes-append, Bool-cases, inl, inr, true,
  refl, All, IsByte,
}
use native.Mathlib.Nat.{pow-succ', mod-eq_of_lt}
use datum_rs.Common.Bits.{bit_and_mask, bit_and_bit}

-- `while n != 0`: a 32-bit number has at most four bytes.
unfoldable pub significant_bytes : ℕ → ℕ → List ℕ
significant_bytes zero n = []
significant_bytes (suc fuel) n =
    let more = significant_bytes fuel (n / 2 ^ 8) in if n == 0 then [] else (bit_and n 0xFF ∷ more)

abbrev pub last_byte : List ℕ → ℕ
last_byte [] = 0
last_byte (b ∷ []) = b
last_byte (b ∷ c ∷ bs) = last_byte (c ∷ bs)

abbrev keep_unsigned : List ℕ → List ℕ
keep_unsigned bytes = if bit_and (last_byte bytes) 0x80 == 0 then bytes else bytes ++ (0 ∷ [])

unfoldable pub height_bytes : ℕ → List ℕ
height_bytes height = keep_unsigned (if height == 0 then 0 ∷ [] else significant_bytes 4 height)

unfoldable pub bip34_height_script : ℕ → List ℕ
bip34_height_script height = (length (height_bytes height) % 2 ^ 8) ∷ height_bytes height

significant_bytes_count : (fuel n : ℕ) → length (significant_bytes fuel n) ≤ fuel
unfolding significant_bytes
significant_bytes_count zero n = omega arith
significant_bytes_count (suc fuel) n = ground (arith, significant_bytes_count fuel (n / 2 ^ 8))

from_le_bytes-significant_bytes :
    (fuel n : ℕ) → n < 256 ^ fuel → from_le_bytes (significant_bytes fuel n) ≡ n
unfolding significant_bytes from_le_bytes
from_le_bytes-significant_bytes zero n h = omega arith
from_le_bytes-significant_bytes (suc fuel) n h = elim (Bool-cases (n == 0)) [
  | inl e ↦ rw e (ground (arith, e))
  | inr e ↦
      rw (e, bit_and_mask 8 n)
        (omega (
          arith,
          from_le_bytes-significant_bytes fuel (n / 2 ^ 8) (omega (arith, pow-succ' 256 fuel)),
        ))
]

significant_bytes-IsByte : (fuel n : ℕ) → All IsByte (significant_bytes fuel n)
unfolding significant_bytes
significant_bytes-IsByte zero n = tt
significant_bytes-IsByte (suc fuel) n = elim (Bool-cases (n == 0)) [
  | inl e ↦ rw e tt
  | inr e ↦ rw e (omega (arith, bit_and_mask 8 n), significant_bytes-IsByte fuel (n / 2 ^ 8))
]

last_byte-append : (bs : List ℕ) (b : ℕ) → last_byte (bs ++ (b ∷ [])) ≡ b
last_byte-append [] b = refl
last_byte-append (x ∷ []) b = refl
last_byte-append (x ∷ y ∷ bs) b = last_byte-append (y ∷ bs) b

last_byte-IsByte : (bs : List ℕ) → All IsByte bs → last_byte bs < 256
last_byte-IsByte [] h = omega arith
last_byte-IsByte (b ∷ []) (p, h) = p
last_byte-IsByte (b ∷ c ∷ bs) (p, h) = last_byte-IsByte (c ∷ bs) h

low_half : (b : ℕ) → b < 256 → (bit_and b 0x80 == 0) ≡ true → b < 128
low_half b small h = ground (arith, bit_and_bit 7 b, h)

record Magnitude (height : ℕ) (bytes : List ℕ) : Type 0 where
  value : from_le_bytes bytes ≡ height
  proper : All IsByte bytes
  count : length bytes ≤ 4

abbrev raw_bytes : ℕ → List ℕ
raw_bytes height = if height == 0 then 0 ∷ [] else significant_bytes 4 height

raw_bytes-Magnitude : (height : ℕ) → height < 2 ^ 32 → Magnitude height (raw_bytes height)
unfolding from_le_bytes
raw_bytes-Magnitude height small = elim (Bool-cases (height == 0)) [
  | inl e ↦
      rw e (record { value = ground (arith, e); proper = (omega arith, tt); count = omega arith })
  | inr e ↦ rw e (record {
    value = from_le_bytes-significant_bytes 4 height small;
    proper = significant_bytes-IsByte 4 height;
    count = significant_bytes_count 4 height;
  })
]

record Unsigned (height : ℕ) (bytes : List ℕ) : Type 0 where
  value : from_le_bytes bytes ≡ height
  nonnegative : last_byte bytes < 0x80
  count : length bytes ≤ 5

keep_unsigned-Unsigned :
    (height : ℕ) (bytes : List ℕ) → Magnitude height bytes → Unsigned height (keep_unsigned bytes)
unfolding from_le_bytes
keep_unsigned-Unsigned height bytes m = elim (Bool-cases (bit_and (last_byte bytes) 0x80 == 0)) [
  | inl e ↦ rw e (record {
    value = m.value;
    nonnegative = low_half (last_byte bytes) (last_byte-IsByte bytes m.proper) e;
    count = omega (arith, m.count);
  })
  | inr e ↦ rw e (record {
    value = omega (arith, from_le_bytes-append bytes (0 ∷ []), m.value);
    nonnegative = omega (arith, last_byte-append bytes 0);
    count = omega (arith, length-append bytes (0 ∷ []), m.count);
  })
]

-- A 32-bit height is pushed as a length byte and at most five bytes that give the height back,
-- little-endian, the last of them below 0x80, so that no reader takes it for negative.
pub bip34_height_script_reads :
    (height : ℕ)
    → height < 2 ^ 32
    → (bytes : List ℕ) × (bip34_height_script height ≡ length bytes ∷ bytes)
      × (from_le_bytes bytes ≡ height)
      × (last_byte bytes < 0x80)
      × (length bytes ≤ 5)
unfolding bip34_height_script height_bytes
bip34_height_script_reads height small =
    let u = keep_unsigned-Unsigned height (raw_bytes height) (raw_bytes-Magnitude height small) in
    (
      height_bytes height,
      ap (λ n. n ∷ height_bytes height) (mod-eq_of_lt (omega (arith, u.count))),
      u.value,
      u.nonnegative,
      u.count,
    )
