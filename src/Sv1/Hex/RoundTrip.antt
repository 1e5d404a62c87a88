-- ===== src/Sv1/Hex/RoundTrip.antt =====
-- A 32-bit number printed as eight digits and read again: crates/datum-stratum-sv1/src/server.rs.
use native.Mathlib.Nat.{div-add-mod, div-div-eq-div-mul, pow-succ', one-le-pow, mul-le-mul_left}
use datum_rs.Common.{
  ℕ, zero, suc, ◌+◌, ◌*◌, ◌/◌, ◌%◌, ◌^◌, ◌<◌, ◌≡◌, ◌∙◌, ap, arith, ◌&&◌, false, ◌==◌, lt→ltb, some,
}
use datum_rs.Sv1.Hex.{hex_digit, hex_fixed, format_08x, to_digit, from_digits, parse_u32_hex}

to_digit-hex_digit : (d : ℕ) → d < 16 → to_digit (hex_digit d) ≡ some d
to_digit-hex_digit d h = ground (arith, h)

-- The remainder by `16 * p` is one digit on top of the remainder by `p`.
one_more_digit : (p v : ℕ) → v % (p * 16) ≡ v / p % 16 * p + v % p
one_more_digit p v = omega (
  arith,
  div-add-mod v (p * 16),
  div-add-mod v p,
  ap (λ (t : ℕ). p * t) (div-add-mod (v / p) 16),
  ap (λ (t : ℕ). p * 16 * t) (div-div-eq-div-mul v p 16),
)

pow_sixteen : (w : ℕ) → 16 ^ suc w ≡ 16 ^ w * 16
pow_sixteen w = omega (arith, pow-succ' 16 w)

-- The digits read on top of `acc`, where the number fits 32 bits.
pub from_digits-hex_fixed :
    (w acc v : ℕ)
    → acc * 16 ^ w + v % 16 ^ w < 2 ^ 32
    → from_digits acc (hex_fixed w v) ≡ some (acc * 16 ^ w + v % 16 ^ w)
from_digits-hex_fixed zero acc v h = ap some (omega arith)
from_digits-hex_fixed (suc w) acc v h =
    rw (to_digit-hex_digit digit (omega arith), lt→ltb (acc * 16 + digit) (2 ^ 32) fits)
      (rw same (from_digits-hex_fixed w (acc * 16 + digit) v (rw same at h)))
  where
    digit : ℕ
    digit = v / 16 ^ w % 16

    same : acc * 16 ^ suc w + v % 16 ^ suc w ≡ (acc * 16 + digit) * 16 ^ w + v % 16 ^ w
    same = omega (
      arith,
      one_more_digit (16 ^ w) v,
      ap (λ (t : ℕ). v % t) (pow_sixteen w),
      ap (λ (t : ℕ). acc * t) (pow_sixteen w),
    )

    fits : acc * 16 + digit < 2 ^ 32
    fits =
        omega (arith, same, h, mul-le-mul_left (acc * 16 + digit) (one-le-pow w 16 (omega arith)))

pub not_plus : (d : ℕ) → d < 16 → (hex_digit d == 43) ≡ false
not_plus d h = ground (arith, h)

pub not_x : (d a : ℕ) → d < 16 → ((a == 48) && (hex_digit d == 120)) ≡ false
not_x d a h = ground (arith, h)

-- A 32-bit number printed as eight hexadecimal digits, as a version mask is for the miner, is read back as
-- that number.
pub parse_u32_hex-format_08x : (v : ℕ) → v < 2 ^ 32 → parse_u32_hex (format_08x v) ≡ some v
unfolding parse_u32_hex
parse_u32_hex-format_08x v h =
    rw
      (
        not_x (v / 16777216 % 16) (hex_digit (v / 268435456 % 16)) (omega arith),
        not_plus (v / 268435456 % 16) (omega arith),
      )
      (from_digits-hex_fixed 8 0 v (omega arith) ∙ ap some (omega arith))
