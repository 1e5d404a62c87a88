-- ===== src/Template/State/Target.antt =====
-- The compact form of the target, as a number.
use native.Mathlib.Nat.{pow-succ', suc-add, zero-add}
use datum_rs.Common.{
  ℕ, zero, suc, ◌+◌, ◌-◌, ◌*◌, ◌/◌, ◌%◌, ◌^◌, ◌≤◌, ◌<◌, ◌≡◌, refl, ap, ◌∙◌, arith, replicate, set,
  leb, ltb, not, ◌||◌, true, false, ◌⊎◌, inl, inr, from_le_bytes, bit_and,
}
use datum_rs.Common.Bits.{bit_and_mask}
use datum_rs.Template.State.{expand_nbits}

from_le_bytes-zeros : (n : ℕ) → from_le_bytes (replicate n 0) ≡ 0
unfolding from_le_bytes
from_le_bytes-zeros zero = refl
from_le_bytes-zeros (suc n) = omega (arith, from_le_bytes-zeros n)

scale : (m p : ℕ) → 256 * (m * p) ≡ m * (256 * p)
scale m p = omega arith

-- Three bytes set in a run of zeros.
set_three :
    (base n a b c : ℕ)
    → base + 3 ≤ n
    → from_le_bytes (set (set (set (replicate n 0) base a) (base + 1) b) (base + 2) c)
      ≡ (a + 256 * b + 65536 * c) * 256 ^ base
unfolding from_le_bytes
set_three zero zero a b c h = absurd (omega arith)
set_three zero (suc zero) a b c h = absurd (omega arith)
set_three zero (suc (suc zero)) a b c h = absurd (omega arith)
set_three zero (suc (suc (suc n))) a b c h = omega (arith, from_le_bytes-zeros n)
set_three (suc base) zero a b c h = absurd (omega arith)
set_three (suc base) (suc n) a b c h =
    rw (suc-add base 1, suc-add base 2)
      (zero-add
          (256 * from_le_bytes (set (set (set (replicate n 0) base a) (base + 1) b) (base + 2) c))
        ∙ ap (λ x. 256 * x) (set_three base n a b c (omega arith))
        ∙ rw (pow-succ' 256 base) (scale (a + 256 * b + 65536 * c) (256 ^ base)))

-- Compact form that has an exponent of 3 to 32 stands for its mantissa, 24 bits, times 256 to the
-- exponent less three; any other stands for zero.
pub expand_nbits-value :
    (nbits : ℕ)
    → ((3 ≤ nbits / 2 ^ 24)
        → (nbits / 2 ^ 24 ≤ 32)
        → from_le_bytes (expand_nbits nbits) ≡ nbits % 2 ^ 24 * 256 ^ (nbits / 2 ^ 24 - 3))
      × ((nbits / 2 ^ 24 < 3) ⊎ (32 < nbits / 2 ^ 24) → from_le_bytes (expand_nbits nbits) ≡ 0)
unfolding expand_nbits
expand_nbits-value nbits = (
  λ lo hi.
      rw (inside lo hi, based lo hi)
        (set_three (nbits / 2 ^ 24 - 3) 32 lo_byte mid_byte hi_byte (omega (arith, hi, lo))
          ∙ ap (λ m. m * 256 ^ (nbits / 2 ^ 24 - 3)) bytes),
  λ out. rw (outside out) (from_le_bytes-zeros 32),
)
  where
    lo_byte : ℕ
    lo_byte = bit_and (bit_and nbits 0x00FFFFFF) 0xFF

    mid_byte : ℕ
    mid_byte = bit_and (bit_and nbits 0x00FFFFFF / 2 ^ 8) 0xFF

    hi_byte : ℕ
    hi_byte = bit_and (bit_and nbits 0x00FFFFFF / 2 ^ 16) 0xFF

    bytes : lo_byte + 256 * mid_byte + 65536 * hi_byte ≡ nbits % 2 ^ 24
    bytes = omega (
      arith,
      bit_and_mask 24 nbits,
      bit_and_mask 8 (bit_and nbits 0x00FFFFFF),
      bit_and_mask 8 (bit_and nbits 0x00FFFFFF / 2 ^ 8),
      bit_and_mask 8 (bit_and nbits 0x00FFFFFF / 2 ^ 16),
    )

    inside :
        3 ≤ nbits / 2 ^ 24
        → nbits / 2 ^ 24 ≤ 32
        → (not (leb 3 (nbits / 2 ^ 24)) || ltb 32 (nbits / 2 ^ 24)) ≡ false
    inside lo hi = ground (arith, lo, hi)

    based : 3 ≤ nbits / 2 ^ 24 → nbits / 2 ^ 24 ≤ 32 → ltb 32 (nbits / 2 ^ 24 - 3 + 3) ≡ false
    based lo hi = ground (arith, lo, hi)

    outside :
        (nbits / 2 ^ 24 < 3) ⊎ (32 < nbits / 2 ^ 24)
        → (not (leb 3 (nbits / 2 ^ 24)) || ltb 32 (nbits / 2 ^ 24)) ≡ true
    outside (inl h) = ground (arith, h)
    outside (inr h) = ground (arith, h)
