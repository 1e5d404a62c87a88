-- ===== src/Common/Bits.antt =====
-- The bit operations as arithmetic, at every width.
use Prim.Native.Nat.{
  ℕ, zero, suc, ◌+◌, ◌-◌, ◌*◌, ◌/◌, ◌%◌, ◌^◌, ◌≤◌, ◌<◌, min, max, differ, digits, bitwise,
}
use Prim.Native.Nat.{bit_and, bit_or, bit_xor, bit_and-bitwise, bit_or-bitwise, bit_xor-bitwise}
use mathlib.Core.Path.{◌≡◌, refl, ap, sym, ◌∙◌}
use native.Mathlib.Nat.{pow-succ', one-le-pow, le_refl, div-add-mod, div-div-eq-div-mul}
use native.Mathlib.Omega.{arith}

-- More fuel than digits makes no difference.
more_fuel :
    (z : ℕ → ℕ) (f : ℕ → ℕ → ℕ) (n k a b : ℕ) → a ≤ n → digits z f (n + k) a b ≡ digits z f n a b
more_fuel z f n k zero b h = at_zero (n + k) ∙ sym (at_zero n)
  where
    at_zero : (m : ℕ) → digits z f m 0 b ≡ z b
    at_zero zero = refl
    at_zero (suc m) = refl
more_fuel z f zero k (suc a) b h = absurd (omega arith)
more_fuel z f (suc n) k (suc a) b h =
    rw (succ_add) (rw (more_fuel z f n k (suc a / 2) (b / 2) (omega arith)))
  where
    succ_add : suc n + k ≡ suc (n + k)
    succ_add = omega arith

-- A native operation that means `bitwise`, opened at its lowest digit.
low_digit :
    (z : ℕ → ℕ) (f op : ℕ → ℕ → ℕ)
    → ((a b : ℕ) → op a b ≡ bitwise z f a b)
    → ((b : ℕ) → z b ≡ f 0 (b % 2) + 2 * z (b / 2))
    → (a b : ℕ) → op a b ≡ f (a % 2) (b % 2) + 2 * op (a / 2) (b / 2)
low_digit z f op means base zero b = omega (arith, means 0 b, means 0 (b / 2), base b)
low_digit z f op means base (suc a) b =
    omega (arith, means (suc a) b, means (suc a / 2) (b / 2), enough)
  where
    half : ℕ
    half = suc a / 2

    restored : half + (a - half) ≡ a
    restored = omega arith

    enough : digits z f a half (b / 2) ≡ digits z f half half (b / 2)
    enough = rw restored at (more_fuel z f half (a - half) half (b / 2) (le_refl half))

pub bit_or_low : (a b : ℕ) → bit_or a b ≡ max (a % 2) (b % 2) + 2 * bit_or (a / 2) (b / 2)
bit_or_low = low_digit (λ y. y) max bit_or bit_or-bitwise (λ b. omega arith)

pub bit_and_low : (a b : ℕ) → bit_and a b ≡ min (a % 2) (b % 2) + 2 * bit_and (a / 2) (b / 2)
bit_and_low = low_digit (λ y. 0) min bit_and bit_and-bitwise (λ b. omega arith)

pub bit_xor_low : (a b : ℕ) → bit_xor a b ≡ differ (a % 2) (b % 2) + 2 * bit_xor (a / 2) (b / 2)
bit_xor_low =
    low_digit (λ y. y) differ bit_xor bit_xor-bitwise (λ b. omega (arith, differ_zero (b % 2)))
  where
    differ_zero : (y : ℕ) → differ 0 y ≡ y
    differ_zero y = refl

double_pow : (q k : ℕ) → q * 2 ^ suc k ≡ 2 * (q * 2 ^ k)
double_pow q k = omega (arith, ap (λ (t : ℕ). q * t) (pow-succ' 2 k))

below_pow : (a : ℕ) → a < 2 ^ a
below_pow zero = omega arith
below_pow (suc a) = omega (arith, below_pow a, pow-succ' 2 a)

-- Zero on the right, for a number of `k` bits.
or_nothing : (k a : ℕ) → a < 2 ^ k → bit_or a 0 ≡ a
or_nothing zero zero h = refl
or_nothing zero (suc a) h = absurd (omega arith)
or_nothing (suc k) a h =
    omega (arith, bit_or_low a 0, or_nothing k (a / 2) (omega (arith, h, pow-succ' 2 k)))

and_nothing : (k a : ℕ) → a < 2 ^ k → bit_and a 0 ≡ 0
and_nothing zero zero h = refl
and_nothing zero (suc a) h = absurd (omega arith)
and_nothing (suc k) a h =
    omega (arith, bit_and_low a 0, and_nothing k (a / 2) (omega (arith, h, pow-succ' 2 k)))

pub bit_or-zero : (a : ℕ) → bit_or a 0 ≡ a
bit_or-zero a = or_nothing a a (below_pow a)

bit_and-zero : (a : ℕ) → bit_and a 0 ≡ 0
bit_and-zero a = and_nothing a a (below_pow a)

zero-bit_or : (b : ℕ) → bit_or 0 b ≡ b
zero-bit_or b = bit_or-bitwise 0 b

-- A shift by one more bit.
pub div_pow : (k a : ℕ) → a / 2 ^ suc k ≡ a / 2 / 2 ^ k
div_pow k a = rw (pow-succ' 2 k) (sym (div-div-eq-div-mul a 2 (2 ^ k)))

half_pow : (q k : ℕ) → q * 2 ^ suc k / 2 ≡ q * 2 ^ k
half_pow q k = omega (arith, double_pow q k)

split_mod : (k a : ℕ) → a % 2 ^ suc k ≡ a / 2 % 2 ^ k * 2 + a % 2
split_mod k a = omega (
  arith,
  div-add-mod a (2 ^ suc k),
  div-add-mod (a / 2) (2 ^ k),
  ap (λ (t : ℕ). 2 ^ suc k * t) (div_pow k a),
  double_pow (a / 2 / 2 ^ k) k,
)

-- `lo | (q << k)` is a sum when `lo` fits `k` bits.
pub bit_or_disjoint : (k lo q : ℕ) → lo < 2 ^ k → bit_or lo (q * 2 ^ k) ≡ lo + q * 2 ^ k
bit_or_disjoint zero zero q h = omega (arith, zero-bit_or (q * 2 ^ 0))
bit_or_disjoint zero (suc lo) q h = absurd (omega arith)
bit_or_disjoint (suc k) lo q h = omega (
  arith,
  bit_or_low lo (q * 2 ^ suc k),
  double_pow q k,
  pow-succ' 2 k,
  ap (λ (t : ℕ). bit_or (lo / 2) t) (half_pow q k),
  bit_or_disjoint k (lo / 2) q (omega (arith, pow-succ' 2 k)),
)

-- A mask of `k` low bits is the remainder by `2 ^ k`.
pub bit_and_mask : (k a : ℕ) → bit_and a (2 ^ k - 1) ≡ a % 2 ^ k
bit_and_mask zero a = omega (arith, bit_and-zero a)
bit_and_mask (suc k) a =
    rw (bit_and_low a, half, low) (omega (arith, bit_and_mask k (a / 2), split_mod k a))
  where
    half : (2 ^ suc k - 1) / 2 ≡ 2 ^ k - 1
    half = omega (arith, pow-succ' 2 k, one-le-pow k 2 (omega arith))

    low : (2 ^ suc k - 1) % 2 ≡ 1
    low = omega (arith, pow-succ' 2 k, one-le-pow k 2 (omega arith))

-- Testing one bit.
pub bit_and_bit : (k a : ℕ) → bit_and a (2 ^ k) ≡ a / 2 ^ k % 2 * 2 ^ k
bit_and_bit zero a = omega (arith, bit_and_low a 1, bit_and-zero (a / 2))
bit_and_bit (suc k) a = omega (
  arith,
  bit_and_low a (2 ^ suc k),
  pow-succ' 2 k,
  ap (λ (t : ℕ). bit_and (a / 2) t) half,
  bit_and_bit k (a / 2),
  ap (λ (t : ℕ). t % 2 * 2 ^ suc k) (div_pow k a),
  double_pow (a / 2 / 2 ^ k % 2) k,
)
  where
    half : 2 ^ suc k / 2 ≡ 2 ^ k
    half = omega (arith, pow-succ' 2 k)

-- A mask that stands `k` bits up.
pub bit_and_shifted : (k a q : ℕ) → bit_and a (q * 2 ^ k) ≡ bit_and (a / 2 ^ k) q * 2 ^ k
bit_and_shifted zero a q =
    omega (arith, ap (λ (t : ℕ). bit_and a t) times_one, ap (λ (t : ℕ). bit_and t q) by_one)
  where
    times_one : q * 2 ^ 0 ≡ q
    times_one = omega arith

    by_one : a / 2 ^ 0 ≡ a
    by_one = omega arith
bit_and_shifted (suc k) a q = omega (
  arith,
  bit_and_low a (q * 2 ^ suc k),
  double_pow q k,
  ap (λ (t : ℕ). bit_and (a / 2) t) (half_pow q k),
  bit_and_shifted k (a / 2) q,
  ap (λ (t : ℕ). bit_and t q * 2 ^ suc k) (div_pow k a),
  double_pow (bit_and (a / 2 / 2 ^ k) q) k,
)

differ_lt : (x y : ℕ) → x < 2 → y < 2 → differ x y < 2
differ_lt zero y h k = k
differ_lt (suc zero) zero h k = h
differ_lt (suc zero) (suc y) h k = omega arith
differ_lt (suc (suc x)) y h k = absurd (omega arith)

differ_twice : (x y : ℕ) → x < 2 → y < 2 → differ (differ x y) y ≡ x
differ_twice zero zero h k = refl
differ_twice zero (suc zero) h k = refl
differ_twice zero (suc (suc y)) h k = absurd (omega arith)
differ_twice (suc zero) zero h k = refl
differ_twice (suc zero) (suc zero) h k = refl
differ_twice (suc zero) (suc (suc y)) h k = absurd (omega arith)
differ_twice (suc (suc x)) y h k = absurd (omega arith)

pub bit_xor-lt : (k a b : ℕ) → a < 2 ^ k → b < 2 ^ k → bit_xor a b < 2 ^ k
bit_xor-lt zero zero zero h p = omega (arith)
bit_xor-lt zero zero (suc b) h p = absurd (omega arith)
bit_xor-lt zero (suc a) b h p = absurd (omega arith)
bit_xor-lt (suc k) a b h p = omega (
  arith,
  bit_xor_low a b,
  pow-succ' 2 k,
  differ_lt (a % 2) (b % 2) (omega arith) (omega arith),
  bit_xor-lt k (a / 2) (b / 2) (omega (arith, pow-succ' 2 k)) (omega (arith, pow-succ' 2 k)),
)

pub bit_or-lt : (k a b : ℕ) → a < 2 ^ k → b < 2 ^ k → bit_or a b < 2 ^ k
bit_or-lt zero a b h p = omega (arith, ap (λ (t : ℕ). bit_or t b) (none_of a h), zero-bit_or b)
  where
    none_of : (n : ℕ) → n < 2 ^ 0 → n ≡ 0
    none_of n q = omega (arith, q)
bit_or-lt (suc k) a b h p = omega (
  arith,
  bit_or_low a b,
  pow-succ' 2 k,
  bit_or-lt k (a / 2) (b / 2) (omega (arith, pow-succ' 2 k)) (omega (arith, pow-succ' 2 k)),
)

-- The same key twice gives the word back.
pub bit_xor_twice : (k a b : ℕ) → a < 2 ^ k → b < 2 ^ k → bit_xor (bit_xor a b) b ≡ a
bit_xor_twice zero zero zero h p = refl
bit_xor_twice zero zero (suc b) h p = absurd (omega arith)
bit_xor_twice zero (suc a) b h p = absurd (omega arith)
bit_xor_twice (suc k) a b h p = omega (
  arith,
  bit_xor_low (bit_xor a b) b,
  step,
  bound,
  ap (λ (t : ℕ). bit_xor t (b / 2)) half,
  bit_xor_twice k (a / 2) (b / 2) (omega (arith, pow-succ' 2 k)) (omega (arith, pow-succ' 2 k)),
  ap (λ (t : ℕ). differ t (b % 2)) odd,
  differ_twice (a % 2) (b % 2) (omega arith) (omega arith),
)
  where
    step : bit_xor a b ≡ differ (a % 2) (b % 2) + 2 * bit_xor (a / 2) (b / 2)
    step = bit_xor_low a b

    bound : differ (a % 2) (b % 2) < 2
    bound = differ_lt (a % 2) (b % 2) (omega arith) (omega arith)

    half : bit_xor a b / 2 ≡ bit_xor (a / 2) (b / 2)
    half = omega (arith, step, bound)

    odd : bit_xor a b % 2 ≡ differ (a % 2) (b % 2)
    odd = omega (arith, step, bound)

-- A mask applied twice is the mask applied once.
masked_twice : (k a b : ℕ) → a < 2 ^ k → bit_and (bit_and a b) b ≡ bit_and a b
masked_twice zero zero b h = rw (bit_and-bitwise 0 b) (bit_and-bitwise 0 b)
masked_twice zero (suc a) b h = absurd (omega arith)
masked_twice (suc k) a b h = omega (
  arith,
  bit_and_low (bit_and a b) b,
  bit_and_low a b,
  ap (λ (t : ℕ). bit_and t (b / 2)) half,
  masked_twice k (a / 2) (b / 2) (omega (arith, pow-succ' 2 k)),
)
  where
    half : bit_and a b / 2 ≡ bit_and (a / 2) (b / 2)
    half = omega (arith, bit_and_low a b)

pub bit_and_twice : (a b : ℕ) → bit_and (bit_and a b) b ≡ bit_and a b
bit_and_twice a b = masked_twice a a b (below_pow a)

-- The bits of a number under a mask, and those outside of it, make up the number.
pub bit_and_complement :
    (k a m : ℕ) → a < 2 ^ k → m < 2 ^ k → bit_and a m + bit_and a (2 ^ k - 1 - m) ≡ a
bit_and_complement zero zero m h p =
    omega (arith, bit_and-bitwise 0 m, bit_and-bitwise 0 (2 ^ 0 - 1 - m))
bit_and_complement zero (suc a) m h p = absurd (omega arith)
bit_and_complement (suc k) a m h p = omega (
  arith,
  bit_and_low a m,
  bit_and_low a (2 ^ suc k - 1 - m),
  ap (λ (t : ℕ). bit_and (a / 2) t) half,
  low,
  bit_and_complement k (a / 2) (m / 2) (omega (arith, pow-succ' 2 k))
      (omega (arith, pow-succ' 2 k)),
)
  where
    half : (2 ^ suc k - 1 - m) / 2 ≡ 2 ^ k - 1 - m / 2
    half = omega (arith, pow-succ' 2 k)

    low : (2 ^ suc k - 1 - m) % 2 ≡ 1 - m % 2
    low = omega (arith, pow-succ' 2 k)

masked_within : (k a m p : ℕ) → a < 2 ^ k → bit_and m p ≡ m → bit_and (bit_and a m) p ≡ bit_and a m
masked_within zero zero m p h e = rw (bit_and-bitwise 0 m) (bit_and-bitwise 0 p)
masked_within zero (suc a) m p h e = absurd (omega arith)
masked_within (suc k) a m p h e = omega (
  arith,
  bit_and_low (bit_and a m) p,
  bit_and_low a m,
  bit_and_low m p,
  ap (λ (t : ℕ). bit_and t (p / 2)) half,
  masked_within k (a / 2) (m / 2) (p / 2) (omega (arith, pow-succ' 2 k))
      (omega (arith, e, bit_and_low m p)),
)
  where
    half : bit_and a m / 2 ≡ bit_and (a / 2) (m / 2)
    half = omega (arith, bit_and_low a m)

-- A number under a mask that lies within another lies within the other too.
pub bit_and_within : (a m p : ℕ) → bit_and m p ≡ m → bit_and (bit_and a m) p ≡ bit_and a m
bit_and_within a m p e = masked_within a a m p (below_pow a) e
