-- ===== src/Config/Floats.antt =====
-- Floating-point numbers as crates/datum-config/src/validate.rs uses them. A finite number of 64 bits is a
-- multiple of 2^-1074 and one of 32 bits a multiple of 2^-149: it is written as that multiple. The two
-- zeros, which no test tells apart, are one.
use datum_rs.Common.{
  ℕ, zero, suc, ◌+◌, ◌-◌, ◌*◌, ◌/◌, ◌%◌, ◌^◌, ◌<◌, ◌≤◌, ◌≡◌, ◌↔◌, refl, arith, Bool, true, false,
  not, ◌&&◌, ◌||◌, List, [], ◌∷◌, ltb, leb, ◌==◌, if◌then◌else◌,
}
use datum_rs.Config.Integers.{ℤ, pos, negsuc, less}

pub data Float : Type 0 where
  nan : Float
  infinite : (negative : Bool) → Float
  finite : (units : ℤ) → Float

-- The value 1.0 in 64 bits, the 64-bit number nearest to 1e-6, and the 32-bit number 10000.0.
abbrev pub one_units : ℕ
one_units = 2 ^ 1074

abbrev pub tolerance_units : ℕ
tolerance_units = 0x10C6F7A0B5ED8D * 2 ^ 1002

abbrev pub rate_max_units : ℕ
rate_max_units = 10000 * 2 ^ 149

-- `x < y`, `x <= y` and `x.is_finite()`.
abbrev pub below : Float → Float → Bool
below nan nan = false
below nan (infinite n) = false
below nan (finite y) = false
below (infinite m) nan = false
below (infinite m) (infinite n) = m && not n
below (infinite m) (finite y) = m
below (finite x) nan = false
below (finite x) (infinite n) = not n
below (finite x) (finite y) = less x y

abbrev pub is_nan : Float → Bool
is_nan nan = true
is_nan (infinite n) = false
is_nan (finite x) = false

abbrev pub at_most : Float → Float → Bool
at_most x y = not (is_nan x) && (not (is_nan y) && not (below y x))

abbrev pub is_finite : Float → Bool
is_finite nan = false
is_finite (infinite n) = false
is_finite (finite x) = true

abbrev pub magnitude : ℤ → ℕ
magnitude (pos n) = n
magnitude (negsuc n) = suc n

abbrev pub abs : Float → Float
abs nan = nan
abs (infinite n) = infinite false
abs (finite x) = finite (pos (magnitude x))

-- The number of binary digits, up to the fuel.
unfoldable pub bit_length : ℕ → ℕ → ℕ
bit_length zero m = 0
bit_length (suc fuel) m = let rest = bit_length fuel (m / 2) in if m == 0 then 0 else suc rest

-- To 53 digits, the nearest, and of two that are as near the even one.
unfoldable pub to_even : ℕ → ℕ → ℕ
to_even m dropped =
    let unit = 2 ^ dropped in
    let q = m / unit in
    let rest = 2 * (m % unit) in
    if ltb unit rest || ((rest == unit) && (q % 2 == 1)) then (q + 1) * unit else q * unit

-- Sums of two finite numbers have fewer than 2100 digits.
unfoldable pub rounded : ℕ → ℕ
unfolding bit_length to_even
rounded m = to_even m (bit_length 2100 m - 53)

abbrev pub signed : Bool → ℕ → ℤ
signed negative zero = pos 0
signed true (suc n) = negsuc n
signed false (suc n) = pos (suc n)

-- From 2^1024 on there are only the infinities.
unfoldable pub round : Bool → ℕ → Float
unfolding rounded
round negative m =
    if leb (2 ^ 2098) (rounded m) then infinite negative else finite (signed negative (rounded m))

-- The rounded difference of two magnitudes.
unfoldable pub round_difference : ℕ → ℕ → Float
unfolding round
round_difference a b = if ltb a b then round true (b - a) else round false (a - b)

abbrev pub opposite : ℤ → ℤ
opposite (pos n) = signed true n
opposite (negsuc n) = pos (suc n)

-- `x + y` and `x - y`.
unfoldable pub plus_finite : ℤ → ℤ → Float
unfolding round round_difference
plus_finite (pos a) (pos b) = round false (a + b)
plus_finite (pos a) (negsuc b) = round_difference a (suc b)
plus_finite (negsuc a) (pos b) = round_difference b (suc a)
plus_finite (negsuc a) (negsuc b) = round true (suc a + suc b)

abbrev pub plus : Float → Float → Float
plus nan y = nan
plus (infinite m) nan = nan
plus (infinite true) (infinite true) = infinite true
plus (infinite true) (infinite false) = nan
plus (infinite false) (infinite true) = nan
plus (infinite false) (infinite false) = infinite false
plus (infinite m) (finite y) = infinite m
plus (finite x) nan = nan
plus (finite x) (infinite n) = infinite n
plus (finite x) (finite y) = plus_finite x y

abbrev pub minus_units : Float → ℕ → Float
minus_units x n = plus x (finite (opposite (pos n)))

-- `values().sum()`.
abbrev pub sum_from : Float → List Float → Float
sum_from acc [] = acc
sum_from acc (x ∷ xs) = sum_from (plus acc x) xs

abbrev pub sum : List Float → Float
sum xs = sum_from (finite (pos 0)) xs

-- What the tests say of a number, in units.
abbrev pub IsNearZero : ℕ → Float → Type 0
IsNearZero tolerance nan = Unit
IsNearZero tolerance (infinite n) = ⊥
IsNearZero tolerance (finite x) = magnitude x ≤ tolerance

abbrev pub IsPositive : Float → Type 0
IsPositive nan = ⊥
IsPositive (infinite n) = ⊥
IsPositive (finite (pos n)) = 1 ≤ n
IsPositive (finite (negsuc n)) = ⊥

abbrev pub IsPositiveBelow : ℕ → Float → Type 0
IsPositiveBelow limit nan = ⊥
IsPositiveBelow limit (infinite n) = ⊥
IsPositiveBelow limit (finite (pos n)) = (1 ≤ n) × (n < limit)
IsPositiveBelow limit (finite (negsuc n)) = ⊥

pub IsNearZero-iff :
    (tolerance : ℕ) (x : Float)
    → (below (finite (pos tolerance)) (abs x) ≡ false) ↔ IsNearZero tolerance x
IsNearZero-iff t nan = (λ e. tt, λ h. refl)
IsNearZero-iff t (infinite n) = (λ e. cc, λ h. elim h [ ])
IsNearZero-iff t (finite x) = ground arith

pub IsPositive-iff :
    (x : Float) → ((not (is_finite x) || at_most x (finite (pos 0))) ≡ false) ↔ IsPositive x
IsPositive-iff nan = (λ e. cc, λ h. elim h [ ])
IsPositive-iff (infinite n) = (λ e. cc, λ h. elim h [ ])
IsPositive-iff (finite (pos n)) = ground arith
IsPositive-iff (finite (negsuc n)) = (λ e. cc, λ h. elim h [ ])

pub IsPositiveBelow-iff :
    (limit : ℕ) (x : Float)
    → ((not (is_finite x) || (at_most x (finite (pos 0)) || at_most (finite (pos limit)) x))
        ≡ false)
      ↔ IsPositiveBelow limit x
IsPositiveBelow-iff limit nan = (λ e. cc, λ h. elim h [ ])
IsPositiveBelow-iff limit (infinite n) = (λ e. cc, λ h. elim h [ ])
IsPositiveBelow-iff limit (finite (pos n)) = ground arith
IsPositiveBelow-iff limit (finite (negsuc n)) = (λ e. cc, λ h. elim h [ ])
