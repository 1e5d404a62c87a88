-- ===== src/Config/Integers.antt =====
-- Signed integers over the native numbers, for the `i32` and `i64` of crates/datum-config/src/validate.rs.
use mathlib.Core.Bool.{true≢false}
use datum_rs.Common.{
  ℕ, zero, suc, ◌+◌, ◌-◌, ◌*◌, ◌^◌, ◌≤◌, ◌≡◌, ◌↔◌, refl, arith, min, Bool, true, false, ltb,
  if◌then◌else◌,
}

pub data ℤ : Type 0 where
  pos : ℕ → ℤ
  negsuc : ℕ → ℤ

-- `x < y`.
abbrev pub less : ℤ → ℤ → Bool
less (pos a) (pos b) = ltb a b
less (pos a) (negsuc b) = false
less (negsuc a) (pos b) = true
less (negsuc a) (negsuc b) = ltb b a

infix 50 ◌≤ℤ◌
abbrev pub ◌≤ℤ◌ : ℤ → ℤ → Type 0
pos a ≤ℤ pos b = a ≤ b
pos a ≤ℤ negsuc b = ⊥
negsuc a ≤ℤ pos b = Unit
negsuc a ≤ℤ negsuc b = b ≤ a

abbrev negated : ℕ → ℤ
negated zero = pos 0
negated (suc n) = negsuc n

infixl 70 ◌*ℤ◌
abbrev pub ◌*ℤ◌ : ℤ → ℤ → ℤ
pos a *ℤ pos b = pos (a * b)
pos a *ℤ negsuc b = negated (a * suc b)
negsuc a *ℤ pos b = negated (suc a * b)
negsuc a *ℤ negsuc b = pos (suc a * suc b)

-- `saturating_add` of a number that is not negative, on `i32`.
abbrev pub saturating_add : ℤ → ℕ → ℤ
saturating_add (pos a) n = pos (min (a + n) (2 ^ 31 - 1))
saturating_add (negsuc a) n = if ltb a n then pos (n - suc a) else negsuc (a - n)

pub less_iff : (x y : ℤ) → (less x y ≡ false) ↔ (y ≤ℤ x)
less_iff (pos a) (pos b) = ground arith
less_iff (pos a) (negsuc b) = (λ e. tt, λ t. refl)
less_iff (negsuc a) (pos b) = (λ e. true≢false e, elim [ ])
less_iff (negsuc a) (negsuc b) = ground arith
