-- ===== src/Config/Conditions.antt =====
-- The single conditions of crates/datum-config/src/validate.rs, each as a Boolean test and as a statement.
use native.Mathlib.Nat.{pow-le-pow_right, one-le-pow, pow-succ'}
use mathlib.Core.Bool.{true≢false}
use mathlib.Core.List.{cons≢nil}
use datum_rs.Common.{
  ℕ, suc, ◌^◌, ◌≤◌, ◌≡◌, ◌↔◌, inl, inr, refl, sym, ap, ◌∙◌, arith, Bool, true, false, not, ◌&&◌,
  List, [], ◌∷◌, ◌++◌, ltb, ◌==◌, Bool-cases, ltb→lt, ◌<◌, ==_iff,
}
use datum_rs.ShareRelay.Encoder.{floor_pot}
use datum_rs.ShareRelay.Encoder.Header.{floor_pot-log2}
use datum_rs.Config.Integers.{ℤ, pos, ◌≤ℤ◌, less_iff}
use datum_rs.Config.Validate.{is_empty, is_power_of_two, outside}

abbrev pub HasText : List ℕ → Type 0
HasText s = is_empty s ≡ false

abbrev pub IsWithin : ℕ → ℕ → ℤ → Type 0
IsWithin lo hi x = (pos lo ≤ℤ x) × (x ≤ℤ pos hi)

pub outside_iff : (lo hi : ℕ) (x : ℤ) → (outside lo hi x ≡ false) ↔ IsWithin lo hi x
outside_iff lo hi x = (
  λ e. ((less_iff x (pos lo)).0 (ground (arith, e)), (less_iff (pos hi) x).0 (ground (arith, e))),
  λ h. rw ((less_iff x (pos lo)).1 h.0, (less_iff (pos hi) x).1 h.1) refl,
)

pub append-nil_iff : {A : Type 0} (xs ys : List A) → (xs ++ ys ≡ []) ↔ ((xs ≡ []) × (ys ≡ []))
append-nil_iff [] ys = (λ e. (refl, e), λ h. h.1)
append-nil_iff (x ∷ xs) ys = (λ e. absurd (cons≢nil e), λ h. absurd (cons≢nil h.0))

-- A power of two, with its exponent.
abbrev pub IsPowerOfTwo : ℕ → Type 0
IsPowerOfTwo n = (k : ℕ) × (n ≡ 2 ^ k)

-- Equivalences hold of a pair part by part.
pub pair_iff : {A B C D : Type 0} → A ↔ C → B ↔ D → (A × B) ↔ (C × D)
pair_iff f g = (λ h. (f.0 h.0, g.0 h.1), λ h. (f.1 h.0, g.1 h.1))

pub then_iff : {A B C : Type 0} → A ↔ B → B ↔ C → A ↔ C
then_iff f g = (λ a. g.0 (f.0 a), λ c. f.1 (g.1 c))

pub both_iff :
    {A P Q : Type 0} (xs ys : List A) → (xs ≡ []) ↔ P → (ys ≡ []) ↔ Q → (xs ++ ys ≡ []) ↔ (P × Q)
both_iff xs ys f g = then_iff (append-nil_iff xs ys) (pair_iff f g)

pub at_most_iff : (n hi : ℕ) → (ltb hi n ≡ false) ↔ (n ≤ hi)
at_most_iff n hi = ground arith

-- `!a || !b`, where `a && b` is the complaint.
pub unless_iff :
    (a : Bool) (text : List ℕ) → ((a && is_empty text) ≡ false) ↔ (a ≡ true → HasText text)
unless_iff true text = (λ e t. e, λ h. h refl)
unless_iff false text = (λ e t. absurd (true≢false (sym t)), λ h. refl)

pub not_iff : (b : Bool) → (not b ≡ false) ↔ (b ≡ true)
not_iff true = (λ e. refl, λ e. refl)
not_iff false = (λ e. absurd (true≢false e), λ e. absurd (true≢false (sym e)))

pub exponent_of : (n k : ℕ) → n < 2 ^ 64 → n ≡ 2 ^ k → floor_pot n ≡ k
exponent_of n k small e = elim (Bool-cases (ltb (floor_pot n) k)) [
  | inl under ↦ absurd (
      omega (
        arith,
        bounds.1,
        e,
        pow-le-pow_right {n = 2} (omega arith) {i = suc (floor_pot n)} {j = k}
            (ltb→lt (floor_pot n) k under),
      ))
  | inr above ↦ elim (Bool-cases (ltb k (floor_pot n))) [
    | inl over ↦ absurd (
        omega (
          arith,
          bounds.0,
          e,
          one-le-pow k 2 (omega arith),
          pow-succ' 2 k,
          pow-le-pow_right {n = 2} (omega arith) {i = suc k} {j = floor_pot n}
              (ltb→lt k (floor_pot n) over),
        ))
    | inr equal ↦ ground (arith, above, equal)
  ]
]
  where
    bounds : (2 ^ floor_pot n ≤ n) × (n < 2 ^ suc (floor_pot n))
    bounds = (floor_pot-log2 n small).0 (omega (arith, e, one-le-pow k 2 (omega arith)))

pub power_iff : (n : ℕ) → n < 2 ^ 64 → ((1 ≤ n) × (is_power_of_two n ≡ true)) ↔ IsPowerOfTwo n
power_iff n small = (
  λ h. (floor_pot n, sym ((==_iff (2 ^ floor_pot n) n).0 (ground (arith, h.1)))),
  λ (k, e). (omega (arith, e, one-le-pow k 2 (omega arith)), test k e),
)
  where
    test : (k : ℕ) → n ≡ 2 ^ k → is_power_of_two n ≡ true
    test k e =
        rw
          (
            (==_iff (2 ^ floor_pot n) n).1
                (ap (λ (t : ℕ). 2 ^ t) (exponent_of n k small e) ∙ sym e),
            nonzero k e,
          )
          refl
      where
        nonzero : (k : ℕ) → n ≡ 2 ^ k → (n == 0) ≡ false
        nonzero k e = ground (arith, e, one-le-pow k 2 (omega arith))
