-- ===== src/ShareRelay/Target.antt =====
-- hash_meets_target of crates/datum-share-relay/src/share_encoder.rs, against the order of numbers.
use native.Mathlib.Nat.{mul-le-mul_left, mul-suc}
use datum_rs.Common.{
  ℕ, zero, suc, ◌+◌, ◌*◌, ◌^◌, ◌≤◌, ◌<◌, ◌≡◌, refl, sym, ap, ◌∙◌, arith, Bool, true, false, List,
  [], ◌∷◌, ◌++◌, length, take, take_all, append-nil, get_or, ltb, leb, if◌then◌else◌, from_le_bytes,
  from_le_bytes-append, from_le_bytes-lt, All, IsByte, length-take,
}

-- The bytes below index `i`, from the most significant one down.
unfoldable pub meets_below : ℕ → List ℕ → List ℕ → Bool
meets_below zero hash target = true
meets_below (suc i) hash target =
    let rest = meets_below i hash target in
    if ltb (get_or hash i 0) (get_or target i 0)
    then true
    else if ltb (get_or target i 0) (get_or hash i 0)
    then false
    else rest

unfoldable pub hash_meets_target : List ℕ → List ℕ → Bool
hash_meets_target hash target = meets_below 32 hash target

take-suc :
    (i : ℕ) (xs : List ℕ) → i < length xs → take (suc i) xs ≡ take i xs ++ (get_or xs i 0 ∷ [])
take-suc i [] h = absurd (omega arith)
take-suc zero (x ∷ xs) h = refl
take-suc (suc i) (x ∷ xs) h = ap (◌∷◌ x) (take-suc i xs (omega arith))

All-take : (i : ℕ) (xs : List ℕ) → All IsByte xs → All IsByte (take i xs)
All-take zero xs h = tt
All-take (suc i) [] h = tt
All-take (suc i) (x ∷ xs) (p, h) = (p, All-take i xs h)

-- A prefix as a number, its last byte taken off.
top_byte :
    (i : ℕ) (xs : List ℕ)
    → i < length xs
    → from_le_bytes (take (suc i) xs) ≡ from_le_bytes (take i xs) + 256 ^ i * get_or xs i 0
unfolding from_le_bytes
top_byte i xs h =
    rw
      (
        take-suc i xs h,
        from_le_bytes-append (take i xs) (get_or xs i 0 ∷ []),
        length-take i xs (omega arith),
      )
      (omega arith)

prefix-lt :
    (i : ℕ) (xs : List ℕ) → All IsByte xs → i ≤ length xs → from_le_bytes (take i xs) < 256 ^ i
prefix-lt i xs h le =
    ground (arith, from_le_bytes-lt (take i xs) (All-take i xs h), length-take i xs le)

leading :
    (p a b x y : ℕ)
    → a < p
    → b < p
    → (x < y → a + p * x ≤ b + p * y) × (y < x → b + p * y < a + p * x)
leading p a b x y ha hb = (
  λ h. grind (arith, mul-le-mul_left p h, mul-suc p x),
  λ h. grind (arith, mul-le-mul_left p h, mul-suc p y),
)

meets_below-le :
    (i : ℕ) (hash target : List ℕ)
    → All IsByte hash
    → All IsByte target
    → i ≤ length hash
    → i ≤ length target
    → meets_below i hash target ≡ leb (from_le_bytes (take i hash)) (from_le_bytes (take i target))
unfolding meets_below from_le_bytes
meets_below-le zero hash target hb tb hl tl = refl
meets_below-le (suc i) hash target hb tb hl tl =
    rw (top_byte i hash hl, top_byte i target tl)
      (ground (
        arith,
        meets_below-le i hash target hb tb (omega arith) (omega arith),
        prefix-lt i hash hb (omega arith),
        prefix-lt i target tb (omega arith),
        leading (256 ^ i) (from_le_bytes (take i hash)) (from_le_bytes (take i target))
            (get_or hash i 0) (get_or target i 0),
        leading (256 ^ i) (from_le_bytes (take i target)) (from_le_bytes (take i hash))
            (get_or target i 0) (get_or hash i 0),
      ))

-- For a hash and a target of 32 bytes, the code's comparison byte by byte from the end is the order of
-- the two as little-endian numbers: the hash meets the target where it is at most the target.
pub hash_meets_target-leb :
    (hash target : List ℕ)
    → All IsByte hash
    → All IsByte target
    → length hash ≡ 32
    → length target ≡ 32
    → hash_meets_target hash target ≡ leb (from_le_bytes hash) (from_le_bytes target)
unfolding hash_meets_target
hash_meets_target-leb hash target hb tb hl tl =
    meets_below-le 32 hash target hb tb (omega (arith, hl)) (omega (arith, tl))
    ∙ rw (whole hash hl, whole target tl) refl
  where
    whole : (xs : List ℕ) → length xs ≡ 32 → take 32 xs ≡ xs
    whole xs h = rw (← h) (ap (take (length xs)) (sym (append-nil xs)) ∙ take_all xs [])
