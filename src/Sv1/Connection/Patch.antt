-- ===== src/Sv1/Connection/Patch.antt =====
-- The PoT byte in the hexadecimal coinb1 and in the bytes kept of it: patch_coinb1_pot_byte and
-- patch_coinb1_bytes of crates/datum-stratum-sv1/src/server.rs.
use mathlib.Core.Option.{none-ne-some}
use datum_rs.Common.{
  ℕ, zero, suc, ◌+◌, ◌*◌, ◌<◌, ◌≡◌, refl, ap, inl, inr, arith, true, false, Bool-cases, List, [],
  ◌∷◌, ◌++◌, length, get_elem?, set, take, drop, ltb, ◌==◌, Option, some, ltb→lt,
}
use datum_rs.ShareRelay.Encoder.{floor_pot}
use datum_rs.Sv1.{patch_coinb1_bytes}
use datum_rs.Sv1.Hex.{hex_fixed, hex_bytes, and_then}
use datum_rs.Sv1.Connection.{Json}
use datum_rs.Sv1.Connection.Requests.{patch_coinb1_pot_byte}

get_elem?-set {ℓ} :
    {A : Type ℓ} (xs : List A) (i : ℕ) (v w : A)
    → get_elem? xs i ≡ some v
    → get_elem? (set xs i w) i ≡ some w
get_elem?-set [] i v w h = absurd (none-ne-some v h)
get_elem?-set (x ∷ xs) zero v w h = refl
get_elem?-set (x ∷ xs) (suc i) v w h = get_elem?-set xs i v w h

length-hex_bytes : (bs : List ℕ) → length (hex_bytes bs) ≡ length bs * 2
length-hex_bytes [] = refl
length-hex_bytes (b ∷ bs) = omega (arith, length-hex_bytes bs)

hex_bytes-set :
    (bs : List ℕ) (i b : ℕ)
    → i < length bs
    → hex_bytes (set bs i b)
      ≡ take (i * 2) (hex_bytes bs) ++ hex_fixed 2 b ++ drop (i * 2 + 2) (hex_bytes bs)
hex_bytes-set [] i b h = absurd (omega arith)
hex_bytes-set (x ∷ bs) zero b h = refl
hex_bytes-set (x ∷ bs) (suc i) b h =
    rw (twice, twice_more) (ap (λ t. hex_fixed 2 x ++ t) (hex_bytes-set bs i b (omega arith)))
  where
    twice : suc i * 2 ≡ suc (suc (i * 2))
    twice = omega arith

    twice_more : suc (suc (i * 2)) + 2 ≡ suc (suc (i * 2 + 2))
    twice_more = omega arith

module _ (json : Json) where
  -- The coinb1 among the params of a notification.
  abbrev pub coinb1_of : json.Value → Option (List ℕ)
  coinb1_of params = and_then (json.as_array params) (λ arr. and_then (get_elem? arr 2) json.as_str)

  -- Where the third of the params is the hexadecimal form of the job's coinb1, the third of the patched
  -- params is the hexadecimal form of the patched coinb1 that is kept for the job, at every index and
  -- difficulty. JSON gives back the array and the string that it was made from.
  pub patch_coinb1_pot_byte-hex_bytes :
      ((a : List json.Value) → json.as_array (json.array a) ≡ some a)
      → ((s : List ℕ) → json.as_str (json.string s) ≡ some s)
      → (params v : json.Value) (arr : List json.Value) (coinb1_bin : List ℕ)
        (target_pot_index current_diff : ℕ)
      → json.as_array params ≡ some arr
      → get_elem? arr 2 ≡ some v
      → json.as_str v ≡ some (hex_bytes coinb1_bin)
      → coinb1_of (patch_coinb1_pot_byte json params target_pot_index current_diff)
        ≡ some (hex_bytes (patch_coinb1_bytes coinb1_bin target_pot_index current_diff))
  unfolding patch_coinb1_pot_byte patch_coinb1_bytes
  patch_coinb1_pot_byte-hex_bytes array_back string_back params v arr bs i d a g s =
      elim (Bool-cases (i == 0)) [
        | inl is ↦ rw (is, a, g, s) refl
        | inr off ↦ elim (Bool-cases (ltb i (length bs))) [
          | inl fits ↦
              rw
                (
                  off,
                  a,
                  g,
                  s,
                  fits,
                  short fits,
                  array_back,
                  get_elem?-set arr 2 v (json.string (taken_apart i d)) g,
                  string_back,
                  hex_bytes-set bs i (floor_pot d) (ltb→lt i (length bs) fits),
                )
                refl
          | inr beyond ↦ rw (off, a, g, s, beyond, long beyond, a, g, s) refl
        ]
      ]
    where
      taken_apart : ℕ → ℕ → List ℕ
      taken_apart i d =
          take (i * 2) (hex_bytes bs)
          ++ hex_fixed 2 (floor_pot d)
          ++ drop (i * 2 + 2) (hex_bytes bs)

      short : ltb i (length bs) ≡ true → ltb (length (hex_bytes bs)) (i * 2 + 2) ≡ false
      short fits = ground (arith, fits, length-hex_bytes bs)

      long : ltb i (length bs) ≡ false → ltb (length (hex_bytes bs)) (i * 2 + 2) ≡ true
      long beyond = ground (arith, beyond, length-hex_bytes bs)
