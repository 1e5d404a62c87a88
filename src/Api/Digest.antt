-- ===== src/Api/Digest.antt =====
-- crates/datum-api/src/digest.rs: the check of an HTTP digest authentication. The two hashes are parameters;
-- strings are their bytes.
pub mod Verify
use datum_rs.Common.{
  ℕ, ◌+◌, ◌-◌, ◌/◌, ◌%◌, bit_or, bit_xor, Bool, true, false, not, List, [], ◌∷◌, ◌++◌, length, ltb,
  ◌==◌, if◌then◌else◌,
}

pub data DigestAlgorithm : Type 0 where
  sha256 md5 : DigestAlgorithm

unfoldable pub hex_nib : ℕ → ℕ
hex_nib n = if ltb n 10 then 48 + n else 97 + n - 10

unfoldable pub hex_lower : List ℕ → List ℕ
unfolding hex_nib
hex_lower [] = []
hex_lower (b ∷ bs) = hex_nib (b / 16) ∷ hex_nib (b % 16) ∷ hex_lower bs

-- The differences of two strings, gathered up to the end of the shorter one.
abbrev pub gathered : ℕ → List ℕ → List ℕ → ℕ
gathered diff [] ys = diff
gathered diff (x ∷ xs) [] = diff
gathered diff (x ∷ xs) (y ∷ ys) = gathered (bit_or diff (bit_xor x y)) xs ys

unfoldable pub constant_time_eq : List ℕ → List ℕ → Bool
constant_time_eq a b = if not (length a == length b) then false else (gathered 0 a b == 0)

abbrev pub colon : List ℕ
colon = 58 ∷ []

-- What is hashed is the parts one after the other.
module _ (hash : DigestAlgorithm → List ℕ → List ℕ) where
  unfoldable pub hash_hex : DigestAlgorithm → List ℕ → List ℕ
  unfolding hex_lower
  hash_hex algo bytes = hex_lower (hash algo bytes)

  unfoldable pub ha1 : DigestAlgorithm → List ℕ → List ℕ → List ℕ → List ℕ
  ha1 algo username realm password =
      hash_hex algo (username ++ (colon ++ (realm ++ (colon ++ password))))

  unfoldable pub ha2 : DigestAlgorithm → List ℕ → List ℕ → List ℕ
  ha2 algo method uri = hash_hex algo (method ++ (colon ++ uri))

  unfoldable pub response_hash :
      DigestAlgorithm → List ℕ → List ℕ → List ℕ → List ℕ → List ℕ → List ℕ → List ℕ
  response_hash algo h1 nonce nc cnonce qop h2 = hash_hex algo (
      h1
      ++ (colon
          ++ (nonce
              ++ (colon ++ (nc ++ (colon ++ (cnonce ++ (colon ++ (qop ++ (colon ++ h2))))))))))

  unfoldable pub verify_digest_response :
      DigestAlgorithm
      → List ℕ
      → List ℕ
      → List ℕ
      → List ℕ
      → List ℕ
      → List ℕ
      → List ℕ
      → List ℕ
      → List ℕ
      → List ℕ
      → Bool
  verify_digest_response algo expected username realm password method uri nonce nc cnonce qop =
      constant_time_eq
        (response_hash algo (ha1 algo username realm password) nonce nc cnonce qop
          (ha2 algo method uri))
        expected
