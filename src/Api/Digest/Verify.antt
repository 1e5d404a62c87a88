-- ===== src/Api/Digest/Verify.antt =====
-- What the check of crates/datum-api/src/digest.rs accepts.
use datum_rs.Common.{
  ℕ, zero, suc, ◌/◌, ◌%◌, ◌^◌, ◌<◌, ◌≡◌, ◌↔◌, refl, sym, ap, ◌∙◌, arith, bit_or, bit_xor, true,
  List, [], ◌∷◌, ◌++◌, length, get_or, All, IsByte, ◌==◌, ==_iff, Bool-cases, inl, inr,
}
use mathlib.Core.Bool.{false≢true}
use native.Mathlib.Nat.{pow-succ'}
use Prim.Native.Nat.{bit_xor-bitwise}
use datum_rs.Common.Bits.{bit_or_low, bit_or-lt, bit_xor-lt, bit_xor_twice}
use datum_rs.Api.Digest.{
  DigestAlgorithm, colon, hex_nib, hex_lower, gathered, constant_time_eq, hash_hex, ha1, ha2,
  response_hash, verify_digest_response,
}

zero-bit_or : (k a b : ℕ) → a < 2 ^ k → b < 2 ^ k → bit_or a b ≡ 0 → (a ≡ 0) × (b ≡ 0)
zero-bit_or zero a b p q h = omega (arith, p, q)
zero-bit_or (suc k) a b p q h =
    let halves : (a / 2 ≡ 0) × (b / 2 ≡ 0) =
      zero-bit_or k (a / 2) (b / 2) (omega (arith, p, pow-succ' 2 k))
        (omega (arith, q, pow-succ' 2 k)) (omega (arith, h, bit_or_low a b)) in
    omega (arith, p, q, h, bit_or_low a b, halves)

zero-bit_xor : (k a b : ℕ) → a < 2 ^ k → b < 2 ^ k → bit_xor a b ≡ 0 → a ≡ b
zero-bit_xor k a b p q h =
    sym (bit_xor_twice k a b p q) ∙ (ap (λ (t : ℕ). bit_xor t b) h ∙ bit_xor-bitwise 0 b)

xor_self : (b : ℕ) → IsByte b → bit_xor b b ≡ 0
xor_self b p =
    ap (λ (t : ℕ). bit_xor t b) (sym (bit_xor-bitwise 0 b)) ∙ bit_xor_twice 8 0 b (omega arith) p

gathered_zero :
    (d : ℕ) (a b : List ℕ)
    → d < 256
    → All IsByte a
    → All IsByte b
    → length a ≡ length b
    → gathered d a b ≡ 0
    → (d ≡ 0) × (a ≡ b)
gathered_zero d [] [] l p q e h = (h, refl)
gathered_zero d [] (y ∷ ys) l p q e h = absurd (omega arith)
gathered_zero d (x ∷ xs) [] l p q e h = absurd (omega arith)
gathered_zero d (x ∷ xs) (y ∷ ys) l (p, ps) (q, qs) e h =
    let (none_left, rest) =
      gathered_zero (bit_or d (bit_xor x y)) xs ys
        (bit_or-lt 8 d (bit_xor x y) l (bit_xor-lt 8 x y p q)) ps qs (omega arith) h in
    let (before, here) = zero-bit_or 8 d (bit_xor x y) l (bit_xor-lt 8 x y p q) none_left in
    (before, ap (λ (t : ℕ). t ∷ xs) (zero-bit_xor 8 x y p q here) ∙ ap (◌∷◌ y) rest)

gathered_self : (a : List ℕ) → All IsByte a → gathered 0 a a ≡ 0
gathered_self [] p = refl
gathered_self (x ∷ xs) (p, ps) = rw (xor_self x p) (gathered_self xs ps)

constant_time_eq_iff :
    (a b : List ℕ) → All IsByte a → All IsByte b → constant_time_eq a b ≡ true ↔ a ≡ b
unfolding constant_time_eq
constant_time_eq_iff a b p q = (forth, back)
  where
    forth : constant_time_eq a b ≡ true → a ≡ b
    forth h = elim (Bool-cases (length a == length b)) [
      | inl same ↦
          (gathered_zero 0 a b (omega arith) p q ((==_iff (length a) (length b)).0 same)
            ((==_iff (gathered 0 a b) 0).0 (rw same at h))).1
      | inr other ↦ absurd (false≢true (rw other at h))
    ]

    back : a ≡ b → constant_time_eq a b ≡ true
    back h = rw (sym h, (==_iff (length a) (length a)).1 refl, gathered_self a p) refl

hex_nib-IsByte : (n : ℕ) → n < 16 → IsByte (hex_nib n)
unfolding hex_nib
hex_nib-IsByte n h = ground arith

pub hex_lower-IsByte : (bs : List ℕ) → All IsByte bs → All IsByte (hex_lower bs)
unfolding hex_lower
hex_lower-IsByte [] p = tt
hex_lower-IsByte (b ∷ bs) (p, ps) = (
  hex_nib-IsByte (b / 16) (omega arith),
  (hex_nib-IsByte (b % 16) (omega arith), hex_lower-IsByte bs ps),
)

-- The sixteen digits, in order.
abbrev pub hex_alphabet : List ℕ
hex_alphabet = 48 ∷ 49 ∷ 50 ∷ 51 ∷ 52 ∷ 53 ∷ 54 ∷ 55 ∷ 56 ∷ 57 ∷ 97 ∷ 98 ∷ 99 ∷ 100 ∷ 101 ∷ 102 ∷ []

abbrev pub hex_text : List ℕ → List ℕ
hex_text [] = []
hex_text (b ∷ bs) = get_or hex_alphabet (b / 16) 0 ∷ get_or hex_alphabet (b % 16) 0 ∷ hex_text bs

-- Texts with a colon between them.
abbrev pub colon_joined : List ℕ → List (List ℕ) → List ℕ
colon_joined text [] = text
colon_joined text (next ∷ rest) = text ++ (58 ∷ colon_joined next rest)

module _ (hash : DigestAlgorithm → List ℕ → List ℕ) where
  -- The answer of RFC 7616 with its quality of protection.
  abbrev pub answer :
      DigestAlgorithm
      → List ℕ
      → List ℕ
      → List ℕ
      → List ℕ
      → List ℕ
      → List ℕ
      → List ℕ
      → List ℕ
      → List ℕ
      → List ℕ
  answer algo username realm password method uri nonce nc cnonce qop = hex_text (
      hash algo (
        colon_joined (hex_text (hash algo (colon_joined username (realm ∷ password ∷ []))))
          (nonce ∷ nc ∷ cnonce ∷ qop ∷ hex_text (hash algo (colon_joined method (uri ∷ []))) ∷ [])))

hex_nib-alphabet : (n : ℕ) → n < 16 → hex_nib n ≡ get_or hex_alphabet n 0
unfolding hex_nib
hex_nib-alphabet zero h = refl
hex_nib-alphabet (suc zero) h = refl
hex_nib-alphabet (suc (suc zero)) h = refl
hex_nib-alphabet (suc (suc (suc zero))) h = refl
hex_nib-alphabet (suc (suc (suc (suc zero)))) h = refl
hex_nib-alphabet (suc (suc (suc (suc (suc zero))))) h = refl
hex_nib-alphabet (suc (suc (suc (suc (suc (suc zero)))))) h = refl
hex_nib-alphabet (suc (suc (suc (suc (suc (suc (suc zero))))))) h = refl
hex_nib-alphabet (suc (suc (suc (suc (suc (suc (suc (suc zero)))))))) h = refl
hex_nib-alphabet (suc (suc (suc (suc (suc (suc (suc (suc (suc zero))))))))) h = refl
hex_nib-alphabet (suc (suc (suc (suc (suc (suc (suc (suc (suc (suc zero)))))))))) h = refl
hex_nib-alphabet (suc (suc (suc (suc (suc (suc (suc (suc (suc (suc (suc zero))))))))))) h = refl
hex_nib-alphabet (suc (suc (suc (suc (suc (suc (suc (suc (suc (suc (suc (suc zero)))))))))))) h =
    refl
hex_nib-alphabet (suc (suc (suc (suc (suc (suc (suc (suc (suc (suc (suc (suc (suc zero)))))))))))))
      h =
    refl
hex_nib-alphabet
      (suc (suc (suc (suc (suc (suc (suc (suc (suc (suc (suc (suc (suc (suc zero)))))))))))))) h =
    refl
hex_nib-alphabet
      (suc (suc (suc (suc (suc (suc (suc (suc (suc (suc (suc (suc (suc (suc (suc zero)))))))))))))))
      h =
    refl
hex_nib-alphabet
      (suc
        (suc (suc (suc (suc (suc (suc (suc (suc (suc (suc (suc (suc (suc (suc (suc n))))))))))))))))
      h =
    absurd (omega (arith, h))

hex_lower-hex_text : (bs : List ℕ) → All IsByte bs → hex_lower bs ≡ hex_text bs
unfolding hex_lower
hex_lower-hex_text [] p = refl
hex_lower-hex_text (b ∷ bs) (p, ps) = rw (
  hex_nib-alphabet (b / 16) (omega arith),
  hex_nib-alphabet (b % 16) (omega arith),
  hex_lower-hex_text bs ps,
)

module _ (hash : DigestAlgorithm → List ℕ → List ℕ)
    (bytes : (algo : DigestAlgorithm) (m : List ℕ) → All IsByte (hash algo m)) where
  response_hash-IsByte :
      (algo : DigestAlgorithm) (h1 nonce nc cnonce qop h2 : List ℕ)
      → All IsByte (response_hash hash algo h1 nonce nc cnonce qop h2)
  unfolding response_hash hash_hex
  response_hash-IsByte algo h1 nonce nc cnonce qop h2 = hex_lower-IsByte _ (bytes algo _)

  response_hash-answer :
      (algo : DigestAlgorithm) (username realm password method uri nonce nc cnonce qop : List ℕ)
      → response_hash hash algo
          (ha1 hash algo username realm password)
          nonce
          nc
          cnonce
          qop
          (ha2 hash algo method uri)
        ≡ answer hash algo username realm password method uri nonce nc cnonce qop
  unfolding response_hash ha1 ha2 hash_hex
  response_hash-answer algo username realm password method uri nonce nc cnonce qop =
      rw
        (
          hex_lower-hex_text _ (bytes algo (username ++ (colon ++ (realm ++ (colon ++ password))))),
          hex_lower-hex_text _ (bytes algo (method ++ (colon ++ uri))),
        )
        (hex_lower-hex_text _ (bytes algo _))

  -- For a hash of bytes, a digest answer is accepted exactly when it is, as a whole, the digest of the
  -- texts HA1, nonce, nc, cnonce, qop and HA2 with colons between them, where HA1 is the digest of user,
  -- realm and password and HA2 that of method and address. A digest is the hash in hex, two digits for
  -- a byte, the high one first, from 0 to 9 and a to f. Another length or another case is refused.
  pub verify_digest_response_iff :
      (algo : DigestAlgorithm)
      (expected username realm password method uri nonce nc cnonce qop : List ℕ)
      → All IsByte expected
      → verify_digest_response hash algo expected username realm password method uri nonce nc cnonce
            qop
          ≡ true
        ↔ answer hash algo username realm password method uri nonce nc cnonce qop ≡ expected
  unfolding verify_digest_response
  verify_digest_response_iff algo expected username realm password method uri nonce nc cnonce qop
        p =
      rw (response_hash-answer algo username realm password method uri nonce nc cnonce qop) (
        constant_time_eq_iff
          (answer hash algo username realm password method uri nonce nc cnonce qop) expected
          (rw (response_hash-answer algo username realm password method uri nonce nc cnonce qop) at
            (response_hash-IsByte algo (ha1 hash algo username realm password) nonce nc cnonce qop
              (ha2 hash algo method uri)))
          p)
