-- ===== src/Protocol/Nonce/Laws.antt =====
-- The nonce as a 192-bit counter, and how the two nonces of a session are related.
use datum_rs.Common.{
  ℕ, zero, suc, ◌+◌, ◌*◌, ◌/◌, ◌%◌, ◌^◌, ◌<◌, ◌≡◌, refl, ap, ◌∙◌, sym, bit_xor, arith, List, [],
  ◌∷◌, ◌++◌, length, All, IsByte, length-append, ◌==◌, to_le_bytes, from_le_bytes, from_le_bytes-lt,
  from_le_bytes-to_le_bytes, length-to_le_bytes, from_le_bytes-append, Bool-cases, inl, inr, ==_iff,
  ◌≢◌, take, drop, take_front, drop_front,
}
use datum_rs.Protocol.Obfuscation.{
  datum_header_xor_feedback, wrapping_add, wrapping_sub, complement,
}
use datum_rs.Protocol.Obfuscation.Chain.{feedback-IsWord}
use datum_rs.Common.Bits.{bit_xor-lt, bit_xor_twice}
use native.Mathlib.Nat.{
  zero-add, pow-succ', mod-lt, mod-eq_of_lt, mul-add-mod_self_left, div-add-mod,
}
use datum_rs.Protocol.Nonce.{increment_words, increment_nonce, nonce_words, derive_session_nonces}

word_front :
    (b0 b1 b2 b3 : ℕ) (rest : List ℕ)
    → from_le_bytes (b0 ∷ b1 ∷ b2 ∷ b3 ∷ rest)
      ≡ from_le_bytes (b0 ∷ b1 ∷ b2 ∷ b3 ∷ []) + 2 ^ 32 * from_le_bytes rest
word_front b0 b1 b2 b3 rest = from_le_bytes-append (b0 ∷ b1 ∷ b2 ∷ b3 ∷ []) rest

written_front :
    (word : ℕ) (rest : List ℕ)
    → word < 2 ^ 32
    → from_le_bytes (to_le_bytes 4 word ++ rest) ≡ word + 2 ^ 32 * from_le_bytes rest
written_front word rest h =
    from_le_bytes-append (to_le_bytes 4 word) rest
    ∙ rw (length-to_le_bytes 4 word, from_le_bytes-to_le_bytes 4 word h)

words-lt : (k : ℕ) (n : List ℕ) → All IsByte n → length n ≡ 4 * k → from_le_bytes n < (2 ^ 32) ^ k
words-lt zero [] b h = unfold from_le_bytes in omega arith
words-lt zero (b0 ∷ n) b h = absurd (omega arith)
words-lt (suc k) [] b h = absurd (omega arith)
words-lt (suc k) (b0 ∷ []) b h = absurd (omega arith)
words-lt (suc k) (b0 ∷ b1 ∷ []) b h = absurd (omega arith)
words-lt (suc k) (b0 ∷ b1 ∷ b2 ∷ []) b h = absurd (omega arith)
words-lt (suc k) (b0 ∷ b1 ∷ b2 ∷ b3 ∷ rest) (p0, (p1, (p2, (p3, b)))) h = omega (
  arith,
  word_front b0 b1 b2 b3 rest,
  from_le_bytes-lt (b0 ∷ b1 ∷ b2 ∷ b3 ∷ []) (p0, (p1, (p2, (p3, tt)))),
  words-lt k rest b (omega arith),
  pow-succ' (2 ^ 32) k,
)

scaled_mod : (a m : ℕ) → 0 < m → 2 ^ 32 * a % (2 ^ 32 * m) ≡ 2 ^ 32 * (a % m)
scaled_mod a m p =
    ap (λ (t : ℕ). t % (2 ^ 32 * m)) whole
    ∙ mul-add-mod_self_left (2 ^ 32 * m) (a / m) (2 ^ 32 * (a % m))
    ∙ mod-eq_of_lt (omega (arith, mod-lt a p))
  where
    whole : 2 ^ 32 * a ≡ 2 ^ 32 * m * (a / m) + 2 ^ 32 * (a % m)
    whole = omega (arith, ap (λ (t : ℕ). 2 ^ 32 * t) (div-add-mod a m))

-- A nonce of `k` words counts up by one modulo 2 ^ (32 * k).
increment_words_counts :
    (k : ℕ) (n : List ℕ)
    → All IsByte n
    → length n ≡ 4 * k
    → from_le_bytes (increment_words k n) ≡ (from_le_bytes n + 1) % (2 ^ 32) ^ k
unfolding increment_words
increment_words_counts zero [] b h = unfold from_le_bytes in refl
increment_words_counts zero (b0 ∷ n) b h = absurd (omega arith)
increment_words_counts (suc k) [] b h = absurd (omega arith)
increment_words_counts (suc k) (b0 ∷ []) b h = absurd (omega arith)
increment_words_counts (suc k) (b0 ∷ b1 ∷ []) b h = absurd (omega arith)
increment_words_counts (suc k) (b0 ∷ b1 ∷ b2 ∷ []) b h = absurd (omega arith)
increment_words_counts (suc k) (b0 ∷ b1 ∷ b2 ∷ b3 ∷ rest) (p0, (p1, (p2, (p3, b)))) h =
    elim (Bool-cases (wrapping_add low 1 == 0)) [
      | inl wraps ↦
          let word : wrapping_add low 1 ≡ 0 = (==_iff _ 0).0 wraps in
          rw
            (
              wraps,
              written_front (wrapping_add low 1) (increment_words k rest) (omega arith),
              word,
              zero-add,
            )
            (rw (increment_words_counts k rest b (omega arith)) (
              sym (
                ap (λ (t : ℕ). t % (2 ^ 32) ^ suc k) (carry word)
                ∙ ap (λ (t : ℕ). 2 ^ 32 * (from_le_bytes rest + 1) % t) (pow-succ' (2 ^ 32) k)
                ∙ scaled_mod (from_le_bytes rest + 1) ((2 ^ 32) ^ k) (omega (arith, fits)))))
      | inr stays ↦
          let word : wrapping_add low 1 ≢ 0 = λ e. ground (arith, stays, e) in
          rw (stays, written_front (wrapping_add low 1) rest (omega arith))
            (next word ∙ sym (mod-eq_of_lt (no_carry word)))
    ]
  where
    low : ℕ
    low = from_le_bytes (b0 ∷ b1 ∷ b2 ∷ b3 ∷ [])

    low_fits : low < 2 ^ 32
    low_fits = from_le_bytes-lt (b0 ∷ b1 ∷ b2 ∷ b3 ∷ []) (p0, (p1, (p2, (p3, tt))))

    fits : from_le_bytes rest < (2 ^ 32) ^ k
    fits = words-lt k rest b (omega arith)

    carry :
        wrapping_add low 1 ≡ 0
        → from_le_bytes (b0 ∷ b1 ∷ b2 ∷ b3 ∷ rest) + 1 ≡ 2 ^ 32 * (from_le_bytes rest + 1)
    carry e = omega (arith, word_front b0 b1 b2 b3 rest, low_fits, e)

    next :
        wrapping_add low 1 ≢ 0
        → wrapping_add low 1 + 2 ^ 32 * from_le_bytes rest
          ≡ from_le_bytes (b0 ∷ b1 ∷ b2 ∷ b3 ∷ rest) + 1
    next ne = omega (arith, word_front b0 b1 b2 b3 rest, low_fits, ne)

    no_carry :
        wrapping_add low 1 ≢ 0 → from_le_bytes (b0 ∷ b1 ∷ b2 ∷ b3 ∷ rest) + 1 < (2 ^ 32) ^ suc k
    no_carry ne =
        omega (arith, word_front b0 b1 b2 b3 rest, low_fits, fits, ne, pow-succ' (2 ^ 32) k)

-- `increment_nonce` adds one to the nonce read as a 192-bit little-endian number, with wrap-around.
pub increment_nonce_counts :
    (n : List ℕ)
    → All IsByte n
    → length n ≡ 24
    → from_le_bytes (increment_nonce n) ≡ (from_le_bytes n + 1) % 2 ^ 192
unfolding increment_nonce
increment_nonce_counts n b h = increment_words_counts 6 n b h

-- Applied to each 32-bit word of a byte list.
abbrev pub xor_words : ℕ → ℕ → List ℕ → List ℕ
xor_words zero key bytes = []
xor_words (suc k) key bytes =
    to_le_bytes 4 (bit_xor (from_le_bytes (take 4 bytes)) key) ++ xor_words k key (drop 4 bytes)

xor_words_front :
    (k key word : ℕ) (rest : List ℕ)
    → word < 2 ^ 32
    → xor_words (suc k) key (to_le_bytes 4 word ++ rest)
      ≡ to_le_bytes 4 (bit_xor word key) ++ xor_words k key rest
xor_words_front k key word rest h = rw (
  take_front 4 (to_le_bytes 4 word) rest (length-to_le_bytes 4 word),
  drop_front 4 (to_le_bytes 4 word) rest (length-to_le_bytes 4 word),
  from_le_bytes-to_le_bytes 4 word h,
)

nonce_words_related :
    (k nk : ℕ)
    → (length (nonce_words k nk).0 ≡ 4 * k)
      × (length (nonce_words k nk).1 ≡ 4 * k)
      × (xor_words k 0x5757_5757 (nonce_words k nk).1 ≡ (nonce_words k nk).0)
      × (xor_words k 0x5757_5757 (nonce_words k nk).0 ≡ (nonce_words k nk).1)
unfolding nonce_words
nonce_words_related zero nk = (refl, refl, refl, refl)
nonce_words_related (suc k) nk =
    let recv : ℕ = datum_header_xor_feedback (wrapping_sub nk 42) in
    let fits : recv < 2 ^ 32 = feedback-IsWord (wrapping_sub nk 42) in
    let sent : bit_xor recv 0x5757_5757 < 2 ^ 32 =
      bit_xor-lt 32 recv 0x5757_5757 fits (omega arith) in
    let (ls, lr, forth, back) = nonce_words_related k (complement recv) in
    (
      omega (
        arith,
        length-append (to_le_bytes 4 (bit_xor recv 0x5757_5757)) _,
        length-to_le_bytes 4 (bit_xor recv 0x5757_5757),
        ls,
      ),
      omega (arith, length-append (to_le_bytes 4 recv) _, length-to_le_bytes 4 recv, lr),
      xor_words_front k 0x5757_5757 recv _ fits ∙ rw forth,
      xor_words_front k 0x5757_5757 (bit_xor recv 0x5757_5757) _ sent
          ∙ rw (bit_xor_twice 32 recv 0x5757_5757 fits (omega arith), back),
    )

-- Both nonces of a session have 24 bytes, and each is the other with 0x57575757 xored into every
-- 32-bit word, whatever the seed and the session key.
pub derive_session_nonces_related :
    (nk : ℕ) (pub_key : List ℕ)
    → (length (derive_session_nonces nk pub_key).0 ≡ 24)
      × (length (derive_session_nonces nk pub_key).1 ≡ 24)
      × (xor_words 6 0x5757_5757 (derive_session_nonces nk pub_key).1
          ≡ (derive_session_nonces nk pub_key).0)
      × (xor_words 6 0x5757_5757 (derive_session_nonces nk pub_key).0
          ≡ (derive_session_nonces nk pub_key).1)
unfolding derive_session_nonces
derive_session_nonces_related nk pub_key = nonce_words_related 6 _
