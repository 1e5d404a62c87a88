-- ===== src/Protocol/Nonce.antt =====
-- crates/datum-protocol/src/client.rs: the session nonces.
pub mod Laws
use datum_rs.Common.{
  ℕ, zero, suc, ◌+◌, ◌-◌, ◌%◌, ◌^◌, bit_xor, List, [], ◌∷◌, ◌++◌, ◌==◌, if◌then◌else◌, to_le_bytes,
  from_le_bytes, slice,
}
use datum_rs.Protocol.Obfuscation.{
  datum_header_xor_feedback, wrapping_add, wrapping_sub, complement,
}

-- The loop of `increment_nonce`, with the words that are left: the next word wraps, and the loop
-- goes on only if it became 0.
unfoldable pub increment_words : ℕ → List ℕ → List ℕ
increment_words zero n = n
increment_words (suc k) (b0 ∷ b1 ∷ b2 ∷ b3 ∷ rest) =
    let word = wrapping_add (from_le_bytes (b0 ∷ b1 ∷ b2 ∷ b3 ∷ [])) 1 in
    let carried = increment_words k rest in
    to_le_bytes 4 word ++ (if word == 0 then carried else rest)
increment_words (suc k) n = n

-- The nonce has 24 bytes.
unfoldable pub increment_nonce : List ℕ → List ℕ
unfolding increment_words
increment_nonce n = increment_words 6 n

unfoldable pub nonce_words : ℕ → ℕ → List ℕ × List ℕ
nonce_words zero nk = ([], [])
nonce_words (suc k) nk =
    let recv_word = datum_header_xor_feedback (wrapping_sub nk 42) in
    let send_word = bit_xor recv_word 0x5757_5757 in
    let (sender, receiver) = nonce_words k (complement recv_word) in
    (to_le_bytes 4 send_word ++ sender, to_le_bytes 4 recv_word ++ receiver)

-- (sender nonce, receiver nonce) from the client's `nk` and the 32 bytes of its session key.
unfoldable pub derive_session_nonces : ℕ → List ℕ → List ℕ × List ℕ
unfolding nonce_words
derive_session_nonces nk session_ed25519_pub =
    let pub_word_at_7 = from_le_bytes (slice session_ed25519_pub 7 4) in
    nonce_words 6 (bit_xor (wrapping_sub nk 42) pub_word_at_7)
