-- ===== src/Protocol/Obfuscation/Chain.antt =====
-- The key chains of two peers stay together.
use datum_rs.Common.{ℕ, zero, suc, ◌/◌, ◌^◌, ◌<◌, ◌≡◌, refl, arith, List, [], ◌∷◌, length, All}
use datum_rs.Common.Bits.{bit_xor-lt, bit_xor_twice}
use datum_rs.Protocol.Obfuscation.{
  HeaderObfuscator, datum_header_xor_feedback, encrypt, decrypt, encrypt_all, decrypt_all,
  xor_shift,
}
use native.Mathlib.Nat.{div-le_self}

abbrev pub IsWord : ℕ → Type 0
IsWord w = w < 2 ^ 32

xor_shift-lt : (k h : ℕ) → IsWord h → IsWord (xor_shift k h)
xor_shift-lt k h p = bit_xor-lt 32 h (h / 2 ^ k) p (omega (arith, div-le_self h (2 ^ k)))

-- Each key is a u32.
pub feedback-IsWord : (i : ℕ) → IsWord (datum_header_xor_feedback i)
unfolding datum_header_xor_feedback
feedback-IsWord i = xor_shift-lt 16 _ (omega arith)

-- The key `n` frames on.
pub key_after : ℕ → ℕ → ℕ
key_after zero k = k
key_after (suc n) k = key_after n (datum_header_xor_feedback k)

pub decrypt-encrypt :
    (o : HeaderObfuscator) (w : ℕ)
    → IsWord o.key
    → IsWord w
    → decrypt o (encrypt o w).1 ≡ ((encrypt o w).0, w)
unfolding encrypt decrypt
decrypt-encrypt o w hk hw =
    λ i. (record { key = datum_header_xor_feedback o.key }, bit_xor_twice 32 w o.key hw hk i)

-- Whatever words one side encrypts, the other side, started at the same key, decrypts them in
-- order, and both end at the key that lies as many steps on as there were words, whatever the words.
pub decrypt_all-encrypt_all :
    (o : HeaderObfuscator) (ws : List ℕ)
    → IsWord o.key
    → All IsWord ws
    → (decrypt_all o (encrypt_all o ws).1 ≡ ((encrypt_all o ws).0, ws))
      × ((encrypt_all o ws).0.key ≡ key_after (length ws) o.key)
unfolding decrypt_all encrypt_all key_after encrypt decrypt
decrypt_all-encrypt_all o [] hk h = (refl, refl)
decrypt_all-encrypt_all o (w ∷ ws) hk (hw, h) =
    let o' : HeaderObfuscator = record { key = datum_header_xor_feedback o.key } in
    let (same, key) = decrypt_all-encrypt_all o' ws (feedback-IsWord o.key) h in
    (λ i. ((same i).0, bit_xor_twice 32 w o.key hw hk i ∷ (same i).1), key)
