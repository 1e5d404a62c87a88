-- ===== src/Protocol/Obfuscation.antt =====
-- crates/datum-protocol/src/obfuscation.rs: the chain of keys that hides the frame headers.
pub mod Chain
pub mod Header
use datum_rs.Common.{ℕ, ◌+◌, ◌-◌, ◌*◌, ◌/◌, ◌%◌, ◌^◌, bit_or, bit_xor, List, [], ◌∷◌}

abbrev pub initial_sending_header_key : ℕ
initial_sending_header_key = 0xdc87_1829

abbrev pub murmur_seed : ℕ
murmur_seed = 0xb10c_feed

abbrev pub m3_c1 : ℕ
m3_c1 = 0xcc9e_2d51

abbrev pub m3_c2 : ℕ
m3_c2 = 0x1b87_3593

abbrev pub m3_c3 : ℕ
m3_c3 = 0xe654_6b64

-- u32 arithmetic: `wrapping_mul`, `wrapping_add`, `rotate_left` and `!`.
abbrev pub wrapping_mul : ℕ → ℕ → ℕ
wrapping_mul a b = a * b % 2 ^ 32

abbrev pub wrapping_add : ℕ → ℕ → ℕ
wrapping_add a b = (a + b) % 2 ^ 32

abbrev pub wrapping_sub : ℕ → ℕ → ℕ
wrapping_sub a b = (a + 2 ^ 32 - b) % 2 ^ 32

abbrev pub rotate_left : ℕ → ℕ → ℕ
rotate_left a k = bit_or (a / 2 ^ (32 - k)) (a * 2 ^ k % 2 ^ 32)

abbrev pub complement : ℕ → ℕ
complement a = 2 ^ 32 - 1 - a

-- `h ^= h >> k`.
abbrev pub xor_shift : ℕ → ℕ → ℕ
xor_shift k h = bit_xor h (h / 2 ^ k)

unfoldable pub datum_header_xor_feedback : ℕ → ℕ
datum_header_xor_feedback i =
    let k = wrapping_mul (rotate_left (wrapping_mul i m3_c1) 15) m3_c2 in
    let h1 = rotate_left (bit_xor murmur_seed k) 13 in
    let h2 = wrapping_add (wrapping_mul h1 5) m3_c3 in
    let h3 = xor_shift 16 (bit_xor h2 4) in
    let h4 = xor_shift 13 (wrapping_mul h3 0x85eb_ca6b) in
    let h5 = wrapping_mul h4 0xc2b2_ae35 in xor_shift 16 h5

pub record HeaderObfuscator : Type 0 where
  pub key : ℕ

unfoldable pub initial_sender : HeaderObfuscator
initial_sender = record { key = initial_sending_header_key }

unfoldable pub for_sender : ℕ → HeaderObfuscator
for_sender nk = record { key = datum_header_xor_feedback nk }

unfoldable pub for_receiver : ℕ → HeaderObfuscator
for_receiver nk = record { key = datum_header_xor_feedback (complement nk) }

-- The state after the call, and the word that it returns.
unfoldable pub encrypt : HeaderObfuscator → ℕ → HeaderObfuscator × ℕ
encrypt o plaintext = (record { key = datum_header_xor_feedback o.key }, bit_xor plaintext o.key)

unfoldable pub decrypt : HeaderObfuscator → ℕ → HeaderObfuscator × ℕ
decrypt o wire = (record { key = datum_header_xor_feedback o.key }, bit_xor wire o.key)

-- One call after the other.
unfoldable pub encrypt_all : HeaderObfuscator → List ℕ → HeaderObfuscator × List ℕ
encrypt_all o [] = (o, [])
encrypt_all o (w ∷ ws) =
    let (o', x) = encrypt o w in let (o'', xs) = encrypt_all o' ws in (o'', x ∷ xs)

unfoldable pub decrypt_all : HeaderObfuscator → List ℕ → HeaderObfuscator × List ℕ
decrypt_all o [] = (o, [])
decrypt_all o (w ∷ ws) =
    let (o', x) = decrypt o w in let (o'', xs) = decrypt_all o' ws in (o'', x ∷ xs)
