-- ===== src/Protocol/MockPool.antt =====
-- crates/datum-protocol/src/mock_pool.rs: the pool's side of the greeting, for the client of
-- crates/datum-protocol/src/client.rs to be tried against. Its keys are given.
pub mod Layout
pub mod Greeting
use datum_rs.Common.{
  ℕ, zero, suc, ◌+◌, ◌-◌, ◌*◌, ◌%◌, ◌^◌, bit_xor, Bool, true, false, ◌||◌, not, List, [], ◌∷◌, ◌++◌,
  length, take, drop, slice, get_elem?, leb, ltb, ◌==◌, if◌then◌else◌, to_le_bytes, from_le_bytes,
  Result, ok, err, ◌>>=◌, ◌>>◌, fail_if, map_err, Option, some, none,
}
use datum_rs.Protocol.Crypto.{DatumCrypto}
use datum_rs.Protocol.Frame.{FrameHeader, pack}
use datum_rs.Protocol.Obfuscation.{initial_sender, datum_header_xor_feedback, complement}
use datum_rs.Protocol.Handshake.{parse_received_header}
use datum_rs.Protocol.Session.{read_exact}

pub record MockPool : Type 0 where
  pub long_term_x25519_pub : List ℕ
  pub long_term_x25519_sec : List ℕ
  pub session_ed25519_pub : List ℕ
  pub session_x25519_pub : List ℕ
  pub motd : List ℕ

-- `iter().position(|&b| b == 0)`.
unfoldable pub nul_offset : List ℕ → Option ℕ
nul_offset [] = none
nul_offset (b ∷ bs) =
    if b == 0 then some 0 else elim (nul_offset bs) [ none ↦ none | some n ↦ some (n + 1) ]

-- `nk` behind the NUL and the sentinel: the bytes from the NUL on.
unfoldable pub nk_behind : List ℕ → Option ℕ
nk_behind [] = none
nk_behind (nul ∷ []) = none
nk_behind (nul ∷ (sentinel ∷ rest)) =
    if not (sentinel == 0xfe)
    then none
    else if ltb (length rest) 4
    then none
    else some (from_le_bytes (take 4 rest))

abbrev pub nk_found : Option ℕ → List ℕ → Option ℕ
nk_found none text = none
nk_found (some n) text = nk_behind (drop n text)

unfoldable pub nk_after : List ℕ → Option ℕ
unfolding nul_offset nk_behind
nk_after text = nk_found (nul_offset text) text

unfoldable pub find_nk : List ℕ → ℕ → Option ℕ
find_nk plaintext text_start = nk_after (drop text_start plaintext)

unfoldable pub response_plaintext : MockPool → List ℕ → List ℕ
response_plaintext pool plaintext =
    take 128 plaintext
    ++ (pool.session_ed25519_pub ++ (pool.session_x25519_pub ++ (pool.motd ++ (0 ∷ []))))

unfoldable pub response_header : ℕ → FrameHeader
response_header cmd_len = record {
  cmd_len = cmd_len;
  is_signed = false;
  is_encrypted_pubkey = true;
  is_encrypted_channel = false;
  proto_cmd = 0x02;
}

-- The pool hangs up, or unwraps an error.
pub data HangUp : Type 0 where
  hung_up : HangUp

abbrev pub or_hang_up {ℓ κ} : {E : Type ℓ} {A : Type κ} → Result E A → Result HangUp A
or_hang_up m = map_err (λ e. hung_up) m

abbrev pub some_or_hang_up {ℓ} : {A : Type ℓ} → Option A → Result HangUp A
some_or_hang_up none = err hung_up
some_or_hang_up (some a) = ok a

abbrev pub written : Result HangUp (List ℕ) → List ℕ
written (ok out) = out
written (err e) = []

module _ (c : DatumCrypto) (pool : MockPool) where
  unfoldable pub framed_response : ℕ → List ℕ → Result HangUp (List ℕ)
  unfolding response_header
  framed_response nk sealed_resp = do
    raw ← or_hang_up (pack (response_header (length sealed_resp % 2 ^ 32)))
    let server_send_key = datum_header_xor_feedback (complement nk)
    ok (to_le_bytes 4 (bit_xor (from_le_bytes raw) server_send_key) ++ sealed_resp)

  -- What the pool makes of the opened hello.
  unfoldable pub answer_plaintext : List ℕ → Result HangUp (List ℕ)
  unfolding find_nk response_plaintext
  answer_plaintext plaintext = do
    fail_if (ltb (length plaintext) (128 + 64)) hung_up
    let sig_offset = length plaintext - 64
    or_hang_up (
        c.verify_detached (take sig_offset plaintext) (drop sig_offset plaintext)
          (slice plaintext 0 32))
    nk ← some_or_hang_up (find_nk plaintext 128)
    sealed_resp ←
        or_hang_up (c.box_seal (slice plaintext 96 32) (response_plaintext pool plaintext))
    framed_response nk sealed_resp

  -- The bytes that the pool writes for those that it reads.
  unfoldable pub handle_connection : List ℕ → Result HangUp (List ℕ)
  handle_connection input = do
    (header_buf, rest) ← or_hang_up (read_exact 4 input)
    header ← or_hang_up (parse_received_header initial_sender header_buf).1
    fail_if ((header.cmd_len == 0) || ltb 1_048_576 header.cmd_len) hung_up
    (sealed, left) ← or_hang_up (read_exact header.cmd_len rest)
    plaintext ←
        or_hang_up (c.box_seal_open sealed pool.long_term_x25519_pub pool.long_term_x25519_sec)
    answer_plaintext plaintext

  -- Nothing is written where the pool hangs up.
  unfoldable pub answer_bytes : List ℕ → List ℕ
  answer_bytes input = written (handle_connection input)
