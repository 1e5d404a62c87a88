-- ===== src/Coinbaser.antt =====
-- crates/datum-coinbaser/src/lib.rs: the pool's V2 blob of coinbase outputs.
pub mod Bounds
pub mod RoundTrip
use datum_rs.Common.{
  ℕ, zero, suc, ◌+◌, ◌-◌, ◌%◌, ◌^◌, min, Bool, ◌||◌, not, List, [], ◌∷◌, ◌++◌, length, take, drop,
  get_or, leb, ltb, ◌==◌, if◌then◌else◌, to_le_bytes, from_le_bytes, Result, ok, err, ◌>>=◌, ◌>>◌,
  fail_if,
}

abbrev pub max_outputs : ℕ
max_outputs = 512

abbrev pub min_script_len : ℕ
min_script_len = 2

abbrev pub max_script_len : ℕ
max_script_len = 64

pub record CoinbaseOutput : Type 0 where
  pub value_sats : ℕ
  pub script_pubkey : List ℕ

-- A script that starts with OP_DUP is charged four.
unfoldable pub sigops_of_script : List ℕ → ℕ
sigops_of_script [] = 0
sigops_of_script (b ∷ bs) = if b == 0x76 then 4 else 0

unfoldable pub sigops : CoinbaseOutput → ℕ
unfolding sigops_of_script
sigops o = sigops_of_script o.script_pubkey

pub record CoinbaserBlob : Type 0 where
  pub datum_id : ℕ
  pub outputs : List CoinbaseOutput

-- `stuck` is no error of the code: it says that the loop below ran out of fuel.
pub data CoinbaserError : Type 0 where
  too_short : (got : ℕ) → CoinbaserError
  truncated : (idx remaining need : ℕ) → CoinbaserError
  bad_script_len : (idx slen : ℕ) → CoinbaserError
  stuck : CoinbaserError

abbrev pub saturating_add : ℕ → ℕ → ℕ
saturating_add a b = min (a + b) (2 ^ 64 - 1)

abbrev pub bad_len : ℕ → Bool
bad_len slen = not (leb min_script_len slen) || ltb max_script_len slen

-- One output off the front: its value, its script and the bytes behind it.
unfoldable pub parse_output : ℕ → List ℕ → Result CoinbaserError (CoinbaseOutput × List ℕ)
parse_output idx rest = do
  fail_if (ltb (length rest) 9) (truncated idx (length rest) 9)
  let slen = get_or rest 8 0
  let tail = drop 9 rest
  fail_if (bad_len slen) (bad_script_len idx slen)
  fail_if (ltb (length tail) slen) (truncated idx (length tail) slen)
  ok (
    record { value_sats = from_le_bytes (take 8 rest); script_pubkey = take slen tail },
    drop slen tail,
  )

-- The loop, on the bytes that are left of the blob. The check against `coinbase_value` comes before
-- the output is taken; `tally += outval` wraps.
unfoldable pub parse_loop :
    ℕ → ℕ → List ℕ → ℕ → List CoinbaseOutput → Result CoinbaserError (List CoinbaseOutput)
parse_loop fuel coinbase_value [] tally outputs = ok outputs
parse_loop zero coinbase_value (b ∷ bs) tally outputs = err stuck
parse_loop (suc fuel) coinbase_value (b ∷ bs) tally outputs = do
  (output, left) ← parse_output (length outputs) (b ∷ bs)
  let outputs' = outputs ++ (output ∷ [])
  let more = parse_loop fuel coinbase_value left ((tally + output.value_sats) % 2 ^ 64) outputs'
  (if ltb coinbase_value (saturating_add output.value_sats tally)
      then ok outputs
      else (if leb max_outputs (length outputs') then ok outputs' else more))

-- Each round takes at least eleven bytes, so as many rounds as there are bytes are enough.
unfoldable pub parse_v2_blob : List ℕ → ℕ → Result CoinbaserError CoinbaserBlob
parse_v2_blob blob coinbase_value = do
  fail_if (ltb (length blob) 9) (too_short (length blob))
  outputs ← parse_loop (length blob) coinbase_value (drop 1 blob) 0 []
  ok (record { datum_id = get_or blob 0 0; outputs = outputs })

-- `u8::try_from(slen).unwrap_or(255)`.
abbrev pub slen_u8 : ℕ → ℕ
slen_u8 slen = if leb slen 255 then slen else 255

unfoldable pub encode_outputs : ℕ → List CoinbaseOutput → Result CoinbaserError (List ℕ)
encode_outputs idx [] = ok []
encode_outputs idx (o ∷ os) = do
  let slen = slen_u8 (length o.script_pubkey)
  fail_if (bad_len slen) (bad_script_len idx slen)
  more ← encode_outputs (suc idx) os
  ok (to_le_bytes 8 o.value_sats ++ (slen ∷ (o.script_pubkey ++ more)))

unfoldable pub encode_v2_blob : CoinbaserBlob → Result CoinbaserError (List ℕ)
encode_v2_blob blob = do bytes ← encode_outputs 0 blob.outputs; ok (blob.datum_id ∷ bytes)
