-- ===== src/Examples/Pool.antt =====
-- crates/datum-coinbaser: the blob of outputs, at concrete inputs.
use datum_rs.Common.{
  ℕ, ◌≤◌, ◌≡◌, ◌≢◌, refl, arith, List, [], ◌∷◌, All, ok, err, ◌>>=◌, from_le_bytes,
}
use datum_rs.Coinbaser.{
  CoinbaserBlob, stuck, parse_output, parse_loop, parse_v2_blob, encode_v2_blob,
}
use datum_rs.Coinbaser.Bounds.{ScriptFits, parse_v2_blob-bounds, parse_v2_blob-ne-stuck}
use datum_rs.Coinbaser.RoundTrip.{parse_v2_blob-encode_v2_blob}

abbrev pub blob : CoinbaserBlob
blob = record {
  datum_id = 7;
  outputs =
      (record { value_sats = 300; script_pubkey = 0x6A ∷ 1 ∷ 2 ∷ [] })
      ∷ (record { value_sats = 12; script_pubkey = 0x76 ∷ 9 ∷ [] })
      ∷ [];
}

abbrev blob_bytes : List ℕ
blob_bytes =
    7 ∷ 0x2C ∷ 1 ∷ 0 ∷ 0 ∷ 0 ∷ 0 ∷ 0 ∷ 0 ∷ 3 ∷ 0x6A ∷ 1 ∷ 2 ∷ 12 ∷ 0 ∷ 0 ∷ 0 ∷ 0 ∷ 0 ∷ 0 ∷ 0 ∷ 2
    ∷ 0x76 ∷ 9 ∷ []

parse_v2_blob-bounds_example : (2 ≤ 512) × (312 ≤ 400) × All ScriptFits blob.outputs
unfolding parse_v2_blob parse_loop parse_output from_le_bytes
parse_v2_blob-bounds_example = parse_v2_blob-bounds blob_bytes 400 blob (omega arith) refl

parse_v2_blob-ne-stuck_example : parse_v2_blob blob_bytes 400 ≢ err stuck
parse_v2_blob-ne-stuck_example = parse_v2_blob-ne-stuck blob_bytes 400

parse_v2_blob-encode_v2_blob_example :
    (encode_v2_blob blob >>= (λ bytes. parse_v2_blob bytes 400)) ≡ ok blob
parse_v2_blob-encode_v2_blob_example =
    parse_v2_blob-encode_v2_blob blob 400 (omega arith) (omega arith) (omega arith) (omega arith)
      ((omega arith, omega arith), ((omega arith, omega arith), tt))
