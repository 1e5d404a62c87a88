-- ===== src/Protocol/Messages/RoundTrip.antt =====
-- Decoding what was encoded.
use datum_rs.Common.{
  ℕ, ◌+◌, ◌-◌, ◌%◌, ◌^◌, ◌≤◌, ◌<◌, ◌≡◌, arith, List, ◌++◌, length, leb, ltb, to_le_bytes, ok, true,
  false, length-append, take_front, take_all, from_le_bytes-to_le_bytes,
}
use datum_rs.Protocol.Messages.{
  CoinbaserResponse, encode_coinbaser_response, decode_coinbaser_response, ShareSubmissionPrefix,
  encode_share_prefix, decode_share_prefix,
}

pub record PrefixIsValid (p : ShareSubmissionPrefix) : Type 0 where
  pub ntime_fits : p.ntime < 2 ^ 32
  pub nonce_fits : p.nonce < 2 ^ 32
  pub version_fits : p.version < 2 ^ 32
  pub twelve : length p.extranonce ≡ 12

-- A share prefix is decoded from its encoding, whatever bytes follow; the encoding has 30 bytes.
pub decode-encode_share_prefix :
    (p : ShareSubmissionPrefix) (rest : List ℕ)
    → PrefixIsValid p
    → (decode_share_prefix (encode_share_prefix p ++ rest) ≡ ok p)
      × (length (encode_share_prefix p) ≡ 30)
unfolding decode_share_prefix encode_share_prefix to_le_bytes
decode-encode_share_prefix p rest v = (
  rw (
    long,
    from_le_bytes-to_le_bytes 4 p.ntime v.ntime_fits,
    from_le_bytes-to_le_bytes 4 p.nonce v.nonce_fits,
    from_le_bytes-to_le_bytes 4 p.version v.version_fits,
    take_front 12 p.extranonce rest v.twelve,
  ),
  omega (arith, v.twelve),
)
  where
    long : ltb (length (encode_share_prefix p ++ rest)) 30 ≡ false
    long = ground (arith, v.twelve, length-append p.extranonce rest)

pub record CoinbaserResponseIsValid (r : CoinbaserResponse) : Type 0 where
  pub value_fits : r.coinbase_value < 2 ^ 64
  pub some_blob : 1 ≤ length r.v2_blob
  pub blob_fits : length r.v2_blob ≤ 32767

-- A coinbaser response with a blob of 1 to 32767 bytes is decoded from its encoding, whatever bytes
-- follow.
pub decode-encode_coinbaser_response :
    (r : CoinbaserResponse) (rest : List ℕ)
    → CoinbaserResponseIsValid r
    → decode_coinbaser_response (encode_coinbaser_response r ++ rest) ≡ ok r
unfolding decode_coinbaser_response encode_coinbaser_response to_le_bytes
decode-encode_coinbaser_response r rest v = rw (
  long,
  from_le_bytes-to_le_bytes 8 r.coinbase_value v.value_fits,
  from_le_bytes-to_le_bytes 4 (length r.v2_blob % 2 ^ 32) (omega arith),
  len,
  low,
  high,
  within,
  take_all r.v2_blob rest,
)
  where
    total : length (r.v2_blob ++ rest) ≡ length r.v2_blob + length rest
    total = length-append r.v2_blob rest

    long : ltb (length (encode_coinbaser_response r ++ rest)) 12 ≡ false
    long = ground (arith, total)

    len : length r.v2_blob % 2 ^ 32 ≡ length r.v2_blob
    len = omega (arith, v.blob_fits)

    low : leb 1 (length r.v2_blob) ≡ true
    low = ground (arith, v.some_blob)

    high : ltb 32767 (length r.v2_blob) ≡ false
    high = ground (arith, v.blob_fits)

    within : ltb (length (encode_coinbaser_response r ++ rest) - 12) (length r.v2_blob) ≡ false
    within = ground (arith, total)
