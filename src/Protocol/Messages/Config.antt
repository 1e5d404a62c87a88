-- ===== src/Protocol/Messages/Config.antt =====
-- The client configuration, read at positions that depend on what was read before.
use datum_rs.Common.{
  ℕ, ◌+◌, ◌%◌, ◌^◌, ◌≤◌, ◌<◌, ◌≡◌, refl, ap, ◌∙◌, arith, List, ◌∷◌, ◌++◌, length, get_or, slice,
  drop, to_le_bytes, ok, length-append, take_front, drop_front, take_all, drop_all,
  length-to_le_bytes, drop_add, get_or-drop, from_le_bytes-to_le_bytes, append_assoc,
}
use datum_rs.Protocol.Messages.{
  ClientConfig, encode_client_config, decode_client_config, word_at, byte_at,
}

-- The fields, found at their positions in a body that is long enough.
decode_fields :
    (body sig tag : List ℕ) (ls lt prime vardiff : ℕ)
    → 17 + ls + lt ≤ length body
    → byte_at body 0 ≡ 1
    → byte_at body 1 ≡ ls
    → slice body 2 ls ≡ sig
    → word_at body (2 + ls) 4 ≡ prime
    → byte_at body (2 + ls + 4) ≡ lt
    → slice body (2 + ls + 4 + 1) lt ≡ tag
    → word_at body (2 + ls + 4 + 1 + lt) 8 ≡ vardiff
    → byte_at body (2 + ls + 4 + 1 + lt + 8) ≡ 0
    → byte_at body (2 + ls + 4 + 1 + lt + 8 + 1) ≡ 0xfe
    → decode_client_config body
      ≡ ok (record {
        pool_scriptsig = sig;
        prime_id = prime;
        pool_coinbase_tag = tag;
        vardiff_min = vardiff;
      })
unfolding decode_client_config
decode_fields body sig tag ls lt prime vardiff long h0 h1 h2 h3 h4 h5 h6 h7 h8 = ground arith

pub record ConfigIsValid (c : ClientConfig) : Type 0 where
  pub scriptsig_fits : length c.pool_scriptsig < 256
  pub prime_fits : c.prime_id < 2 ^ 32
  pub tag_fits : length c.pool_coinbase_tag < 256
  pub vardiff_fits : c.vardiff_min < 2 ^ 64

-- What stands behind each variable part of the encoding.
module _ (c : ClientConfig) (rest : List ℕ) where
  abbrev behind_prime : List ℕ
  behind_prime = to_le_bytes 8 c.vardiff_min ++ (0 ∷ (0xfe ∷ rest))

  abbrev behind_scriptsig : List ℕ
  behind_scriptsig =
      to_le_bytes 4 c.prime_id
      ++ ((length c.pool_coinbase_tag % 256) ∷ (c.pool_coinbase_tag ++ behind_prime))

  whole :
      encode_client_config c ++ rest
      ≡ 1 ∷ ((length c.pool_scriptsig % 256) ∷ (c.pool_scriptsig ++ behind_scriptsig))
  unfolding encode_client_config
  whole = simp append_assoc

-- A client configuration whose texts have less than 256 bytes is decoded from its encoding, whatever
-- bytes follow.
pub decode-encode_client_config :
    (c : ClientConfig) (rest : List ℕ)
    → ConfigIsValid c
    → decode_client_config (encode_client_config c ++ rest) ≡ ok c
decode-encode_client_config c rest v = rw (whole c rest) (
    decode_fields body c.pool_scriptsig c.pool_coinbase_tag ls lt c.prime_id c.vardiff_min long refl
      sig_len (take_front ls c.pool_scriptsig _ refl) prime tag_len tag vardiff
      (get_or-drop body (2 + ls + 4 + 1 + lt + 8) 0 ∙ ap (λ (b : List ℕ). get_or b 0 0) d5)
      (get_or-drop body (2 + ls + 4 + 1 + lt + 8 + 1) 0 ∙ ap (λ (b : List ℕ). get_or b 0 0) d6))
  where
    ls : ℕ
    ls = length c.pool_scriptsig

    lt : ℕ
    lt = length c.pool_coinbase_tag

    body : List ℕ
    body = 1 ∷ ((ls % 256) ∷ (c.pool_scriptsig ++ behind_scriptsig c rest))

    sig_len : ls % 256 ≡ ls
    sig_len = omega (arith, v.scriptsig_fits)

    d1 : drop (2 + ls) body ≡ behind_scriptsig c rest
    d1 = drop_add 2 ls body ∙ drop_all c.pool_scriptsig (behind_scriptsig c rest)

    d2 : drop (2 + ls + 4) body ≡ (lt % 256) ∷ (c.pool_coinbase_tag ++ behind_prime c rest)
    d2 =
        drop_add (2 + ls) 4 body
        ∙ ap (drop 4) d1
        ∙ drop_front 4 (to_le_bytes 4 c.prime_id) _ (length-to_le_bytes 4 c.prime_id)

    d3 : drop (2 + ls + 4 + 1) body ≡ c.pool_coinbase_tag ++ behind_prime c rest
    d3 = drop_add (2 + ls + 4) 1 body ∙ ap (drop 1) d2

    d4 : drop (2 + ls + 4 + 1 + lt) body ≡ behind_prime c rest
    d4 =
        drop_add (2 + ls + 4 + 1) lt body
        ∙ ap (drop lt) d3
        ∙ drop_all c.pool_coinbase_tag (behind_prime c rest)

    d5 : drop (2 + ls + 4 + 1 + lt + 8) body ≡ 0 ∷ (0xfe ∷ rest)
    d5 =
        drop_add (2 + ls + 4 + 1 + lt) 8 body
        ∙ ap (drop 8) d4
        ∙ drop_front 8 (to_le_bytes 8 c.vardiff_min) _ (length-to_le_bytes 8 c.vardiff_min)

    d6 : drop (2 + ls + 4 + 1 + lt + 8 + 1) body ≡ 0xfe ∷ rest
    d6 = drop_add (2 + ls + 4 + 1 + lt + 8) 1 body ∙ ap (drop 1) d5

    prime : word_at body (2 + ls) 4 ≡ c.prime_id
    prime =
        rw (d1, take_front 4 (to_le_bytes 4 c.prime_id) _ (length-to_le_bytes 4 c.prime_id))
          (from_le_bytes-to_le_bytes 4 c.prime_id v.prime_fits)

    tag_len : byte_at body (2 + ls + 4) ≡ lt
    tag_len =
        get_or-drop body (2 + ls + 4) 0
        ∙ ap (λ (b : List ℕ). get_or b 0 0) d2
        ∙ omega (arith, v.tag_fits)

    tag : slice body (2 + ls + 4 + 1) lt ≡ c.pool_coinbase_tag
    tag = rw d3 (take_all c.pool_coinbase_tag (behind_prime c rest))

    vardiff : word_at body (2 + ls + 4 + 1 + lt) 8 ≡ c.vardiff_min
    vardiff =
        rw (d4, take_front 8 (to_le_bytes 8 c.vardiff_min) _ (length-to_le_bytes 8 c.vardiff_min))
          (from_le_bytes-to_le_bytes 8 c.vardiff_min v.vardiff_fits)

    long : 17 + ls + lt ≤ length body
    long = omega (
      arith,
      length-append c.pool_scriptsig (behind_scriptsig c rest),
      length-append (to_le_bytes 4 c.prime_id)
          ((lt % 256) ∷ (c.pool_coinbase_tag ++ behind_prime c rest)),
      length-append c.pool_coinbase_tag (behind_prime c rest),
      length-append (to_le_bytes 8 c.vardiff_min) (0 ∷ (0xfe ∷ rest)),
      length-to_le_bytes 4 c.prime_id,
      length-to_le_bytes 8 c.vardiff_min,
    )
