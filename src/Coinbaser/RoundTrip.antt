-- ===== src/Coinbaser/RoundTrip.antt =====
-- A blob of crates/datum-coinbaser/src/lib.rs, encoded and parsed again.
use datum_rs.Common.{
  ℕ, zero, suc, ◌+◌, ◌%◌, ◌^◌, ◌≤◌, ◌<◌, ◌≡◌, refl, inl, inr, false, Bool-cases, ap, ◌∙◌, arith,
  List, [], ◌∷◌, ◌++◌, length, length-append, take, drop, take_front, drop_front, drop_add, get_or,
  get_or-drop, take_all, drop_all, append_assoc, append-nil, leb, ltb, if◌then◌else◌, ok, ◌>>=◌,
  All, to_le_bytes, from_le_bytes, length-to_le_bytes, from_le_bytes-to_le_bytes,
}
use datum_rs.Coinbaser.{
  CoinbaseOutput, CoinbaserBlob, parse_output, parse_loop, parse_v2_blob, saturating_add,
  encode_outputs, encode_v2_blob,
}
use datum_rs.Coinbaser.Bounds.{total, total-append, ScriptFits}

parse_output-bytes :
    (idx : ℕ) (o : CoinbaseOutput) (more : List ℕ)
    → o.value_sats < 2 ^ 64
    → ScriptFits o
    → parse_output idx
        (to_le_bytes 8 o.value_sats ++ (length o.script_pubkey ∷ (o.script_pubkey ++ more)))
      ≡ ok (o, more)
unfolding parse_output
parse_output-bytes idx o more small (lo, hi) =
    rw (value, slen, tail, take_all o.script_pubkey more, drop_all o.script_pubkey more)
      (ground (arith, long, len2, lo, hi))
  where
    rest : List ℕ
    rest = to_le_bytes 8 o.value_sats ++ (length o.script_pubkey ∷ (o.script_pubkey ++ more))

    front : length (to_le_bytes 8 o.value_sats) ≡ 8
    front = length-to_le_bytes 8 o.value_sats

    value : from_le_bytes (take 8 rest) ≡ o.value_sats
    value =
        rw
          (take_front 8 (to_le_bytes 8 o.value_sats)
            (length o.script_pubkey ∷ (o.script_pubkey ++ more)) front)
          (from_le_bytes-to_le_bytes 8 o.value_sats small)

    at8 : drop 8 rest ≡ length o.script_pubkey ∷ (o.script_pubkey ++ more)
    at8 =
        drop_front 8 (to_le_bytes 8 o.value_sats)
          (length o.script_pubkey ∷ (o.script_pubkey ++ more)) front

    slen : get_or rest 8 0 ≡ length o.script_pubkey
    slen = get_or-drop rest 8 0 ∙ ap (λ l. get_or l 0 0) at8

    tail : drop 9 rest ≡ o.script_pubkey ++ more
    tail = drop_add 8 1 rest ∙ ap (drop 1) at8

    long : length rest ≡ 8 + suc (length (o.script_pubkey ++ more))
    long =
        length-append (to_le_bytes 8 o.value_sats)
          (length o.script_pubkey ∷ (o.script_pubkey ++ more))
        ∙ ap (λ n. n + suc (length (o.script_pubkey ++ more))) front

    len2 : length (o.script_pubkey ++ more) ≡ length o.script_pubkey + length more
    len2 = length-append o.script_pubkey more

bytes_of : List CoinbaseOutput → List ℕ
bytes_of [] = []
bytes_of (o ∷ os) =
    to_le_bytes 8 o.value_sats ++ (length o.script_pubkey ∷ (o.script_pubkey ++ bytes_of os))

encode_outputs-bytes_of :
    (idx : ℕ) (os : List CoinbaseOutput)
    → All ScriptFits os
    → encode_outputs idx os ≡ ok (bytes_of os)
unfolding encode_outputs bytes_of
encode_outputs-bytes_of idx [] fits = refl
encode_outputs-bytes_of idx (o ∷ os) ((lo, hi), fits) =
    rw (encode_outputs-bytes_of (suc idx) os fits) (ground (arith, lo, hi))

pushed :
    (acc os : List CoinbaseOutput) (o : CoinbaseOutput) → (acc ++ (o ∷ [])) ++ os ≡ acc ++ (o ∷ os)
pushed acc os o = append_assoc acc (o ∷ []) os

total-pushed :
    (acc : List CoinbaseOutput) (o : CoinbaseOutput)
    → total (acc ++ (o ∷ [])) ≡ total acc + o.value_sats
total-pushed acc o = omega (arith, total-append acc (o ∷ []))

length-bytes_of :
    (o : CoinbaseOutput) (os : List CoinbaseOutput)
    → (length (bytes_of (o ∷ os)) ≡ 9 + length o.script_pubkey + length (bytes_of os))
unfolding bytes_of
length-bytes_of o os = omega (
  arith,
  length-append (to_le_bytes 8 o.value_sats)
      (length o.script_pubkey ∷ (o.script_pubkey ++ bytes_of os)),
  length-to_le_bytes 8 o.value_sats,
  length-append o.script_pubkey (bytes_of os),
)

outputs_le_bytes : (os : List CoinbaseOutput) → length os ≤ length (bytes_of os)
outputs_le_bytes [] = omega arith
outputs_le_bytes (o ∷ os) = omega (arith, length-bytes_of o os, outputs_le_bytes os)

-- The loop on the bytes of outputs, with the outputs taken before it.
parse_loop-bytes_of :
    (os : List CoinbaseOutput) (fuel value : ℕ) (acc : List CoinbaseOutput)
    → value < 2 ^ 64
    → total acc + total os ≤ value
    → length acc + length os ≤ 512
    → All ScriptFits os
    → length os ≤ fuel
    → parse_loop fuel value (bytes_of os) (total acc) acc ≡ ok (acc ++ os)
unfolding parse_loop bytes_of to_le_bytes
parse_loop-bytes_of [] zero value acc small sum room fits h = rw (append-nil acc) refl
parse_loop-bytes_of [] (suc fuel) value acc small sum room fits h = rw (append-nil acc) refl
parse_loop-bytes_of (o ∷ os) zero value acc small sum room fits h = absurd (omega arith)
parse_loop-bytes_of (o ∷ os) (suc fuel) value acc small sum room (fit, fits) h =
    rw (takes, kept, tally)
      (after os room (
        parse_loop-bytes_of os fuel value (acc ++ (o ∷ [])) small
          (omega (arith, total-pushed acc o, sum)) (omega (arith, length-append acc (o ∷ []))) fits
          (omega arith)))
  where
    takes : parse_output (length acc) (bytes_of (o ∷ os)) ≡ ok (o, bytes_of os)
    takes = parse_output-bytes (length acc) o (bytes_of os) (omega (arith, sum, small)) fit

    kept : ltb value (saturating_add o.value_sats (total acc)) ≡ false
    kept = ground (arith, sum, small)

    tally : (total acc + o.value_sats) % 2 ^ 64 ≡ total (acc ++ (o ∷ []))
    tally = omega (arith, total-pushed acc o, sum, small)

    after :
        (xs : List CoinbaseOutput)
        → length acc + suc (length xs) ≤ 512
        → parse_loop fuel value (bytes_of xs) (total (acc ++ (o ∷ []))) (acc ++ (o ∷ []))
          ≡ ok ((acc ++ (o ∷ [])) ++ xs)
        → (if leb 512 (length (acc ++ (o ∷ [])))
            then ok (acc ++ (o ∷ []))
            else parse_loop fuel value (bytes_of xs) (total (acc ++ (o ∷ []))) (acc ++ (o ∷ [])))
          ≡ ok (acc ++ (o ∷ xs))
    after [] room ih = elim (Bool-cases (leb 512 (length (acc ++ (o ∷ []))))) [
      | inl k ↦ rw k refl
      | inr k ↦ rw (k, ih, append-nil (acc ++ (o ∷ []))) refl
    ]
    after (x ∷ xs) room ih = rw (more, ih) (ap ok (pushed acc (x ∷ xs) o))
      where
        more : leb 512 (length (acc ++ (o ∷ []))) ≡ false
        more = ground (arith, length-append acc (o ∷ []), room)

bytes-round_trip :
    (d : ℕ) (os : List CoinbaseOutput) (value : ℕ)
    → value < 2 ^ 64
    → total os ≤ value
    → 1 ≤ length os
    → length os ≤ 512
    → All ScriptFits os
    → (encode_v2_blob (record { datum_id = d; outputs = os })
        >>= (λ bytes. parse_v2_blob bytes value))
      ≡ ok (record { datum_id = d; outputs = os })
unfolding encode_v2_blob parse_v2_blob
bytes-round_trip d [] value small sum nonempty room fits = absurd (omega arith)
bytes-round_trip d (o ∷ os) value small sum nonempty room fits =
    rw (encode_outputs-bytes_of 0 (o ∷ os) fits, long, all) refl
  where
    long : ltb (length (d ∷ bytes_of (o ∷ os))) 9 ≡ false
    long = ground (arith, length-bytes_of o os)

    all : parse_loop (length (d ∷ bytes_of (o ∷ os))) value (bytes_of (o ∷ os)) 0 [] ≡ ok (o ∷ os)
    all =
        parse_loop-bytes_of (o ∷ os) (length (d ∷ bytes_of (o ∷ os))) value [] small
          (omega (arith, sum)) (omega (arith, room)) fits (omega (arith, outputs_le_bytes (o ∷ os)))

-- A blob with 1 to 512 outputs, each with a script of 2 to 64 bytes, whose values sum to at most the
-- coinbase value, is encoded, and parsing the bytes gives the blob back.
pub parse_v2_blob-encode_v2_blob :
    (blob : CoinbaserBlob) (coinbase_value : ℕ)
    → coinbase_value < 2 ^ 64
    → total blob.outputs ≤ coinbase_value
    → 1 ≤ length blob.outputs
    → length blob.outputs ≤ 512
    → All ScriptFits blob.outputs
    → (encode_v2_blob blob >>= (λ bytes. parse_v2_blob bytes coinbase_value)) ≡ ok blob
parse_v2_blob-encode_v2_blob blob value small sum nonempty room fits =
    bytes-round_trip blob.datum_id blob.outputs value small sum nonempty room fits
