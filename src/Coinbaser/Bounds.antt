-- ===== src/Coinbaser/Bounds.antt =====
-- Bounds of what the parser of crates/datum-coinbaser/src/lib.rs returns, and its loop.
use datum_rs.Common.{
  ℕ, zero, suc, ◌+◌, ◌-◌, ◌%◌, ◌^◌, ◌≤◌, ◌<◌, ◌≡◌, ◌≢◌, ◌⊎◌, inl, inr, refl, ap, ◌∙◌, arith, List,
  [], ◌∷◌, ◌++◌, length, length-append, drop, length-take, length-drop, leb, ltb, Result, ok, err,
  get_or, All, All-append, Bool-cases, true, false,
}
use datum_rs.Coinbaser.{
  CoinbaseOutput, CoinbaserBlob, CoinbaserError, stuck, parse_output, parse_loop, parse_v2_blob,
  saturating_add,
}

abbrev pub total : List CoinbaseOutput → ℕ
total [] = 0
total (o ∷ os) = o.value_sats + total os

pub total-append : (xs ys : List CoinbaseOutput) → total (xs ++ ys) ≡ total xs + total ys
total-append [] ys = omega arith
total-append (x ∷ xs) ys = omega (arith, total-append xs ys)

abbrev pub ScriptFits : CoinbaseOutput → Type 0
ScriptFits o = (2 ≤ length o.script_pubkey) × (length o.script_pubkey ≤ 64)

-- An output that is parsed has a script of 2 to 64 bytes, and takes that many bytes and nine more.
pub parse_output_takes :
    (idx : ℕ) (rest : List ℕ) (o : CoinbaseOutput) (left : List ℕ)
    → parse_output idx rest ≡ ok (o, left)
    → ScriptFits o × (length left + 9 + length o.script_pubkey ≡ length rest)
unfolding parse_output
parse_output_takes idx rest o left e = ground (
  arith,
  length-take (get_or rest 8 0) (drop 9 rest),
  length-drop (get_or rest 8 0) (drop 9 rest),
  length-drop 9 rest,
)

parse_output-ne-stuck : (idx : ℕ) (rest : List ℕ) → parse_output idx rest ≢ err stuck
unfolding parse_output
parse_output-ne-stuck idx rest = ground arith

parse_output_cases :
    (idx : ℕ) (rest : List ℕ)
    → ((p : CoinbaseOutput × List ℕ) × (parse_output idx rest ≡ ok p))
      ⊎ ((e : CoinbaserError) × (parse_output idx rest ≡ err e) × (e ≢ stuck))
parse_output_cases idx rest = go (parse_output idx rest) refl
  where
    go :
        (r : Result CoinbaserError (CoinbaseOutput × List ℕ))
        → parse_output idx rest ≡ r
        → ((p : CoinbaseOutput × List ℕ) × (parse_output idx rest ≡ ok p))
          ⊎ ((e : CoinbaserError) × (parse_output idx rest ≡ err e) × (e ≢ stuck))
    go (ok p) e = inl (p, e)
    go (err x) e = inr (x, e, λ h. parse_output-ne-stuck idx rest (e ∙ ap err h))

-- What holds of the outputs taken so far.
pub record Taken (coinbase_value : ℕ) (outputs : List CoinbaseOutput) : Type 0 where
  pub scripts : All ScriptFits outputs
  pub counted : length outputs ≤ 512
  pub within : total outputs ≤ coinbase_value

Taken-along :
    (value : ℕ) (outputs r : List CoinbaseOutput)
    → Taken value outputs
    → outputs ≡ r
    → Taken value r
Taken-along value outputs r t e = rw (← e) t

Taken-one :
    (value : ℕ) (o : CoinbaseOutput) (outputs : List CoinbaseOutput)
    → value < 2 ^ 64 - 1
    → length outputs < 512
    → ltb value (saturating_add o.value_sats (total outputs)) ≡ false
    → ScriptFits o
    → Taken value outputs
    → Taken value (outputs ++ (o ∷ []))
Taken-one value o outputs small room h fits t = record {
  scripts = All-append ScriptFits outputs (o ∷ []) t.scripts (fits, tt);
  counted = omega (arith, room, length-append outputs (o ∷ []));
  within = ground (arith, h, total-append outputs (o ∷ []), t.within, small);
}

parse_loop-Taken :
    (fuel value : ℕ) (rest : List ℕ) (outputs : List CoinbaseOutput) (r : List CoinbaseOutput)
    → value < 2 ^ 64 - 1
    → length outputs < 512
    → Taken value outputs
    → parse_loop fuel value rest (total outputs) outputs ≡ ok r
    → Taken value r
unfolding parse_loop
parse_loop-Taken fuel value [] outputs r small room t e =
    Taken-along value outputs r t (ground (arith, e))
parse_loop-Taken zero value (b ∷ bs) outputs r small room t e = ground (arith, e)
parse_loop-Taken (suc fuel) value (b ∷ bs) outputs r small room t e =
    elim (parse_output_cases (length outputs) (b ∷ bs)) [
      | inl ((o, left), eo) ↦
          after o left eo (parse_loop-Taken fuel value left (outputs ++ (o ∷ [])) r small)
            (Bool-cases (ltb value (saturating_add o.value_sats (total outputs))))
      | inr (x, eo, n) ↦ ground (arith, eo, e)
    ]
  where
    after :
        (o : CoinbaseOutput) (left : List ℕ)
        → parse_output (length outputs) (b ∷ bs) ≡ ok (o, left)
        → (length (outputs ++ (o ∷ [])) < 512
            → Taken value (outputs ++ (o ∷ []))
            → parse_loop fuel value left (total (outputs ++ (o ∷ []))) (outputs ++ (o ∷ [])) ≡ ok r
            → Taken value r)
        → (ltb value (saturating_add o.value_sats (total outputs)) ≡ true)
          ⊎ (ltb value (saturating_add o.value_sats (total outputs)) ≡ false)
        → Taken value r
    after o left eo ih (inl h) = Taken-along value outputs r t (ground (arith, eo, e, h))
    after o left eo ih (inr h) = elim (Bool-cases (leb 512 (length (outputs ++ (o ∷ []))))) [
      | inl k ↦ Taken-along value (outputs ++ (o ∷ [])) r taken (ground (arith, eo, e, h, k))
      | inr k ↦ ih (ground (arith, k)) taken (rw (← tally) (ground (arith, eo, e, h, k)))
    ]
      where
        fits : ScriptFits o
        fits = (parse_output_takes (length outputs) (b ∷ bs) o left eo).0

        taken : Taken value (outputs ++ (o ∷ []))
        taken = Taken-one value o outputs small room h fits t

        tally : (total outputs + o.value_sats) % 2 ^ 64 ≡ total (outputs ++ (o ∷ []))
        tally = ground (arith, total-append outputs (o ∷ []), taken.within, small)

parse_loop-ne-stuck :
    (fuel value : ℕ) (rest : List ℕ) (tally : ℕ) (outputs : List CoinbaseOutput)
    → length rest ≤ fuel
    → parse_loop fuel value rest tally outputs ≢ err stuck
unfolding parse_loop
parse_loop-ne-stuck fuel value [] tally outputs h = λ e. cc
parse_loop-ne-stuck zero value (b ∷ bs) tally outputs h = absurd (omega arith)
parse_loop-ne-stuck (suc fuel) value (b ∷ bs) tally outputs h =
    elim (parse_output_cases (length outputs) (b ∷ bs)) [
      | inl ((o, left), e) ↦ rw e (
          ground (
            arith,
            parse_output_takes (length outputs) (b ∷ bs) o left e,
            parse_loop-ne-stuck fuel value left ((tally + o.value_sats) % 2 ^ 64)
                (outputs ++ (o ∷ [])),
          ))
      | inr (x, e, n) ↦ rw e (λ h. ground (arith, n, h))
    ]

-- For a coinbase value below 2^64 - 1, the blob that the parser returns has at most 512 outputs, each with a script of 2 to 64 bytes, and their sum is at most the coinbase value.
pub parse_v2_blob-bounds :
    (blob : List ℕ) (coinbase_value : ℕ) (r : CoinbaserBlob)
    → coinbase_value < 2 ^ 64 - 1
    → parse_v2_blob blob coinbase_value ≡ ok r
    → (length r.outputs ≤ 512) × (total r.outputs ≤ coinbase_value) × All ScriptFits r.outputs
unfolding parse_v2_blob
parse_v2_blob-bounds blob value r small e =
    let t =
      parse_loop-Taken (length blob) value (drop 1 blob) [] r.outputs small (omega arith) start
        (ground (arith, e)) in
    (t.counted, t.within, t.scripts)
  where
    start : Taken value []
    start = record { scripts = tt; counted = omega arith; within = omega arith }

-- The parser's loop ends on every blob, within as many rounds as the blob has bytes.
pub parse_v2_blob-ne-stuck :
    (blob : List ℕ) (coinbase_value : ℕ) → parse_v2_blob blob coinbase_value ≢ err stuck
unfolding parse_v2_blob
parse_v2_blob-ne-stuck blob value =
    ground (arith, parse_loop-ne-stuck (length blob) value (drop 1 blob) 0 [], length-drop 1 blob)
