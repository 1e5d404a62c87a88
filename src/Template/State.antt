-- ===== src/Template/State.antt =====
-- TemplateState::from_template_and_blob, nbits_to_target_le and swap_prev_hash_for_stratum of
-- crates/datum-blocktemplates/src/template_state.rs, over the hex codec and the double SHA-256. A sum of
-- 32-bit numbers wraps, as in a release build.
pub mod Target
use datum_rs.Common.{
  ℕ, zero, suc, ◌+◌, ◌-◌, ◌*◌, ◌/◌, ◌%◌, ◌^◌, List, [], ◌∷◌, ◌++◌, map, length, replicate, get_or,
  set, take, drop, leb, ltb, ◌==◌, ◌||◌, not, if◌then◌else◌, Option, some, none, bit_and,
}
use mathlib.Core.List.{reverse}
use datum_rs.Template.{Template, TemplateTransaction, ScriptSigInputs}
use datum_rs.Template.Coinbase.{build_outputs, build_split_coinbase_bin}
use datum_rs.Template.Merkle.{build_merkle_branches, zero_hash}
use datum_rs.Coinbaser.{CoinbaseOutput, CoinbaserBlob}

pub record TemplateState : Type 0 where
  pub prev_hash : List ℕ
  pub height : ℕ
  pub nbits : List ℕ
  pub min_ntime : ℕ
  pub coinbase_value : ℕ
  pub coinbase_outputs : List CoinbaseOutput
  pub coinb1 : List ℕ
  pub coinb2 : List ℕ
  pub merkle_branches : List (List ℕ)
  pub version : ℕ
  pub job_id_seed : ℕ
  pub target_pot_index : ℕ
  pub datum_coinbaser_id : ℕ
  pub block_target : List ℕ
  pub txn_count : ℕ
  pub txn_total_weight : ℕ
  pub txn_total_size : ℕ
  pub txn_total_sigops : ℕ
  pub txn_data_hex : List (List ℕ)

-- `u32::from_be_bytes` of four bytes.
abbrev pub from_be_bytes : List ℕ → ℕ
from_be_bytes b = ((get_or b 0 0 * 256 + get_or b 1 0) * 256 + get_or b 2 0) * 256 + get_or b 3 0

-- The target of four bytes of compact form; the check on `base` repeats the one on the exponent.
unfoldable pub expand_nbits : ℕ → List ℕ
expand_nbits nbits =
    let exp = nbits / 2 ^ 24 in
    let mantissa = bit_and nbits 0x00FFFFFF in
    let base = exp - 3 in
    if not (leb 3 exp) || ltb 32 exp
    then zero_hash
    else if ltb 32 (base + 3)
    then zero_hash
    else set
        (set (set zero_hash base (bit_and mantissa 0xFF)) (base + 1)
          (bit_and (mantissa / 2 ^ 8) 0xFF))
        (base + 2) (bit_and (mantissa / 2 ^ 16) 0xFF)

-- Bytes of a given length, or none.
abbrev pub sized : ℕ → Option (List ℕ) → Option (List ℕ)
sized n none = none
sized n (some b) = if length b == n then some b else none

abbrev pub unwrap_or {ℓ} : {A : Type ℓ} → Option A → A → A
unwrap_or none d = d
unwrap_or (some a) d = a

-- Every four bytes of a hash the other way round.
unfoldable pub swap_words : ℕ → List ℕ → List ℕ
swap_words zero bytes = []
swap_words (suc n) bytes = reverse (take 4 bytes) ++ swap_words n (drop 4 bytes)

abbrev pub sum_u32 {ℓ} : {A : Type ℓ} → (A → ℕ) → List A → ℕ
sum_u32 f [] = 0
sum_u32 f (x ∷ xs) = (f x + sum_u32 f xs) % 2 ^ 32

module _ (hex_decode : List ℕ → Option (List ℕ)) where
  unfoldable pub nbits_to_target_le : List ℕ → List ℕ
  nbits_to_target_le nbits_hex = elim (sized 4 (hex_decode nbits_hex)) [
    | none ↦ zero_hash
    | some bytes ↦ expand_nbits (from_be_bytes bytes)
  ]

  -- The words of a hash swapped; a string that is no hash stays as it is.
  unfoldable pub swap_prev_hash_for_stratum : (List ℕ → List ℕ) → List ℕ → List ℕ
  swap_prev_hash_for_stratum hex_encode hash_hex = elim (sized 32 (hex_decode hash_hex)) [
    | none ↦ hash_hex
    | some bytes ↦ hex_encode (swap_words 8 bytes)
  ]

  unfoldable pub prev_hash_le : List ℕ → List ℕ
  prev_hash_le previous_block_hash = elim (sized 32 (hex_decode previous_block_hash)) [
    | none ↦ zero_hash
    | some a ↦ reverse a
  ]

  -- The target of the template, or else the one of its compact form.
  unfoldable pub block_target_le : Option (List ℕ) → List ℕ → List ℕ
  block_target_le none bits = nbits_to_target_le bits
  block_target_le (some hex_be) bits = elim (sized 32 (hex_decode hex_be)) [
    | none ↦ nbits_to_target_le bits
    | some a ↦ reverse a
  ]

  -- none where the loop over the merkle levels would run out of fuel.
  unfoldable pub from_template_and_blob :
      (List ℕ → List ℕ) → Template → CoinbaserBlob → ScriptSigInputs → ℕ → Option TemplateState
  from_template_and_blob double_sha256 template coinbaser scriptsig job_id_seed =
      let outputs_blob = build_outputs hex_decode template coinbaser in
      let (coinb1, coinb2, target_pot_index) =
        build_split_coinbase_bin template scriptsig outputs_blob in
      elim (build_merkle_branches double_sha256 hex_decode template) [
        | none ↦ none
        | some merkle_branches ↦ some (record {
          prev_hash = prev_hash_le template.previous_block_hash;
          height = template.height;
          nbits = unwrap_or (sized 4 (hex_decode template.bits)) (replicate 4 0);
          min_ntime = template.curtime % 2 ^ 32;
          coinbase_value = template.coinbase_value;
          coinbase_outputs = coinbaser.outputs;
          coinb1 = coinb1;
          coinb2 = coinb2;
          merkle_branches = merkle_branches;
          version = template.version;
          job_id_seed = job_id_seed;
          target_pot_index = target_pot_index;
          datum_coinbaser_id = coinbaser.datum_id;
          block_target = block_target_le template.target template.bits;
          txn_count = length template.transactions % 2 ^ 32;
          txn_total_weight = sum_u32 (λ t. t.weight) template.transactions;
          txn_total_size = sum_u32 (λ t. length t.data_hex % 2 ^ 32 / 2) template.transactions;
          txn_total_sigops = sum_u32 (λ t. t.sigops) template.transactions;
          txn_data_hex = map (λ t. t.data_hex) template.transactions;
        })
      ]
