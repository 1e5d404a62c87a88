-- ===== src/Template/Coinbase.antt =====
-- build_outputs, build_tag_push_block, build_uid_push_block and build_split_coinbase_bin of
-- crates/datum-blocktemplates/src/template_state.rs. The hex decoder is a third-party crate's: a
-- parameter.
pub mod Layout
use datum_rs.Common.{
  ℕ, ◌+◌, ◌*◌, ◌/◌, ◌%◌, ◌^◌, List, [], ◌∷◌, ◌++◌, map, length, replicate, leb, if◌then◌else◌,
  Option, some, none, to_le_bytes, bit_and,
}
use datum_rs.Template.{Template, ScriptSigInputs, extranonce_placeholder_len, enprefix_len}
use datum_rs.Template.Varint.{push_varint}
use datum_rs.Template.Height.{bip34_height_script}
use datum_rs.Coinbaser.{CoinbaseOutput, CoinbaserBlob}

unfoldable pub output_entries : List CoinbaseOutput → List ℕ
output_entries [] = []
output_entries (o ∷ os) =
    to_le_bytes 8 o.value_sats
    ++ (push_varint (length o.script_pubkey) ++ (o.script_pubkey ++ output_entries os))

abbrev pub commitment_count : Option (List ℕ) → ℕ
commitment_count none = 0
commitment_count (some c) = 1

-- The witness commitment's output; one that does not decode is counted all the same, and left out.
unfoldable pub commitment_entry : (List ℕ → Option (List ℕ)) → Option (List ℕ) → List ℕ
commitment_entry hex_decode none = []
commitment_entry hex_decode (some commitment_hex) = elim (hex_decode commitment_hex) [
  | none ↦ []
  | some commitment ↦ to_le_bytes 8 0 ++ (push_varint (length commitment) ++ commitment)
]

unfoldable pub build_outputs : (List ℕ → Option (List ℕ)) → Template → CoinbaserBlob → List ℕ
build_outputs hex_decode template coinbaser =
    push_varint (length coinbaser.outputs + commitment_count template.default_witness_commitment)
    ++ (output_entries coinbaser.outputs
        ++ commitment_entry hex_decode template.default_witness_commitment)

-- The body of the tag push: 0x0F between the tags, a NUL behind the last one.
abbrev pub tag_body : List ℕ → List ℕ → List ℕ
tag_body [] [] = []
tag_body [] (s ∷ ss) = 0x0F ∷ ((s ∷ ss) ++ (0x00 ∷ []))
tag_body (p ∷ ps) [] = (p ∷ ps) ++ (0x00 ∷ [])
tag_body (p ∷ ps) (s ∷ ss) = (p ∷ ps) ++ (0x0F ∷ ((s ∷ ss) ++ (0x00 ∷ [])))

abbrev pub push_body : List ℕ → List ℕ
push_body [] = 0x01 ∷ 0x00 ∷ []
push_body (b ∷ bs) =
    let k = length (b ∷ bs) in
    if leb k 75 then (k % 2 ^ 8) ∷ b ∷ bs else (0x4C ∷ (k % 2 ^ 8) ∷ b ∷ bs)

unfoldable pub build_tag_push_block : List ℕ → List ℕ → List ℕ
build_tag_push_block primary secondary = push_body (tag_body primary secondary)

unfoldable pub build_uid_push_block : ℕ → ℕ → List ℕ
build_uid_push_block pot_placeholder unique_id =
    0x03 ∷ pot_placeholder ∷ bit_and unique_id 0xFF ∷ bit_and (unique_id / 2 ^ 8) 0xFF ∷ []

-- The transaction up to the length of its scriptSig: version, input count, null outpoint.
abbrev pub coinbase_start : List ℕ
coinbase_start = to_le_bytes 4 1 ++ (0x01 ∷ (replicate 32 0 ++ to_le_bytes 4 0xFFFFFFFF))

-- The scriptSig before the block of the unique id, and from that block up to the split.
abbrev pub script_head : Template → ScriptSigInputs → List ℕ
script_head template scriptsig =
    bip34_height_script template.height
    ++ build_tag_push_block scriptsig.coinbase_tag_primary scriptsig.coinbase_tag_secondary

unfoldable pub scriptsig_len : Template → ScriptSigInputs → ℕ
scriptsig_len template scriptsig =
    length (bip34_height_script template.height)
    + length (build_tag_push_block scriptsig.coinbase_tag_primary scriptsig.coinbase_tag_secondary)
    + length (build_uid_push_block scriptsig.pot_placeholder scriptsig.coinbase_unique_id)
    + 1
    + enprefix_len
    + extranonce_placeholder_len

-- (coinb1, coinb2, target_pot_index): the offset is taken before the uid block is appended.
unfoldable pub build_split_coinbase_bin : Template → ScriptSigInputs → List ℕ → List ℕ × List ℕ × ℕ
build_split_coinbase_bin template scriptsig outputs_blob =
    let before =
      coinbase_start
      ++ (push_varint (scriptsig_len template scriptsig) ++ script_head template scriptsig) in
    (
      before
          ++ (build_uid_push_block scriptsig.pot_placeholder scriptsig.coinbase_unique_id
              ++ (0x0E ∷ to_le_bytes 2 scriptsig.enprefix)),
      to_le_bytes 4 0xFFFFFFFF ++ (outputs_blob ++ to_le_bytes 4 0),
      (length before + 1) % 2 ^ 16,
    )
