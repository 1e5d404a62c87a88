-- ===== src/Examples/Blocks.antt =====
-- crates/datum-blocktemplates: coinbase, merkle branches and target, at concrete inputs. The hash of the
-- examples is the sum of the bytes.
use datum_rs.Common.{
  ℕ, ◌+◌, ◌^◌, ◌<◌, ◌≡◌, arith, List, [], ◌∷◌, ◌++◌, length, get_or, set, drop, some, none,
}
use datum_rs.Template.{Template, ScriptSigInputs}
use datum_rs.Template.Varint.{read_compact_size}
use datum_rs.Template.Height.{height_bytes, significant_bytes, bip34_height_script}
use datum_rs.Template.Coinbase.{
  build_split_coinbase_bin, scriptsig_len, build_tag_push_block, build_uid_push_block,
}
use datum_rs.Template.Coinbase.Layout.{with_pot, coinb1_declares_script, target_pot_index_points}
use datum_rs.Template.Merkle.Root.{merkle_root, folded, folded-merkle_root, folded_four}

pub sum_hash : List ℕ → List ℕ
sum_hash [] = 1 ∷ []
sum_hash (b ∷ bs) = (b + get_or (sum_hash bs) 0 0) ∷ []

abbrev pub template : Template
template = record {
  version = 0x20000000;
  previous_block_hash = [];
  bits = [];
  height = 800000;
  coinbase_value = 312500000;
  curtime = 1700000000;
  default_witness_commitment = none;
  transactions = [];
  target = none;
}

abbrev pub tags : ScriptSigInputs
tags = record {
  coinbase_tag_primary = 68 ∷ 65 ∷ [];
  coinbase_tag_secondary = 85 ∷ [];
  coinbase_unique_id = 4242;
  enprefix = 0;
  pot_placeholder = 0xFF;
}

coinb1_declares_script_example :
    (script : List ℕ) × (read_compact_size (drop 41 (build_split_coinbase_bin template tags []).0)
      ≡ some (length script + 12, script))
unfolding scriptsig_len bip34_height_script height_bytes significant_bytes build_tag_push_block
    build_uid_push_block
coinb1_declares_script_example = coinb1_declares_script template tags [] short
  where
    short : scriptsig_len template tags < 2 ^ 64
    short = omega arith

target_pot_index_points_example :
    (get_or
        (build_split_coinbase_bin template tags []).0
        (build_split_coinbase_bin template tags []).2
        0
      ≡ 0xFF)
    × ((pot : ℕ)
        → set
            (build_split_coinbase_bin template tags []).0
            (build_split_coinbase_bin template tags []).2
            pot
          ≡ (build_split_coinbase_bin template (with_pot tags pot) []).0)
target_pot_index_points_example =
    target_pot_index_points template tags [] (omega arith) (omega arith)

abbrev ids : List (List ℕ)
ids = (2 ∷ []) ∷ (3 ∷ []) ∷ (4 ∷ []) ∷ []

folded-merkle_root_example :
    folded sum_hash (1 ∷ []) ids ≡ some (merkle_root sum_hash 3 ((1 ∷ []) ∷ ids))
folded-merkle_root_example = folded-merkle_root sum_hash (1 ∷ []) ids (omega arith)

folded_four_example :
    (folded sum_hash [] ((1 ∷ []) ∷ (2 ∷ []) ∷ (3 ∷ []) ∷ (4 ∷ []) ∷ [])
      ≡ some (
          sum_hash (
            sum_hash (sum_hash (1 ∷ []) ++ sum_hash (2 ∷ 3 ∷ []))
            ++ sum_hash (sum_hash (2 ∷ 3 ∷ []) ++ sum_hash (4 ∷ 4 ∷ [])))))
    × (merkle_root sum_hash 4 ([] ∷ (1 ∷ []) ∷ (2 ∷ []) ∷ (3 ∷ []) ∷ (4 ∷ []) ∷ [])
        ≡ sum_hash (
            sum_hash (sum_hash (1 ∷ []) ++ sum_hash (2 ∷ 3 ∷ []))
            ++ sum_hash (sum_hash (4 ∷ 4 ∷ []) ++ sum_hash (4 ∷ 4 ∷ []))))
folded_four_example = folded_four sum_hash [] (1 ∷ []) (2 ∷ []) (3 ∷ []) (4 ∷ [])
