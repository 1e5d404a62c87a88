-- ===== src/Template.antt =====
-- crates/datum-blocktemplates/src/lib.rs and template_state.rs: a block template and the job state made
-- of it. Strings are lists of bytes.
pub mod Varint
pub mod Height
pub mod Coinbase
pub mod Merkle
pub mod State
use datum_rs.Common.{ℕ, List, Option}

pub record TemplateTransaction : Type 0 where
  pub data_hex : List ℕ
  pub txid : List ℕ
  pub sigops : ℕ
  pub weight : ℕ

pub record Template : Type 0 where
  pub version : ℕ
  pub previous_block_hash : List ℕ
  pub bits : List ℕ
  pub height : ℕ
  pub coinbase_value : ℕ
  pub curtime : ℕ
  pub default_witness_commitment : Option (List ℕ)
  pub transactions : List TemplateTransaction
  pub target : Option (List ℕ)

abbrev pub extranonce_placeholder_len : ℕ
extranonce_placeholder_len = 12

abbrev pub enprefix_len : ℕ
enprefix_len = 2

pub record ScriptSigInputs : Type 0 where
  pub coinbase_tag_primary : List ℕ
  pub coinbase_tag_secondary : List ℕ
  pub coinbase_unique_id : ℕ
  pub enprefix : ℕ
  pub pot_placeholder : ℕ
