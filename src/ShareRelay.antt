-- ===== src/ShareRelay.antt =====
-- crates/datum-share-relay: the jobs that shares are accepted for, and the share sent to the pool.
pub mod Jobs
pub mod Capacity
pub mod Target
pub mod Encoder
pub mod Relay
pub mod Once
use datum_rs.Common.{ℕ, List}
use datum_rs.Template.State.{TemplateState}

-- What the relay keeps of an emitted job (crates/datum-stratum-sv1/src/assembler.rs).
pub record JobMeta : Type 0 where
  pub datum_job_idx : ℕ
  pub coinbase_id : ℕ
  pub target_pot_index : ℕ
  pub version : ℕ
  pub height : ℕ
  pub coinbase_value : ℕ
  pub prevhash_bin : List ℕ
  pub nbits_bin : List ℕ
  pub merkle_branches_bin : List (List ℕ)
  pub coinb1_bin : List ℕ
  pub coinb2_bin : List ℕ
  pub datum_coinbaser_id : ℕ
  pub txn_count : ℕ
  pub txn_total_weight : ℕ
  pub txn_total_size : ℕ
  pub txn_total_sigops : ℕ
  pub block_target : List ℕ
  pub txn_data_hex : List (List ℕ)

unfoldable pub job_meta_of_state : ℕ → ℕ → TemplateState → JobMeta
job_meta_of_state datum_job_idx coinbase_id state = record {
  datum_job_idx = datum_job_idx;
  coinbase_id = coinbase_id;
  target_pot_index = state.target_pot_index;
  version = state.version;
  height = state.height;
  coinbase_value = state.coinbase_value;
  prevhash_bin = state.prev_hash;
  nbits_bin = state.nbits;
  merkle_branches_bin = state.merkle_branches;
  coinb1_bin = state.coinb1;
  coinb2_bin = state.coinb2;
  datum_coinbaser_id = state.datum_coinbaser_id;
  txn_count = state.txn_count;
  txn_total_weight = state.txn_total_weight;
  txn_total_size = state.txn_total_size;
  txn_total_sigops = state.txn_total_sigops;
  block_target = state.block_target;
  txn_data_hex = state.txn_data_hex;
}
