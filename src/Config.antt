-- ===== src/Config.antt =====
-- crates/datum-config: the values that validation reads, and what it can complain of.
pub mod Integers
pub mod Floats
pub mod Validate
pub mod Conditions
pub mod Stratum
pub mod Valid
use datum_rs.Common.{ℕ, Bool, List}
use datum_rs.Config.Integers.{ℤ}
use datum_rs.Config.Floats.{Float}

pub record BitcoindConfig : Type 0 where
  pub rpccookiefile : List ℕ
  pub rpcuser : List ℕ
  pub rpcpassword : List ℕ
  pub rpcurl : List ℕ
  pub work_update_seconds : ℤ

pub record StratumConfig : Type 0 where
  pub max_threads : ℤ
  pub max_clients_per_thread : ℤ
  pub max_clients : ℤ
  pub vardiff_min : ℕ
  pub vardiff_target_shares_min : ℤ
  pub vardiff_quickdiff_count : ℤ
  pub vardiff_quickdiff_delta : ℤ
  pub share_stale_seconds : ℤ
  pub username_modifiers : List (List ℕ × List Float)

pub record StratumV2Config : Type 0 where
  pub enabled : Bool
  pub cert_validity_sec : ℕ
  pub authority_pubkey_path : List ℕ
  pub authority_secret_path : List ℕ
  pub min_hashrate_threshold : Float
  pub expected_share_per_minute : Float

pub record MiningConfig : Type 0 where
  pub pool_address : List ℕ
  pub coinbase_tag_primary : List ℕ
  pub coinbase_tag_secondary : List ℕ

pub record DatumConfig : Type 0 where
  pub protocol_global_timeout : ℤ
  pub pooled_mining_only : Bool
  pub pool_host : List ℕ
  pub pool_pubkey : List ℕ

pub record LoggerConfig : Type 0 where
  pub log_to_file : Bool
  pub log_file : List ℕ
  pub log_level_console : ℤ
  pub log_level_file : ℤ

pub record Config : Type 0 where
  pub bitcoind : BitcoindConfig
  pub stratum : StratumConfig
  pub stratum_v2 : StratumV2Config
  pub mining : MiningConfig
  pub extra_block_submission_urls : List (List ℕ)
  pub datum : DatumConfig
  pub logger : LoggerConfig

pub data ValidationError : Type 0 where
  bitcoind_missing_credentials : ValidationError
  bitcoind_rpc_user_missing_password : ValidationError
  bitcoind_rpc_url_empty : ValidationError
  bitcoind_work_update_seconds_out_of_range : (got : ℤ) → ValidationError
  stratum_max_threads_too_high : (got : ℤ) → ValidationError
  stratum_max_clients_per_thread_too_high : (got : ℤ) → ValidationError
  stratum_max_clients_exceeds_cap : (max_clients threads per_thread cap : ℤ) → ValidationError
  stratum_vardiff_min_too_low : (got : ℕ) → ValidationError
  stratum_vardiff_min_not_power_of_two : (got rounded : ℕ) → ValidationError
  stratum_vardiff_target_shares_min_too_low : (got : ℤ) → ValidationError
  stratum_vardiff_quickdiff_count_too_low : (got : ℤ) → ValidationError
  stratum_vardiff_quickdiff_delta_too_low : (got : ℤ) → ValidationError
  stratum_share_stale_seconds_out_of_range : (got : ℤ) → ValidationError
  stratum_username_modifier_proportions : (modifier : List ℕ) (sum : Float) → ValidationError
  mining_coinbase_tag_primary_too_long : (got : ℕ) → ValidationError
  mining_coinbase_tag_secondary_too_long : (got : ℕ) → ValidationError
  mining_coinbase_tags_combined_too_long : (got : ℕ) → ValidationError
  mining_pool_address_empty : ValidationError
  extra_block_submit_too_many_urls : (got : ℕ) → ValidationError
  extra_block_submit_url_too_long : (idx got : ℕ) → ValidationError
  datum_protocol_timeout_too_low : (got floor : ℤ) → ValidationError
  datum_pooled_mining_without_host : ValidationError
  datum_pool_pubkey_bad_length : (got : ℕ) → ValidationError
  datum_pool_pubkey_not_hex : ValidationError
  logger_file_without_path : ValidationError
  logger_level_console_out_of_range : (got : ℤ) → ValidationError
  logger_level_file_out_of_range : (got : ℤ) → ValidationError
  stratum_v2_cert_validity_sec_too_large : (got : ℕ) → ValidationError
  stratum_v2_enabled_without_authority_pubkey : ValidationError
  stratum_v2_enabled_without_authority_secret : ValidationError
  stratum_v2_min_hashrate_threshold_invalid : (got : Float) → ValidationError
  stratum_v2_expected_share_per_minute_invalid : (got : Float) → ValidationError
