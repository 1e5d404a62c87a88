-- ===== src/Examples/Configs.antt =====
-- crates/datum-config: a configuration that is accepted, at concrete values.
use datum_rs.Common.{
  replicate, refl, ◌-◌, ◌*◌, ◌^◌, ◌≡◌, ◌↔◌, arith, true, false, List, [], ◌∷◌, ok,
}
use datum_rs.Config.{Config}
use datum_rs.Config.Floats.{Float, finite, sum, plus_finite, round, rounded, to_even, bit_length}
use datum_rs.Config.Integers.{pos}
use datum_rs.Config.Validate.{validate}
use datum_rs.Config.Valid.{IsValid, validate_iff}

abbrev halves : List Float
halves = finite (pos (2 ^ 1073)) ∷ finite (pos (2 ^ 1073)) ∷ []

-- Ten times 0.1 falls short of 1 by 2^-53, which the tolerance covers.
tenths_sum :
    sum (replicate 10 (finite (pos (0x1999999999999A * 2 ^ 1018))))
    ≡ finite (pos (2 ^ 1074 - 2 ^ 1021))
unfolding plus_finite round rounded to_even bit_length
tenths_sum = refl

abbrev defaults : Config
defaults = record {
  bitcoind = record {
    rpccookiefile = [];
    rpcuser = 117 ∷ [];
    rpcpassword = 112 ∷ [];
    rpcurl = 104 ∷ [];
    work_update_seconds = pos 40;
  };
  stratum = record {
    max_threads = pos 8;
    max_clients_per_thread = pos 128;
    max_clients = pos 1024;
    vardiff_min = 16384;
    vardiff_target_shares_min = pos 8;
    vardiff_quickdiff_count = pos 8;
    vardiff_quickdiff_delta = pos 8;
    share_stale_seconds = pos 120;
    username_modifiers = (97 ∷ [], halves) ∷ [];
  };
  stratum_v2 = record {
    enabled = false;
    cert_validity_sec = 3600;
    authority_pubkey_path = [];
    authority_secret_path = [];
    min_hashrate_threshold = finite (pos (1000000000000 * 2 ^ 1074));
    expected_share_per_minute = finite (pos (6 * 2 ^ 149));
  };
  mining = record {
    pool_address = 98 ∷ [];
    coinbase_tag_primary = 68 ∷ [];
    coinbase_tag_secondary = 85 ∷ [];
  };
  extra_block_submission_urls = [];
  datum = record {
    protocol_global_timeout = pos 60;
    pooled_mining_only = true;
    pool_host = 111 ∷ [];
    pool_pubkey = [];
  };
  logger = record {
    log_to_file = false;
    log_file = [];
    log_level_console = pos 2;
    log_level_file = pos 1;
  };
}

validate_iff_example : (validate defaults ≡ ok tt) ↔ IsValid defaults
validate_iff_example = validate_iff defaults (omega arith)
