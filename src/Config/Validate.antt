-- ===== src/Config/Validate.antt =====
-- validate and the functions that it calls, of crates/datum-config/src/validate.rs. What they push onto the
-- errors is what they return here, in the same order.
use datum_rs.Common.{
  ℕ, ◌+◌, ◌^◌, Bool, true, false, not, ◌&&◌, ◌||◌, List, [], ◌∷◌, ◌++◌, length, leb, ltb, ◌==◌,
  if◌then◌else◌, Result, ok, err,
}
use datum_rs.ShareRelay.Encoder.{floor_pot}
use datum_rs.Config.{
  Config, ValidationError, bitcoind_missing_credentials, bitcoind_rpc_user_missing_password,
  bitcoind_rpc_url_empty, bitcoind_work_update_seconds_out_of_range, stratum_max_threads_too_high,
  stratum_max_clients_per_thread_too_high, stratum_max_clients_exceeds_cap,
  stratum_vardiff_min_too_low, stratum_vardiff_min_not_power_of_two,
  stratum_vardiff_target_shares_min_too_low, stratum_vardiff_quickdiff_count_too_low,
  stratum_vardiff_quickdiff_delta_too_low, stratum_share_stale_seconds_out_of_range,
  stratum_username_modifier_proportions, mining_coinbase_tag_primary_too_long,
  mining_coinbase_tag_secondary_too_long, mining_coinbase_tags_combined_too_long,
  mining_pool_address_empty, extra_block_submit_too_many_urls, extra_block_submit_url_too_long,
  datum_protocol_timeout_too_low, datum_pooled_mining_without_host, datum_pool_pubkey_bad_length,
  datum_pool_pubkey_not_hex, logger_file_without_path, logger_level_console_out_of_range,
  logger_level_file_out_of_range, stratum_v2_cert_validity_sec_too_large,
  stratum_v2_enabled_without_authority_pubkey, stratum_v2_enabled_without_authority_secret,
  stratum_v2_min_hashrate_threshold_invalid, stratum_v2_expected_share_per_minute_invalid,
}
use datum_rs.Config.Floats.{
  Float, finite, below, at_most, is_finite, abs, sum, minus_units, one_units, tolerance_units,
  rate_max_units,
}
use datum_rs.Config.Integers.{ℤ, pos, less, ◌*ℤ◌, saturating_add}

abbrev pub is_empty : List ℕ → Bool
is_empty [] = true
is_empty (x ∷ xs) = false

unfoldable pub prev_power_of_two : ℕ → ℕ
prev_power_of_two n = if n == 0 then 0 else 2 ^ floor_pot n

-- `u64::is_power_of_two`.
abbrev pub is_power_of_two : ℕ → Bool
is_power_of_two n = not (n == 0) && (2 ^ floor_pot n == n)

-- `!(lo..=hi).contains(&x)`.
abbrev pub outside : ℕ → ℕ → ℤ → Bool
outside lo hi x = less x (pos lo) || less (pos hi) x

abbrev pub is_ascii_hexdigit : ℕ → Bool
is_ascii_hexdigit c = (leb 48 c && leb c 57) || ((leb 97 c && leb c 102) || (leb 65 c && leb c 70))

abbrev pub all_hex : List ℕ → Bool
all_hex [] = true
all_hex (c ∷ cs) = is_ascii_hexdigit c && all_hex cs

-- `if wrong { errs.push(e) }`.
abbrev pub complain : Bool → ValidationError → List (ValidationError)
complain true e = e ∷ []
complain false e = []

-- `if first { … } else if second { … }`.
abbrev pub complain_first : Bool → ValidationError → Bool → ValidationError → List (ValidationError)
complain_first true e second f = e ∷ []
complain_first false e second f = complain second f

unfoldable pub validate_bitcoind : Config → List (ValidationError)
validate_bitcoind c =
    let b = c.bitcoind in
    complain_first (is_empty b.rpccookiefile && (is_empty b.rpcuser && is_empty b.rpcpassword))
      bitcoind_missing_credentials (not (is_empty b.rpcuser) && is_empty b.rpcpassword)
      bitcoind_rpc_user_missing_password
    ++ (complain (is_empty b.rpcurl) bitcoind_rpc_url_empty
        ++ complain (outside 5 120 b.work_update_seconds)
            (bitcoind_work_update_seconds_out_of_range b.work_update_seconds))

abbrev pub validate_modifiers : List (List ℕ × List Float) → List (ValidationError)
validate_modifiers [] = []
validate_modifiers ((name, modifier) ∷ rest) =
    complain (below (finite (pos tolerance_units)) (abs (minus_units (sum modifier) one_units)))
      (stratum_username_modifier_proportions name (sum modifier))
    ++ validate_modifiers rest

unfoldable pub validate_stratum : Config → List (ValidationError)
validate_stratum c =
    let s = c.stratum in
    let cap = s.max_threads *ℤ s.max_clients_per_thread in
    complain (less (pos 256) s.max_threads) (stratum_max_threads_too_high s.max_threads)
    ++ (complain (less (pos 1024) s.max_clients_per_thread)
          (stratum_max_clients_per_thread_too_high s.max_clients_per_thread)
        ++ (complain (less cap s.max_clients) (
              stratum_max_clients_exceeds_cap s.max_clients s.max_threads s.max_clients_per_thread
                cap)
            ++ (complain_first (ltb s.vardiff_min 1) (stratum_vardiff_min_too_low s.vardiff_min)
                  (not (is_power_of_two s.vardiff_min))
                  (stratum_vardiff_min_not_power_of_two s.vardiff_min
                    (prev_power_of_two s.vardiff_min))
                ++ (complain (less s.vardiff_target_shares_min (pos 1))
                      (stratum_vardiff_target_shares_min_too_low s.vardiff_target_shares_min)
                    ++ (complain (less s.vardiff_quickdiff_count (pos 4))
                          (stratum_vardiff_quickdiff_count_too_low s.vardiff_quickdiff_count)
                        ++ (complain (less s.vardiff_quickdiff_delta (pos 3))
                              (stratum_vardiff_quickdiff_delta_too_low s.vardiff_quickdiff_delta)
                            ++ (complain (outside 60 150 s.share_stale_seconds)
                                  (stratum_share_stale_seconds_out_of_range s.share_stale_seconds)
                                ++ validate_modifiers s.username_modifiers)))))))

unfoldable pub validate_stratum_v2 : Config → List (ValidationError)
validate_stratum_v2 c =
    let s = c.stratum_v2 in
    complain (ltb 31536000 s.cert_validity_sec)
      (stratum_v2_cert_validity_sec_too_large s.cert_validity_sec)
    ++ (complain (s.enabled && is_empty s.authority_pubkey_path)
          stratum_v2_enabled_without_authority_pubkey
        ++ (complain (s.enabled && is_empty s.authority_secret_path)
              stratum_v2_enabled_without_authority_secret
            ++ (complain
                  (not (is_finite s.min_hashrate_threshold)
                    || at_most s.min_hashrate_threshold (finite (pos 0)))
                  (stratum_v2_min_hashrate_threshold_invalid s.min_hashrate_threshold)
                ++ complain
                    (not (is_finite s.expected_share_per_minute)
                      || (at_most s.expected_share_per_minute (finite (pos 0))
                          || at_most (finite (pos rate_max_units)) s.expected_share_per_minute))
                    (stratum_v2_expected_share_per_minute_invalid s.expected_share_per_minute))))

unfoldable pub validate_mining : Config → List (ValidationError)
validate_mining c =
    let m = c.mining in
    let combined = length m.coinbase_tag_primary + length m.coinbase_tag_secondary in
    complain (is_empty m.pool_address) mining_pool_address_empty
    ++ (complain (ltb 60 (length m.coinbase_tag_primary))
          (mining_coinbase_tag_primary_too_long (length m.coinbase_tag_primary))
        ++ (complain (ltb 60 (length m.coinbase_tag_secondary))
              (mining_coinbase_tag_secondary_too_long (length m.coinbase_tag_secondary))
            ++ complain (ltb 88 combined) (mining_coinbase_tags_combined_too_long combined)))

abbrev pub validate_urls : ℕ → List (List ℕ) → List (ValidationError)
validate_urls idx [] = []
validate_urls idx (url ∷ rest) =
    complain (ltb 512 (length url)) (extra_block_submit_url_too_long idx (length url))
    ++ validate_urls (idx + 1) rest

unfoldable pub validate_extra_block_submissions : Config → List (ValidationError)
validate_extra_block_submissions c =
    let urls = c.extra_block_submission_urls in
    complain (ltb 32 (length urls)) (extra_block_submit_too_many_urls (length urls))
    ++ validate_urls 0 urls

unfoldable pub validate_datum : Config → List (ValidationError)
validate_datum c =
    let d = c.datum in
    let floor = saturating_add c.bitcoind.work_update_seconds 5 in
    complain (less d.protocol_global_timeout floor)
      (datum_protocol_timeout_too_low d.protocol_global_timeout floor)
    ++ (complain (d.pooled_mining_only && is_empty d.pool_host) datum_pooled_mining_without_host
        ++ (if is_empty d.pool_pubkey
            then []
            else complain_first (not (length d.pool_pubkey == 128))
                (datum_pool_pubkey_bad_length (length d.pool_pubkey)) (not (all_hex d.pool_pubkey))
                datum_pool_pubkey_not_hex))

unfoldable pub validate_logger : Config → List (ValidationError)
validate_logger c =
    let l = c.logger in
    complain (l.log_to_file && is_empty l.log_file) logger_file_without_path
    ++ (complain (outside 0 5 l.log_level_console)
          (logger_level_console_out_of_range l.log_level_console)
        ++ complain (outside 0 5 l.log_level_file)
            (logger_level_file_out_of_range l.log_level_file))

abbrev pub all_errors : Config → List (ValidationError)
all_errors c =
    validate_bitcoind c
    ++ (validate_stratum c
        ++ (validate_stratum_v2 c
            ++ (validate_mining c
                ++ (validate_extra_block_submissions c
                    ++ (validate_datum c ++ validate_logger c)))))

abbrev pub result_of : List (ValidationError) → Result (List (ValidationError)) (Unit {0})
result_of [] = ok tt
result_of (e ∷ errs) = err (e ∷ errs)

unfoldable pub validate : Config → Result (List (ValidationError)) (Unit {0})
validate c = result_of (all_errors c)
