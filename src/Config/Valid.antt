-- ===== src/Config/Valid.antt =====
-- What a configuration has to be to be accepted: crates/datum-config/src/validate.rs.
use mathlib.Core.Bool.{true≢false}
use mathlib.Core.List.{cons≢nil}
use datum_rs.Common.{
  ℕ, ◌+◌, ◌^◌, ◌≤◌, ◌≡◌, ◌↔◌, refl, sym, ap, ◌∙◌, Bool, true, false, not, List, [], ◌∷◌, length,
  ◌==◌, if◌then◌else◌, Result, ok, err, All, ◌<◌, ==_iff,
}
use datum_rs.Config.{Config, ValidationError}
use datum_rs.Config.Floats.{
  rate_max_units, IsPositive, IsPositiveBelow, IsPositive-iff, IsPositiveBelow-iff,
}
use datum_rs.Config.Integers.{◌≤ℤ◌, less_iff, saturating_add}
use datum_rs.Config.Validate.{
  is_empty, all_hex, complain_first, validate_stratum_v2, validate_mining, validate_urls,
  validate_extra_block_submissions, validate_datum, validate_logger, all_errors, result_of,
  validate,
}
use datum_rs.Config.Conditions.{
  HasText, IsWithin, outside_iff, then_iff, both_iff, at_most_iff, unless_iff, not_iff,
}
use datum_rs.Config.Stratum.{
  complain_for, complain_first_for, IsBitcoind, validate_bitcoind_iff, IsStratum,
  validate_stratum_iff,
}

abbrev pub IsStratumV2 : Config → Type 0
IsStratumV2 c =
    (c.stratum_v2.cert_validity_sec ≤ 31536000)
    × ((c.stratum_v2.enabled ≡ true → HasText c.stratum_v2.authority_pubkey_path)
        × ((c.stratum_v2.enabled ≡ true → HasText c.stratum_v2.authority_secret_path)
            × (IsPositive c.stratum_v2.min_hashrate_threshold
                × IsPositiveBelow rate_max_units c.stratum_v2.expected_share_per_minute)))

validate_stratum_v2_iff : (c : Config) → (validate_stratum_v2 c ≡ []) ↔ IsStratumV2 c
unfolding validate_stratum_v2
validate_stratum_v2_iff c =
    both_iff _ _ (complain_for _ _ (at_most_iff c.stratum_v2.cert_validity_sec 31536000)) (
      both_iff _ _
        (complain_for _ _ (unless_iff c.stratum_v2.enabled c.stratum_v2.authority_pubkey_path))
        (both_iff _ _
          (complain_for _ _ (unless_iff c.stratum_v2.enabled c.stratum_v2.authority_secret_path))
          (both_iff _ _ (complain_for _ _ (IsPositive-iff c.stratum_v2.min_hashrate_threshold)) (
            complain_for _ _
              (IsPositiveBelow-iff rate_max_units c.stratum_v2.expected_share_per_minute)))))

abbrev pub IsMining : Config → Type 0
IsMining c =
    HasText c.mining.pool_address
    × ((length c.mining.coinbase_tag_primary ≤ 60)
        × ((length c.mining.coinbase_tag_secondary ≤ 60)
            × (length c.mining.coinbase_tag_primary + length c.mining.coinbase_tag_secondary ≤ 88)))

validate_mining_iff : (c : Config) → (validate_mining c ≡ []) ↔ IsMining c
unfolding validate_mining
validate_mining_iff c = both_iff _ _ (complain_for _ _ (λ e. e, λ e. e)) (
    both_iff _ _ (complain_for _ _ (at_most_iff (length c.mining.coinbase_tag_primary) 60)) (
      both_iff _ _ (complain_for _ _ (at_most_iff (length c.mining.coinbase_tag_secondary) 60)) (
        complain_for _ _ (
          at_most_iff
            (length c.mining.coinbase_tag_primary + length c.mining.coinbase_tag_secondary) 88))))

abbrev pub IsSubmissions : Config → Type 0
IsSubmissions c =
    (length c.extra_block_submission_urls ≤ 32)
    × All (λ url. length url ≤ 512) c.extra_block_submission_urls

validate_urls_iff :
    (idx : ℕ) (urls : List (List ℕ))
    → (validate_urls idx urls ≡ []) ↔ All (λ url. length url ≤ 512) urls
validate_urls_iff idx [] = (λ e. tt, λ t. refl)
validate_urls_iff idx (url ∷ urls) =
    both_iff _ _ (complain_for _ _ (at_most_iff (length url) 512))
      (validate_urls_iff (idx + 1) urls)

validate_extra_block_submissions_iff :
    (c : Config) → (validate_extra_block_submissions c ≡ []) ↔ IsSubmissions c
unfolding validate_extra_block_submissions
validate_extra_block_submissions_iff c =
    both_iff _ _ (complain_for _ _ (at_most_iff (length c.extra_block_submission_urls) 32))
      (validate_urls_iff 0 c.extra_block_submission_urls)

-- No public key, or one of 128 hexadecimal digits.
abbrev pub IsPubkey : List ℕ → Type 0
IsPubkey key = HasText key → (length key ≡ 128) × (all_hex key ≡ true)

abbrev pub IsDatum : Config → Type 0
IsDatum c =
    (saturating_add c.bitcoind.work_update_seconds 5 ≤ℤ c.datum.protocol_global_timeout)
    × ((c.datum.pooled_mining_only ≡ true → HasText c.datum.pool_host)
        × IsPubkey c.datum.pool_pubkey)

IsPubkey-iff :
    (key : List ℕ) (b : Bool) (e f : ValidationError)
    → is_empty key ≡ b
    → ((if b then [] else complain_first (not (length key == 128)) e (not (all_hex key)) f) ≡ [])
      ↔ IsPubkey key
IsPubkey-iff key true e f q = (λ h t. absurd (true≢false (sym q ∙ t)), λ h. refl)
IsPubkey-iff key false e f q =
    then_iff
      (complain_first_for _ e _ f (then_iff (not_iff (length key == 128)) (==_iff (length key) 128))
        (not_iff (all_hex key)))
      (λ h t. h, λ h. h q)

validate_datum_iff : (c : Config) → (validate_datum c ≡ []) ↔ IsDatum c
unfolding validate_datum
validate_datum_iff c =
    both_iff _ _
      (complain_for _ _ (
        less_iff c.datum.protocol_global_timeout (saturating_add c.bitcoind.work_update_seconds 5)))
      (both_iff _ _ (complain_for _ _ (unless_iff c.datum.pooled_mining_only c.datum.pool_host))
        (IsPubkey-iff c.datum.pool_pubkey (is_empty c.datum.pool_pubkey) _ _ refl))

abbrev pub IsLogger : Config → Type 0
IsLogger c =
    (c.logger.log_to_file ≡ true → HasText c.logger.log_file)
    × (IsWithin 0 5 c.logger.log_level_console × IsWithin 0 5 c.logger.log_level_file)

validate_logger_iff : (c : Config) → (validate_logger c ≡ []) ↔ IsLogger c
unfolding validate_logger
validate_logger_iff c =
    both_iff _ _ (complain_for _ _ (unless_iff c.logger.log_to_file c.logger.log_file)) (
      both_iff _ _ (complain_for _ _ (outside_iff 0 5 c.logger.log_level_console))
        (complain_for _ _ (outside_iff 0 5 c.logger.log_level_file)))

abbrev pub IsValid : Config → Type 0
IsValid c =
    IsBitcoind c
    × (IsStratum c × (IsStratumV2 c × (IsMining c × (IsSubmissions c × (IsDatum c × IsLogger c)))))

abbrev is_ok : Result (List (ValidationError)) (Unit {0}) → Bool
is_ok (ok u) = true
is_ok (err errs) = false

result_iff : (errs : List (ValidationError)) → (result_of errs ≡ ok tt) ↔ (errs ≡ [])
result_iff [] = (λ e. refl, λ e. refl)
result_iff (e ∷ errs) = (λ q. absurd (true≢false (sym (ap is_ok q))), λ q. absurd (cons≢nil q))

-- A configuration, whose vardiff minimum is a 64-bit number, is accepted exactly when it fulfils the
-- conditions of every section: a cookie file or a password, and a password where there is a user; the
-- ranges of the numbers; the client cap; a power of two as the vardiff minimum; proportions whose 64-bit
-- sum differs from 1 by at most the 64-bit number nearest to 1e-6, the difference being rounded too (a sum
-- that is no number passes); a finite positive hash rate and a finite positive share rate below 10000;
-- the lengths of the tags and URLs; a timeout above the work interval; and a public key that is absent
-- or of 128 hexadecimal digits.
pub validate_iff : (c : Config) → c.stratum.vardiff_min < 2 ^ 64 → (validate c ≡ ok tt) ↔ IsValid c
unfolding validate
validate_iff c small = then_iff (result_iff (all_errors c)) (
    both_iff _ _ (validate_bitcoind_iff c) (
      both_iff _ _ (validate_stratum_iff c small) (
        both_iff _ _ (validate_stratum_v2_iff c) (
          both_iff _ _ (validate_mining_iff c) (
            both_iff _ _ (validate_extra_block_submissions_iff c)
              (both_iff _ _ (validate_datum_iff c) (validate_logger_iff c)))))))
