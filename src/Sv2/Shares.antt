-- ===== src/Sv2/Shares.antt =====
-- validate_extended_share and validate_standard_share of crates/datum-stratum-sv2/src/share_path.rs. The
-- rejection counters, of a third-party library, are left out.
pub mod Acceptance
use datum_rs.Common.{
  ℕ, zero, ◌+◌, ◌-◌, ◌≡◌, ◌≢◌, refl, sym, ap, ◌∙◌, arith, min, Bool, true, false, not, ◌&&◌, List,
  [], ◌++◌, length, take, replicate, ◌==◌, if◌then◌else◌, some, none, bit_and, length-append,
  length-take, length-replicate, append-nil, take_all,
}
use datum_rs.ShareRelay.Jobs.{
  JobKey, JobEntry, JobTracker, lookup, cross_protocol_coinbase_already_seen,
}
use datum_rs.ShareRelay.Encoder.{
  SubmittedShareInputs, ShareUserConfig, BlockSubmissionPayload, share_body, is_block,
  block_payload, build_share_submission,
}
use datum_rs.ShareRelay.Relay.{
  ShareOutcome, valid, block_found, rejected, bad_extranonce_size, version_rolling_not_allowed,
  invalid_job_id, finalize_share, tracker_after, outcome_of,
}

pub record SubmitShares : Type 0 where
  pub nonce : ℕ
  pub ntime : ℕ
  pub version : ℕ
  pub extranonce : List ℕ

-- What a channel brings to the validation of its shares.
pub record Channel : Type 0 where
  pub extranonce_size : ℕ
  pub extranonce_prefix : List ℕ
  pub current_diff : ℕ
  pub username : List ℕ
  pub version_rolling_allowed : Bool
  pub job_key : JobKey
  pub template_seed : ℕ

-- Twelve bytes: the prefix, the miner's bytes as far as they fit, and zeros.
unfoldable pub full_extranonce : List ℕ → List ℕ → List ℕ
full_extranonce extranonce_prefix extra =
    let prefix_len = min (length extranonce_prefix) 12 in
    let suffix_len = min (12 - prefix_len) (length extra) in
    take prefix_len extranonce_prefix
    ++ (take suffix_len extra ++ replicate (12 - (prefix_len + suffix_len)) 0)

-- Whether a share rolls version bits that its channel may not roll.
abbrev pub rolls_version : Bool → ℕ → Bool
rolls_version version_rolling_allowed version =
    not version_rolling_allowed && not (bit_and version 0x1FFFE000 == 0)

-- coinb1 is not sent along: the relay patches it from the job.
unfoldable pub share_inputs : Channel → SubmitShares → List ℕ → SubmittedShareInputs
share_inputs channel share extranonce = record {
  username = channel.username;
  extranonce = extranonce;
  ntime = share.ntime;
  nonce = share.nonce;
  version = share.version;
  current_diff = channel.current_diff;
  patched_coinb1_bin = none;
}

module _ (double_sha256 : List ℕ → List ℕ) (hex_encode : List ℕ → List ℕ)
    (user_cfg : ShareUserConfig) where
  unfoldable pub validate_extended_share :
      Channel → SubmitShares → ℕ → JobTracker → ShareOutcome × JobTracker
  validate_extended_share channel share rb t =
      if not (length share.extranonce == channel.extranonce_size)
      then (rejected bad_extranonce_size, t)
      else if rolls_version channel.version_rolling_allowed share.version
      then (rejected version_rolling_not_allowed, t)
      else finalize_share double_sha256 hex_encode user_cfg channel.job_key channel.template_seed
          (share_inputs channel share (full_extranonce channel.extranonce_prefix share.extranonce))
          rb t

  unfoldable pub validate_standard_share :
      Channel → SubmitShares → ℕ → JobTracker → ShareOutcome × JobTracker
  validate_standard_share channel share rb t =
      if rolls_version channel.version_rolling_allowed share.version
      then (rejected version_rolling_not_allowed, t)
      else finalize_share double_sha256 hex_encode user_cfg channel.job_key channel.template_seed
          (share_inputs channel share (full_extranonce channel.extranonce_prefix [])) rb t

-- The extranonce that is hashed always has twelve bytes, and an Extended channel's is its prefix and the
-- miner's bytes where these are twelve together.
pub full_extranonce-twelve :
    (extranonce_prefix extra : List ℕ)
    → (length (full_extranonce extranonce_prefix extra) ≡ 12)
      × (length extranonce_prefix + length extra ≡ 12
          → full_extranonce extranonce_prefix extra ≡ extranonce_prefix ++ extra)
unfolding full_extranonce
full_extranonce-twelve p x = (
  omega (
    arith,
    length-append (take (min (length p) 12) p) (
        take (min (12 - min (length p) 12) (length x)) x
        ++ replicate (12 - (min (length p) 12 + min (12 - min (length p) 12) (length x))) 0),
    length-append (take (min (12 - min (length p) 12) (length x)) x)
        (replicate (12 - (min (length p) 12 + min (12 - min (length p) 12) (length x))) 0),
    length-take (min (length p) 12) p (omega arith),
    length-take (min (12 - min (length p) 12) (length x)) x (omega arith),
    length-replicate (12 - (min (length p) 12 + min (12 - min (length p) 12) (length x))) zero,
  ),
  λ h. rw (whole_prefix h, whole_extra h, no_zeros h, all p, all x, append-nil x) refl,
)
  where
    whole_prefix : length p + length x ≡ 12 → min (length p) 12 ≡ length p
    whole_prefix h = omega (arith, h)

    whole_extra : length p + length x ≡ 12 → min (12 - length p) (length x) ≡ length x
    whole_extra h = omega (arith, h)

    no_zeros : length p + length x ≡ 12 → 12 - (length p + length x) ≡ 0
    no_zeros h = omega (arith, h)

    all : (xs : List ℕ) → take (length xs) xs ≡ xs
    all xs = ap (take (length xs)) (sym (append-nil xs)) ∙ take_all xs []

outcome_of-if :
    (b : Bool) (body : List ℕ) (payload : BlockSubmissionPayload)
    → outcome_of body (if b then some payload else none)
      ≡ (if b then block_found body payload else valid body)
outcome_of-if true body payload = refl
outcome_of-if false body payload = refl

-- What an accepted share comes to.
abbrev pub accepted :
    (List ℕ → List ℕ)
    → (List ℕ → List ℕ)
    → ShareUserConfig
    → SubmittedShareInputs
    → JobEntry
    → Bool
    → ℕ
    → ShareOutcome
accepted double_sha256 hex_encode user_cfg inputs entry seen rb =
    if is_block double_sha256 inputs entry.meta
    then block_found (share_body double_sha256 inputs entry user_cfg seen rb)
        (block_payload double_sha256 hex_encode inputs entry.meta)
    else valid (share_body double_sha256 inputs entry user_cfg seen rb)

-- The four cases of an Extended channel's share.
pub validate_extended_share-cases :
    (double_sha256 hex_encode : List ℕ → List ℕ) (user_cfg : ShareUserConfig) (channel : Channel)
    (share : SubmitShares) (rb : ℕ) (t : JobTracker)
    → (length share.extranonce ≢ channel.extranonce_size
        → validate_extended_share double_sha256 hex_encode user_cfg channel share rb t
          ≡ (rejected bad_extranonce_size, t))
      × (length share.extranonce ≡ channel.extranonce_size
          → rolls_version channel.version_rolling_allowed share.version ≡ true
          → validate_extended_share double_sha256 hex_encode user_cfg channel share rb t
            ≡ (rejected version_rolling_not_allowed, t))
      × (length share.extranonce ≡ channel.extranonce_size
          → rolls_version channel.version_rolling_allowed share.version ≡ false
          → lookup channel.job_key t.by_key ≡ none
          → validate_extended_share double_sha256 hex_encode user_cfg channel share rb t
            ≡ (rejected invalid_job_id, t))
      × ((entry : JobEntry)
          → length share.extranonce ≡ channel.extranonce_size
          → rolls_version channel.version_rolling_allowed share.version ≡ false
          → lookup channel.job_key t.by_key ≡ some entry
          → validate_extended_share double_sha256 hex_encode user_cfg channel share rb t ≡ (
            accepted double_sha256 hex_encode user_cfg
                (share_inputs channel share
                  (full_extranonce channel.extranonce_prefix share.extranonce))
                entry
                (cross_protocol_coinbase_already_seen channel.template_seed entry.meta.coinbase_id
                  t)
                rb,
            tracker_after channel.job_key channel.template_seed entry t,
          ))
unfolding validate_extended_share finalize_share build_share_submission
validate_extended_share-cases d h u c s rb t = (
  λ n. ground (arith, n),
  λ n r. rw (same n, r) refl,
  λ n r l. rw (same n, r, finalize_share, l) refl,
  λ e n r l.
      rw (same n, r, finalize_share, l)
        (ap (λ o. (o, tracker_after c.job_key c.template_seed e t))
          (outcome_of-if (is_block d inputs e.meta) _ _)),
)
  where
    inputs : SubmittedShareInputs
    inputs = share_inputs c s (full_extranonce c.extranonce_prefix s.extranonce)

    same :
        length s.extranonce ≡ c.extranonce_size → (length s.extranonce == c.extranonce_size) ≡ true
    same n = ground (arith, n)
