-- ===== src/ShareRelay/Relay.antt =====
-- A share through the relay: the loop of crates/datum-bin/src/main.rs for SV1 and finalize_share of
-- crates/datum-stratum-sv2/src/share_path.rs for SV2, on the job tracker that they share.
use datum_rs.Common.{ℕ, ◌&&◌, not, List, [], ◌∷◌, ◌++◌, if◌then◌else◌, Option, some, none}
use datum_rs.ShareRelay.{JobMeta}
use datum_rs.ShareRelay.Jobs.{
  JobKey, JobEntry, JobTracker, lookup, insert, store, cross_protocol_coinbase_already_seen,
  mark_cross_protocol_coinbase_seen,
}
use datum_rs.ShareRelay.Encoder.{
  SubmittedShareInputs, ShareUserConfig, ShareEncoded, BlockSubmissionPayload,
  build_share_submission, flagged, flag_of, sends_coinbase,
}

-- The tracker after a share of a job that it has: the job's flags, and the pair marked as seen.
unfoldable pub tracker_after : JobKey → ℕ → JobEntry → JobTracker → JobTracker
tracker_after key template_seed entry t =
    let seen = cross_protocol_coinbase_already_seen template_seed entry.meta.coinbase_id t in
    let entry' = flagged entry seen in
    let t' = store key entry' t in
    if not seen && flag_of entry'.server_has_coinbase entry.meta.coinbase_id
    then mark_cross_protocol_coinbase_seen template_seed entry.meta.coinbase_id t'
    else t'

pub data RejectCode : Type 0 where
  bad_extranonce_size : RejectCode
  version_rolling_not_allowed : RejectCode
  invalid_job_id : RejectCode

pub data ShareOutcome : Type 0 where
  valid : (body : List ℕ) → ShareOutcome
  block_found : (body : List ℕ) (payload : BlockSubmissionPayload) → ShareOutcome
  rejected : (error_code : RejectCode) → ShareOutcome

abbrev pub outcome_of : List ℕ → Option BlockSubmissionPayload → ShareOutcome
outcome_of body none = valid body
outcome_of body (some payload) = block_found body payload

module _ (double_sha256 : List ℕ → List ℕ) (hex_encode : List ℕ → List ℕ)
    (user_cfg : ShareUserConfig) where
  -- The SV1 relay: a share of a job that is not tracked is dropped.
  unfoldable pub relay_share :
      JobKey → SubmittedShareInputs → ℕ → JobTracker → Option ShareEncoded × JobTracker
  relay_share key inputs rb t = elim (lookup key t.by_key) [
    | none ↦ (none, t)
    | some entry ↦
        let seen =
          cross_protocol_coinbase_already_seen entry.template_seed entry.meta.coinbase_id t in
        let (enc, entry') =
          build_share_submission double_sha256 hex_encode inputs entry user_cfg seen rb in
        (some enc, tracker_after key entry.template_seed entry t)
  ]

  -- The SV2 path: the seed comes with the share, coinb1 is patched from the job.
  unfoldable pub finalize_share :
      JobKey → ℕ → SubmittedShareInputs → ℕ → JobTracker → ShareOutcome × JobTracker
  finalize_share key template_seed inputs rb t = elim (lookup key t.by_key) [
    | none ↦ (rejected invalid_job_id, t)
    | some entry ↦
        let seen = cross_protocol_coinbase_already_seen template_seed entry.meta.coinbase_id t in
        let (enc, entry') =
          build_share_submission double_sha256 hex_encode inputs entry user_cfg seen rb in
        (outcome_of enc.body enc.block_submission, tracker_after key template_seed entry t)
  ]

-- What happens to the tracker between two reconnects.
pub data Step : Type 0 where
  insert_job : (key : JobKey) (meta : JobMeta) (template_seed : ℕ) → Step
  sv1_share : (key : JobKey) → Step
  sv2_share : (key : JobKey) (template_seed : ℕ) → Step

unfoldable pub step : Step → JobTracker → JobTracker
step (insert_job key meta template_seed) t = insert key meta template_seed t
step (sv1_share key) t = elim (lookup key t.by_key) [
  | none ↦ t
  | some entry ↦ tracker_after key entry.template_seed entry t
]
step (sv2_share key template_seed) t = elim (lookup key t.by_key) [
  | none ↦ t
  | some entry ↦ tracker_after key template_seed entry t
]

-- The pair of template seed and coinbase id whose sub-block 0x02 a share carries.
unfoldable pub pair_sent : ℕ → JobEntry → JobTracker → List (ℕ × ℕ)
pair_sent template_seed entry t =
    if sends_coinbase entry
      (cross_protocol_coinbase_already_seen template_seed entry.meta.coinbase_id t)
    then (template_seed, entry.meta.coinbase_id) ∷ []
    else []

unfoldable pub sent_by : Step → JobTracker → List (ℕ × ℕ)
sent_by (insert_job key meta template_seed) t = []
sent_by (sv1_share key) t = elim (lookup key t.by_key) [
  | none ↦ []
  | some entry ↦ pair_sent entry.template_seed entry t
]
sent_by (sv2_share key template_seed) t = elim (lookup key t.by_key) [
  | none ↦ []
  | some entry ↦ pair_sent template_seed entry t
]

unfoldable pub sent : List Step → JobTracker → List (ℕ × ℕ)
sent [] t = []
sent (s ∷ ss) t = sent_by s t ++ sent ss (step s t)
