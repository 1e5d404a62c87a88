-- ===== src/Sv2/Channels.antt =====
-- ChannelManager of crates/datum-stratum-sv2/src/channel_manager.rs: the channels of one connection, and the
-- messages with which a channel is opened and given work. The extranonce allocator, the size limits of the
-- wire types and the floating-point test of the hash rate are parameters.
pub mod Utf8
pub mod Open
pub mod Update
pub mod Cases
pub mod Grants
pub mod Ids
pub mod Work
use mathlib.Core.List.{reverse}
use datum_rs.Common.{
  ℕ, ◌+◌, ◌%◌, ◌^◌, Bool, ◌&&◌, true, false, not, List, [], ◌∷◌, ◌++◌, length, map, ◌==◌,
  if◌then◌else◌, Option, some, none,
}
use datum_rs.Template.State.{TemplateState, from_be_bytes}

-- What the manager uses of third-party code: `allocate_extended(10)` and `allocate_standard` with the slot
-- that a dropped prefix gives back, whether bytes fit B032 and B064K and hashes Seq0255, and whether a
-- nominal hash rate is finite, positive and at least the threshold.
pub record Services : Type 1 where
  pub Allocator : Type 0
  pub Prefix : Type 0
  pub HashRate : Type 0
  pub as_bytes : Prefix → List ℕ
  pub allocate_extended : Allocator → Option Prefix × Allocator
  pub allocate_standard : Allocator → Option Prefix × Allocator
  pub release : Prefix → Allocator → Allocator
  pub fits_b032 : List ℕ → Bool
  pub fits_b064k : List ℕ → Bool
  pub fits_seq0255 : List (List ℕ) → Bool
  pub accepts_hash_rate : HashRate → Bool

pub data OpenError : Type 0 where
  allocator : OpenError
  no_template_yet : OpenError
  encode : OpenError

pub data OpenCode : Type 0 where
  invalid_user_identity : OpenCode
  invalid_nominal_hashrate : OpenCode
  max_target_out_of_range : OpenCode
  min_extranonce_size_too_large : OpenCode
  unknown_user : OpenCode
  internal_encode_error : OpenCode

-- The messages that the manager makes.
pub data MiningOut : Type 0 where
  open_extended_success :
      (request_id channel_id : ℕ) (target : List ℕ) (extranonce_size : ℕ)
      (extranonce_prefix : List ℕ)
      → MiningOut
  open_standard_success :
      (request_id channel_id : ℕ) (target extranonce_prefix : List ℕ) → MiningOut
  open_channel_error : (request_id : ℕ) (error_code : OpenCode) → MiningOut
  new_extended_job :
      (channel_id job_id version : ℕ) (version_rolling_allowed : Bool) (merkle_path : List (List ℕ))
      (coinbase_tx_prefix coinbase_tx_suffix : List ℕ)
      → MiningOut
  new_job : (channel_id job_id version : ℕ) (merkle_root : List ℕ) → MiningOut
  set_new_prev_hash : (channel_id job_id : ℕ) (prev_hash : List ℕ) (min_ntime nbits : ℕ) → MiningOut

unfoldable pub build_set_new_prev_hash : ℕ → ℕ → TemplateState → MiningOut
build_set_new_prev_hash channel_id job_id template =
    set_new_prev_hash channel_id job_id template.prev_hash template.min_ntime
      (from_be_bytes template.nbits)

unfoldable pub fold_branches : (List ℕ → List ℕ) → List ℕ → List (List ℕ) → List ℕ
fold_branches sha256d hash_le [] = hash_le
fold_branches sha256d hash_le (branch_be ∷ rest) =
    fold_branches sha256d (sha256d (hash_le ++ reverse branch_be)) rest

-- The root of a Standard channel's job, over the whole coinbase.
unfoldable pub compute_merkle_root_for_standard :
    (List ℕ → List ℕ) → List ℕ → List ℕ → List ℕ → List (List ℕ) → List ℕ
compute_merkle_root_for_standard sha256d coinb1 extranonce_prefix coinb2 merkle_branches =
    fold_branches sha256d (sha256d (coinb1 ++ (extranonce_prefix ++ coinb2))) merkle_branches

abbrev pub code_of : OpenError → OpenCode
code_of allocator = min_extranonce_size_too_large
code_of no_template_yet = unknown_user
code_of encode = internal_encode_error

module _ (s : Services) where
  pub record OpenRequest : Type 0 where
    pub request_id : ℕ
    pub user_identity : List ℕ
    pub nominal_hash_rate : s.HashRate
    pub max_target : List ℕ

  pub record OpenedChannel : Type 0 where
    pub channel_id : ℕ
    pub user_identity : List ℕ
    pub is_extended : Bool
    pub extranonce_prefix : s.Prefix
    pub last_job_id : ℕ
    pub nominal_hash_rate : s.HashRate
    pub max_target_le : List ℕ

  -- The hash map of channels is a list in which an id stands once.
  pub record ChannelManager : Type 0 where
    pub slots : s.Allocator
    pub channels : List OpenedChannel
    pub next_channel_id : ℕ
    pub next_job_id : ℕ
    pub min_target_le : List ℕ

  unfoldable pub with_policy : s.Allocator → List ℕ → ChannelManager
  with_policy slots min_target_le = record {
    slots = slots;
    channels = [];
    next_channel_id = 1;
    next_job_id = 1;
    min_target_le = min_target_le;
  }

  abbrev pub find : ℕ → List OpenedChannel → Option OpenedChannel
  find channel_id [] = none
  find channel_id (c ∷ rest) =
      let found = find channel_id rest in if c.channel_id == channel_id then some c else found

  abbrev pub without : ℕ → List OpenedChannel → List OpenedChannel
  without channel_id [] = []
  without channel_id (c ∷ rest) =
      let others = without channel_id rest in
      if c.channel_id == channel_id then others else (c ∷ others)

  -- The slot of a channel that leaves the map is given back.
  abbrev freed : Option OpenedChannel → s.Allocator → s.Allocator
  freed none slots = slots
  freed (some c) slots = s.release c.extranonce_prefix slots

  unfoldable pub handle_close_channel : ℕ → ChannelManager → ChannelManager
  handle_close_channel channel_id m = record m {
    slots = freed (find channel_id m.channels) m.slots;
    channels = without channel_id m.channels;
  }

  unfoldable pub insert_channel : OpenedChannel → ChannelManager → ChannelManager
  insert_channel c m = record m {
    slots = freed (find c.channel_id m.channels) m.slots;
    channels = c ∷ without c.channel_id m.channels;
  }

  unfoldable pub build_new_extended_job : ℕ → ℕ → TemplateState → Option MiningOut
  build_new_extended_job channel_id job_id template =
      let merkle_path = map reverse template.merkle_branches in
      if (s.fits_seq0255 merkle_path && s.fits_b064k template.coinb1)
        && s.fits_b064k template.coinb2
      then some (
          new_extended_job channel_id job_id template.version true merkle_path template.coinb1
            template.coinb2)
      else none
