-- ===== src/Examples/Shares.antt =====
-- crates/datum-share-relay and crates/datum-stratum-sv2: jobs, shares and targets, at concrete inputs.
use datum_rs.Common.{
  ◌↔◌, Bool-cases, inl, inr, sym, ℕ, zero, suc, ◌+◌, ◌*◌, ◌^◌, ◌≤◌, ◌≡◌, ◌≢◌, ◌⊎◌, refl, arith,
  true, false, List, [], ◌∷◌, ◌++◌, map, length, replicate, leb, some, none, All, IsByte,
  from_le_bytes, ok,
}
use mathlib.Core.List.{reverse}
use datum_rs.Template.Merkle.{merkle_branches_le, branch_loop, next_level, next_entry}
use datum_rs.Template.Merkle.Root.{merkle_root}
use datum_rs.ShareRelay.{JobMeta}
use datum_rs.ShareRelay.Jobs.{
  JobEntry, sv1, sv2, JobTracker, insert, lookup, new_entry, contains,
  cross_protocol_coinbase_already_seen,
}
use datum_rs.ShareRelay.Capacity.{Tracked, kept, insert-Tracked}
use datum_rs.ShareRelay.Target.{hash_meets_target, hash_meets_target-leb}
use datum_rs.ShareRelay.Encoder.{ShareUserConfig, compute_merkle_root}
use datum_rs.ShareRelay.Encoder.Header.{compute_merkle_root-merkle_root}
use datum_rs.ShareRelay.Relay.{Step, insert_job, sv1_share, sv2_share, sent}
use datum_rs.ShareRelay.Once.{count, sent_once}
use datum_rs.Sv2.Vardiff.{VardiffState, maybe_step, maybe_step-bounds}
use datum_rs.Sv2.Targets.{
  clamp_target_to_min_hashrate_le, handle_update_channel, handle_update_channel-policy,
}
use mathlib.Core.Option.{some-injective, none-ne-some}
use datum_rs.ShareRelay.Jobs.{same_key}
use datum_rs.Sv2.Shares.Acceptance.{
  HasTargets, IsAccepted, IsBlockFound, Passes, claimed_header, validate_extended_share_iff,
}
use datum_rs.Sv2.Shares.{SubmitShares, Channel, validate_extended_share}
use datum_rs.Examples.Blocks.{sum_hash}

abbrev meta : JobMeta
meta = record {
  datum_job_idx = 1;
  coinbase_id = 0;
  target_pot_index = 2;
  version = 0x20000000;
  height = 800000;
  coinbase_value = 312500000;
  prevhash_bin = [];
  nbits_bin = [];
  merkle_branches_bin = [];
  coinb1_bin = 1 ∷ 2 ∷ 3 ∷ [];
  coinb2_bin = 4 ∷ [];
  datum_coinbaser_id = 1;
  txn_count = 0;
  txn_total_weight = 0;
  txn_total_size = 0;
  txn_total_sigops = 0;
  block_target = replicate 32 255;
  txn_data_hex = [];
}

abbrev tracker : JobTracker
tracker = record {
  by_key = (sv2 1 1, new_entry meta 5) ∷ [];
  order = sv2 1 1 ∷ [];
  seen_template_coinbase = [];
  next_datum_idx = 2;
}

insert-Tracked_example :
    Tracked (insert (sv1 (97 ∷ [])) meta 5 tracker)
    × ((insert (sv1 (97 ∷ [])) meta 5 tracker).by_key
        ≡ kept tracker.by_key ++ ((sv1 (97 ∷ []), new_entry meta 5) ∷ []))
    × (lookup (sv1 (97 ∷ [])) (insert (sv1 (97 ∷ [])) meta 5 tracker).by_key
        ≡ some (new_entry meta 5))
unfolding contains
insert-Tracked_example =
    insert-Tracked (sv1 (97 ∷ [])) meta 5 tracker (record { ordered = refl; bounded = omega arith })
      refl

-- The same template by both protocols.
abbrev steps : List Step
steps = sv2_share (sv2 1 1) 5 ∷ insert_job (sv1 (97 ∷ [])) meta 5 ∷ sv1_share (sv1 (97 ∷ [])) ∷ []

sent_once_example :
    (count 5 0 (sent steps tracker) ≤ 1)
    × (cross_protocol_coinbase_already_seen 5 0 tracker ≡ true → count 5 0 (sent steps tracker) ≡ 0)
sent_once_example = sent_once steps tracker 5 0 (omega arith) (refl, tt)

ones : (n : ℕ) → All IsByte (replicate n 1)
ones zero = tt
ones (suc n) = (omega arith, ones n)

twos : (n : ℕ) → All IsByte (replicate n 2)
twos zero = tt
twos (suc n) = (omega arith, twos n)

hash_meets_target-leb_example :
    hash_meets_target (replicate 32 1) (replicate 32 2)
    ≡ leb (from_le_bytes (replicate 32 1)) (from_le_bytes (replicate 32 2))
hash_meets_target-leb_example =
    hash_meets_target-leb (replicate 32 1) (replicate 32 2) (ones 32) (twos 32) refl refl

abbrev branch : List (List ℕ)
branch = (2 ∷ []) ∷ []

compute_merkle_root-merkle_root_example :
    compute_merkle_root sum_hash (1 ∷ []) (5 ∷ []) (6 ∷ []) (map reverse branch)
    ≡ merkle_root sum_hash 1 (sum_hash (1 ∷ 5 ∷ 6 ∷ []) ∷ branch)
unfolding merkle_branches_le branch_loop next_level next_entry
compute_merkle_root-merkle_root_example =
    compute_merkle_root-merkle_root sum_hash (1 ∷ []) (5 ∷ []) (6 ∷ []) branch branch (omega arith)
      refl

abbrev vardiff : VardiffState
vardiff = record {
  params = record { target_shares_min = 6; recheck_secs = 30; min_diff = 1; max_diff = 2 ^ 40 };
  current_diff = 1000;
  shares_since_snap = 40;
}

maybe_step-bounds_example :
    (1 ≤ (maybe_step vardiff 60).1.current_diff)
    × ((maybe_step vardiff 60).1.current_diff ≤ 2 ^ 40)
    × ((maybe_step vardiff 60).1.current_diff ≤ 2 * 1000)
    × (1000 ≤ 2 * (maybe_step vardiff 60).1.current_diff + 1)
    × ((maybe_step vardiff 60).1.shares_since_snap ≡ 0)
    × (((maybe_step vardiff 60).0 ≡ none) × ((maybe_step vardiff 60).1.current_diff ≡ 1000)
        ⊎ ((maybe_step vardiff 60).0 ≡ some (maybe_step vardiff 60).1.current_diff)
          × ((maybe_step vardiff 60).1.current_diff ≢ 1000))
maybe_step-bounds_example = maybe_step-bounds vardiff 60 (omega arith) (omega arith) (omega arith)

abbrev proposed : List ℕ
proposed = replicate 32 2

abbrev limit : List ℕ
limit = replicate 32 1

handle_update_channel-policy_example :
    ((t : List ℕ)
      → handle_update_channel true proposed limit ≡ ok t
      → (from_le_bytes t ≤ from_le_bytes limit) × (true ≡ true) × (length proposed ≡ 32))
    × (true ≡ true
        → length proposed ≡ 32
        → handle_update_channel true proposed limit
          ≡ ok (clamp_target_to_min_hashrate_le proposed limit))
handle_update_channel-policy_example =
    handle_update_channel-policy true proposed limit (twos 32) (ones 32) refl

abbrev config : ShareUserConfig
config = record { pool_address = 98 ∷ []; pass_full_users = true; pass_workers = true }

abbrev channel : Channel
channel = record {
  extranonce_size = 1;
  extranonce_prefix = 1 ∷ 2 ∷ [];
  current_diff = 1000;
  username = 117 ∷ [];
  version_rolling_allowed = false;
  job_key = sv2 1 1;
  template_seed = 5;
}

abbrev share : SubmitShares
share = record { nonce = 1; ntime = 2; version = 0x20000000; extranonce = 9 ∷ [] }

-- A hash of thirty-two ones, and a channel whose prefix leaves ten bytes.
abbrev ones_hash : List ℕ → List ℕ
ones_hash m = replicate 32 1

abbrev wide : Channel
wide = record channel { extranonce_size = 10 }

full_bytes : (n : ℕ) → All IsByte (replicate n 255)
full_bytes zero = tt
full_bytes (suc n) = (omega arith, full_bytes n)

tracker-HasTargets : HasTargets tracker
tracker-HasTargets key entry e = elim (Bool-cases (same_key key (sv2 1 1))) [
  | inl is ↦ rw (sym (some-injective (new_entry meta 5) entry (rw is at e))) (refl, full_bytes 32)
  | inr off ↦ absurd (none-ne-some entry (rw off at e))
]

validate_extended_share_iff_example :
    (IsAccepted (validate_extended_share ones_hash sum_hash config wide share 3 tracker).0
      ↔ ((entry : JobEntry) × Passes wide share tracker entry))
    × (IsBlockFound (validate_extended_share ones_hash sum_hash config wide share 3 tracker).0 ↔ (
        (entry : JobEntry) × Passes wide share tracker entry
        × (from_le_bytes
              (ones_hash (claimed_header ones_hash sum_hash config wide share entry.meta))
            ≤ from_le_bytes entry.meta.block_target)))
    × (IsAccepted (validate_extended_share ones_hash sum_hash config wide share 3 tracker).0
        ⊎ ((validate_extended_share ones_hash sum_hash config wide share 3 tracker).1 ≡ tracker))
validate_extended_share_iff_example =
    validate_extended_share_iff ones_hash sum_hash config (λ m. (refl, ones 32)) wide share 3
      tracker refl tracker-HasTargets
