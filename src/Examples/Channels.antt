-- ===== src/Examples/Channels.antt =====
-- crates/datum-stratum-sv2: channels, their jobs and their shares, at concrete inputs.
use datum_rs.Common.{ℕ, ◌+◌, ◌≡◌, refl, arith, true, false, [], ◌∷◌, leb, some, replicate}
use datum_rs.Template.State.{TemplateState}
use datum_rs.ShareRelay.{job_meta_of_state}
use datum_rs.ShareRelay.Jobs.{new_tracker, insert}
use datum_rs.ShareRelay.Encoder.{ShareUserConfig}
use datum_rs.ShareRelay.Jobs.{sv2}
use datum_rs.Sv2.Shares.{Channel}
use datum_rs.Sv2.Channels.{
  Services, OpenRequest, OpenedChannel, ChannelManager, with_policy, find, handle_close_channel,
  build_new_extended_job, build_set_new_prev_hash,
}
use datum_rs.Sv2.Channels.Open.{handle_open_extended, handle_open_standard}
use datum_rs.Sv2.Channels.Update.{job_messages, update_one, update_all, on_template_update}
use datum_rs.Sv2.Channels.Work.{activated, on_template_update-activated}
use datum_rs.Sv2.Channels.Ids.{start, extended, standard, close, Descending, Reach-Descending}
use datum_rs.Sv2.Channels.Grants.{IsGrant, handle_open-IsGrant}
use datum_rs.Sv2.Listener.{
  Surroundings, SubmittedJob, State, template_changed, frame, submit_extended, submit_standard,
  turn,
}
use datum_rs.Sv2.Listener.Jobs.{IsRefusal, turn-untracked}
use datum_rs.Examples.Blocks.{sum_hash}

abbrev pub state : TemplateState
state = record {
  prev_hash = replicate 32 1;
  height = 800000;
  nbits = 23 ∷ 1 ∷ 2 ∷ 3 ∷ [];
  min_ntime = 1700000000;
  coinbase_value = 312500000;
  coinbase_outputs = [];
  coinb1 = 1 ∷ 2 ∷ 255 ∷ 4 ∷ [];
  coinb2 = 5 ∷ 6 ∷ [];
  merkle_branches = replicate 32 7 ∷ [];
  version = 0x20000000;
  job_id_seed = 9;
  target_pot_index = 2;
  datum_coinbaser_id = 1;
  block_target = replicate 32 255;
  txn_count = 1;
  txn_total_weight = 400;
  txn_total_size = 100;
  txn_total_sigops = 1;
  txn_data_hex = [];
}

-- Slots are counted, and a prefix is the number of its slot.
abbrev services : Services
services = record {
  Allocator = ℕ;
  Prefix = ℕ;
  HashRate = ℕ;
  as_bytes = λ p. p ∷ 0 ∷ [];
  allocate_extended = λ n. (some n, n + 1);
  allocate_standard = λ n. (some n, n + 1);
  release = λ p n. n;
  fits_b032 = λ bytes. true;
  fits_b064k = λ bytes. true;
  fits_seq0255 = λ hashes. true;
  accepts_hash_rate = λ rate. leb 1000 rate;
}

abbrev request : OpenRequest services
request = record {
  request_id = 3;
  user_identity = 117 ∷ [];
  nominal_hash_rate = 5000;
  max_target = replicate 32 255;
}

abbrev empty_manager : ChannelManager services
empty_manager = with_policy services 0 (replicate 32 15)

abbrev one_channel : OpenedChannel services
one_channel = record {
  channel_id = 1;
  user_identity = 117 ∷ [];
  is_extended = true;
  extranonce_prefix = 0;
  last_job_id = 1;
  nominal_hash_rate = 5000;
  max_target_le = replicate 32 255;
}

abbrev manager : ChannelManager services
manager = record {
  slots = 1;
  channels = one_channel ∷ [];
  next_channel_id = 2;
  next_job_id = 2;
  min_target_le = replicate 32 15;
}

handle_open-IsGrant_example :
    IsGrant services true request manager
      (handle_open_extended services (some state) request manager)
    × IsGrant services false request manager
        (handle_open_standard services sum_hash (some state) request manager)
handle_open-IsGrant_example = handle_open-IsGrant services sum_hash (some state) request manager

on_template_update-activated_example :
    find services 1 (on_template_update services sum_hash state manager).1.channels
    ≡ some (record one_channel {
      last_job_id = activated 1 0 (on_template_update services sum_hash state manager).0;
    })
on_template_update-activated_example =
    on_template_update-activated services sum_hash state manager 1 0 one_channel refl

abbrev reached : ChannelManager services
reached =
    handle_close_channel services 1
      (handle_open_standard services sum_hash (some state) request
        (handle_open_extended services (some state) request empty_manager).1).1

Reach-Descending_example : Descending services sum_hash reached.next_channel_id reached.channels
Reach-Descending_example =
    Reach-Descending services sum_hash 0 (replicate 32 15) 2 reached
      (close 1 (standard (some state) request (extended (some state) request start))) (omega arith)

abbrev user_cfg : ShareUserConfig
user_cfg = record { pool_address = 112 ∷ []; pass_full_users = true; pass_workers = false }

abbrev around : Surroundings
around = record {
  template = some state;
  upstream_open = true;
  should_acknowledge = true;
  has_block_found = true;
  random_byte = 0;
}

-- The tracker has the job with which the channel was opened.
abbrev served : State services
served = record {
  manager = manager;
  jobs = insert (sv2 1 1) (job_meta_of_state 0 0 state) 9 new_tracker;
}

abbrev submitted : SubmittedJob
submitted = record {
  channel_id = 1;
  sequence_number = 4;
  job_id = 2;
  share = record { nonce = 1; ntime = 2; version = 3; extranonce = replicate 10 0 };
}

abbrev updated : State services
updated = record served { manager = (on_template_update services sum_hash state manager).1 }

turn-untracked_example :
    ((turn services sum_hash sum_hash user_cfg around template_changed served).1 ≡ some updated)
    × IsRefusal services sum_hash sum_hash user_cfg submitted updated (
        turn services sum_hash sum_hash user_cfg around (frame (submit_extended submitted)) updated)
    × IsRefusal services sum_hash sum_hash user_cfg submitted updated (
        turn services sum_hash sum_hash user_cfg around (frame (submit_standard submitted)) updated)
unfolding on_template_update update_all update_one new_tracker insert job_messages
    build_new_extended_job build_set_new_prev_hash
turn-untracked_example =
    turn-untracked services sum_hash sum_hash user_cfg around around state served submitted
      one_channel refl (omega arith, tt) (omega arith) refl refl

abbrev channel : Channel
channel = record {
  extranonce_size = 10;
  extranonce_prefix = 0 ∷ 0 ∷ [];
  current_diff = 8;
  username = 117 ∷ [];
  version_rolling_allowed = true;
  job_key = sv2 1 2;
  template_seed = 9;
}
