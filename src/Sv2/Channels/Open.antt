-- ===== src/Sv2/Channels/Open.antt =====
-- Opening a channel: handle_open_extended_mining_channel and handle_open_standard_mining_channel of
-- crates/datum-stratum-sv2/src/channel_manager.rs.
use datum_rs.Common.{
  ℕ, ◌+◌, ◌%◌, ◌^◌, Bool, true, false, not, List, [], ◌∷◌, length, ◌==◌, if◌then◌else◌, Option,
  some, none, Result, ok, err,
}
use datum_rs.Template.State.{TemplateState}
use datum_rs.Sv2.Targets.{clamp_target_to_min_hashrate_le}
use datum_rs.Sv2.Channels.{
  Services, OpenError, allocator, no_template_yet, encode, OpenCode, invalid_user_identity,
  invalid_nominal_hashrate, max_target_out_of_range, code_of, MiningOut, open_extended_success,
  open_standard_success, open_channel_error, new_job, OpenRequest, OpenedChannel, ChannelManager,
  insert_channel, build_new_extended_job, build_set_new_prev_hash, compute_merkle_root_for_standard,
}
use datum_rs.Sv2.Channels.Utf8.{str_from_str0255}

module _ (s : Services) where
  -- Both ids move on, with wrap-around.
  unfoldable pub take_ids : s.Allocator → ChannelManager s → ChannelManager s
  take_ids slots m = record m {
    slots = slots;
    next_channel_id = (m.next_channel_id + 1) % 2 ^ 32;
    next_job_id = (m.next_job_id + 1) % 2 ^ 32;
  }

  -- A channel that fails to be encoded has used its ids, and gives its slot back.
  abbrev given_back : s.Prefix → ChannelManager s → ChannelManager s
  given_back prefix m = record m { slots = s.release prefix m.slots }

  abbrev pub opened : Bool → OpenRequest s → List ℕ → s.Prefix → ChannelManager s → OpenedChannel s
  opened is_extended req user_identity prefix m = record {
    channel_id = m.next_channel_id;
    user_identity = user_identity;
    is_extended = is_extended;
    extranonce_prefix = prefix;
    last_job_id = m.next_job_id;
    nominal_hash_rate = req.nominal_hash_rate;
    max_target_le = req.max_target;
  }

  abbrev pub with_extended_job :
      OpenRequest s
      → s.Prefix
      → TemplateState
      → ChannelManager s
      → Option MiningOut
      → Option (List MiningOut)
  with_extended_job req prefix template m none = none
  with_extended_job req prefix template m (some job) = some (
      open_extended_success req.request_id m.next_channel_id
        (clamp_target_to_min_hashrate_le req.max_target m.min_target_le) 10 (s.as_bytes prefix)
      ∷ job
      ∷ build_set_new_prev_hash m.next_channel_id m.next_job_id template
      ∷ [])

  abbrev pub extended_messages :
      OpenRequest s → s.Prefix → TemplateState → ChannelManager s → Option (List MiningOut)
  extended_messages req prefix template m =
      if s.fits_b032 (s.as_bytes prefix)
      then with_extended_job req prefix template m
          (build_new_extended_job s m.next_channel_id m.next_job_id template)
      else none

  abbrev pub finish :
      Bool
      → OpenRequest s
      → List ℕ
      → s.Prefix
      → s.Allocator
      → Option (List MiningOut)
      → ChannelManager s
      → Result OpenError (List MiningOut) × ChannelManager s
  finish is_extended req user_identity prefix slots none m =
      (err encode, given_back prefix (take_ids slots m))
  finish is_extended req user_identity prefix slots (some out) m =
      (ok out, insert_channel s (opened is_extended req user_identity prefix m) (take_ids slots m))

  abbrev pub open_extended_with :
      OpenRequest s
      → List ℕ
      → TemplateState
      → Option s.Prefix × s.Allocator
      → ChannelManager s
      → Result OpenError (List MiningOut) × ChannelManager s
  open_extended_with req user_identity template (none, slots) m =
      (err allocator, record m { slots = slots })
  open_extended_with req user_identity template (some prefix, slots) m =
      finish true req user_identity prefix slots (extended_messages req prefix template m) m

  unfoldable pub open_extended_inner :
      Option TemplateState
      → OpenRequest s
      → List ℕ
      → ChannelManager s
      → Result OpenError (List MiningOut) × ChannelManager s
  open_extended_inner none req user_identity m = (err no_template_yet, m)
  open_extended_inner (some template) req user_identity m =
      open_extended_with req user_identity template (s.allocate_extended m.slots) m

  abbrev pub answer :
      ℕ → Result OpenError (List MiningOut) × ChannelManager s → List MiningOut × ChannelManager s
  answer request_id (ok out, m) = (out, m)
  answer request_id (err e, m) = (open_channel_error request_id (code_of e) ∷ [], m)

  abbrev pub refuse : ℕ → OpenCode → ChannelManager s → List MiningOut × ChannelManager s
  refuse request_id code m = (open_channel_error request_id code ∷ [], m)

  -- The checks that both kinds make, in their order, before `inner`.
  abbrev pub checked :
      (OpenRequest s
        → List ℕ
        → ChannelManager s
        → Result OpenError (List MiningOut) × ChannelManager s)
      → OpenRequest s
      → ChannelManager s
      → List MiningOut × ChannelManager s
  checked inner req m =
      if length req.user_identity == 0
      then refuse req.request_id invalid_user_identity m
      else elim (str_from_str0255 req.user_identity) [
        | none ↦ refuse req.request_id invalid_user_identity m
        | some user_identity ↦
            if not (s.accepts_hash_rate req.nominal_hash_rate)
            then refuse req.request_id invalid_nominal_hashrate m
            else if not (length req.max_target == 32)
            then refuse req.request_id max_target_out_of_range m
            else answer req.request_id (inner req user_identity m)
      ]

  unfoldable pub handle_open_extended :
      Option TemplateState → OpenRequest s → ChannelManager s → List MiningOut × ChannelManager s
  handle_open_extended template req m = checked (open_extended_inner template) req m

  module _ (sha256d : List ℕ → List ℕ) where
    abbrev pub standard_job : s.Prefix → TemplateState → ℕ → ℕ → MiningOut
    standard_job prefix template channel_id job_id = new_job channel_id job_id template.version (
        compute_merkle_root_for_standard sha256d template.coinb1 (s.as_bytes prefix) template.coinb2
          template.merkle_branches)

    abbrev pub standard_messages :
        OpenRequest s → s.Prefix → TemplateState → ChannelManager s → Option (List MiningOut)
    standard_messages req prefix template m =
        if s.fits_b032 (s.as_bytes prefix)
        then some (
            open_standard_success req.request_id m.next_channel_id
              (clamp_target_to_min_hashrate_le req.max_target m.min_target_le) (s.as_bytes prefix)
            ∷ standard_job prefix template m.next_channel_id m.next_job_id
            ∷ build_set_new_prev_hash m.next_channel_id m.next_job_id template
            ∷ [])
        else none

    abbrev pub open_standard_with :
        OpenRequest s
        → List ℕ
        → TemplateState
        → Option s.Prefix × s.Allocator
        → ChannelManager s
        → Result OpenError (List MiningOut) × ChannelManager s
    open_standard_with req user_identity template (none, slots) m =
        (err allocator, record m { slots = slots })
    open_standard_with req user_identity template (some prefix, slots) m =
        finish false req user_identity prefix slots (standard_messages req prefix template m) m

    unfoldable pub open_standard_inner :
        Option TemplateState
        → OpenRequest s
        → List ℕ
        → ChannelManager s
        → Result OpenError (List MiningOut) × ChannelManager s
    open_standard_inner none req user_identity m = (err no_template_yet, m)
    open_standard_inner (some template) req user_identity m =
        open_standard_with req user_identity template (s.allocate_standard m.slots) m

    unfoldable pub handle_open_standard :
        Option TemplateState → OpenRequest s → ChannelManager s → List MiningOut × ChannelManager s
    handle_open_standard template req m = checked (open_standard_inner template) req m
