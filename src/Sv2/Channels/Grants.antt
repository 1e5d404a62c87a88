-- ===== src/Sv2/Channels/Grants.antt =====
-- What a request to open a channel comes to: crates/datum-stratum-sv2/src/channel_manager.rs.
use mathlib.Core.List.{reverse}
use datum_rs.Common.{
  ℕ, ◌≡◌, ◌⊎◌, inl, inr, refl, arith, Bool, true, false, ◌&&◌, List, [], ◌∷◌, length, ◌==◌,
  if◌then◌else◌, Option, some, none, map,
}
use datum_rs.Template.State.{TemplateState}
use datum_rs.Sv2.Targets.{clamp_target_to_min_hashrate_le}
use datum_rs.Sv2.Channels.{
  Services, OpenCode, internal_encode_error, min_extranonce_size_too_large, unknown_user, MiningOut,
  open_extended_success, open_standard_success, open_channel_error, new_extended_job, new_job,
  set_new_prev_hash, OpenRequest, OpenedChannel, ChannelManager, insert_channel, find,
  build_new_extended_job, build_set_new_prev_hash,
}
use datum_rs.Sv2.Channels.Cases.{checked-cases}
use datum_rs.Sv2.Channels.Open.{
  with_extended_job, take_ids, opened, finish, answer, extended_messages, standard_messages,
  open_extended_with, open_standard_with, open_extended_inner, open_standard_inner,
  handle_open_extended, handle_open_standard,
}
use datum_rs.Sv2.Channels.Work.{activated}

-- The target in the answer, where a channel is opened.
abbrev pub granted_target : List MiningOut → Option (List ℕ)
granted_target [] = none
granted_target (open_extended_success r cid target size prefix ∷ outs) = some target
granted_target (open_standard_success r cid target prefix ∷ outs) = some target
granted_target (open_channel_error r code ∷ outs) = none
granted_target (new_extended_job c j v rolling path prefix suffix ∷ outs) = none
granted_target (new_job c j v root ∷ outs) = none
granted_target (set_new_prev_hash c j hash ntime nbits ∷ outs) = none

module _ (s : Services) where
  -- Either one error and the channels as before, or three messages, with the clamped target, that activate
  -- the job which is on record for the new channel.
  abbrev pub IsGrant :
      Bool → OpenRequest s → ChannelManager s → List MiningOut × ChannelManager s → Type 0
  IsGrant is_extended req m (out, after) =
      ((code : OpenCode) × (out ≡ open_channel_error req.request_id code ∷ [])
        × (after.channels ≡ m.channels))
      ⊎ ((c : OpenedChannel s) × (find s m.next_channel_id after.channels ≡ some c)
          × (c.is_extended ≡ is_extended)
          × (length out ≡ 3)
          × (granted_target out
              ≡ some (clamp_target_to_min_hashrate_le req.max_target m.min_target_le))
          × (activated m.next_channel_id 0 out ≡ c.last_job_id))

  -- The messages of a channel that is opened.
  abbrev AreMessages : OpenRequest s → ChannelManager s → Option (List MiningOut) → Type 0
  AreMessages req m none = Unit
  AreMessages req m (some out) =
      (length out ≡ 3)
      × (granted_target out ≡ some (clamp_target_to_min_hashrate_le req.max_target m.min_target_le))
      × (activated m.next_channel_id 0 out ≡ m.next_job_id)

  same_id : (n : ℕ) → (n == n) ≡ true
  same_id n = ground arith

  finish-IsGrant :
      (x : Bool) (req : OpenRequest s) (user : List ℕ) (p : s.Prefix) (slots : s.Allocator)
      (out : Option (List MiningOut)) (m : ChannelManager s)
      → AreMessages req m out
      → IsGrant x req m (answer s req.request_id (finish s x req user p slots out m))
  unfolding take_ids insert_channel
  finish-IsGrant x req user p slots none m h = inl (internal_encode_error, refl, refl)
  finish-IsGrant x req user p slots (some out) m (l, g, a) =
      inr (opened s x req user p m, rw (same_id m.next_channel_id) refl, refl, l, g, a)

  if-AreMessages :
      (req : OpenRequest s) (m : ChannelManager s) (b : Bool) (out : Option (List MiningOut))
      → AreMessages req m out
      → AreMessages req m (if b then out else none)
  if-AreMessages req m true out h = h
  if-AreMessages req m false out h = tt

  extended_messages-AreMessages :
      (req : OpenRequest s) (p : s.Prefix) (template : TemplateState) (m : ChannelManager s)
      → AreMessages req m (extended_messages s req p template m)
  unfolding build_new_extended_job build_set_new_prev_hash
  extended_messages-AreMessages req p template m =
      if-AreMessages req m (s.fits_b032 (s.as_bytes p))
        (with_extended_job s req p template m
          (build_new_extended_job s m.next_channel_id m.next_job_id template))
        (encoded (
          (s.fits_seq0255 (map reverse template.merkle_branches) && s.fits_b064k template.coinb1)
          && s.fits_b064k template.coinb2))
    where
      encoded :
          (fits : Bool)
          → AreMessages req m (
              with_extended_job s req p template m (
                if fits
                then some (
                    new_extended_job m.next_channel_id m.next_job_id template.version true
                      (map reverse template.merkle_branches)
                      template.coinb1
                      template.coinb2)
                else none))
      encoded true = (refl, refl, rw (same_id m.next_channel_id) refl)
      encoded false = tt

  standard_messages-AreMessages :
      (sha256d : List ℕ → List ℕ) (req : OpenRequest s) (p : s.Prefix) (template : TemplateState)
      (m : ChannelManager s)
      → AreMessages req m (standard_messages s sha256d req p template m)
  unfolding build_set_new_prev_hash
  standard_messages-AreMessages sha256d req p template m =
      if-AreMessages req m (s.fits_b032 (s.as_bytes p)) _
        (refl, refl, rw (same_id m.next_channel_id) refl)

  extended-IsGrant :
      (template : Option TemplateState) (req : OpenRequest s) (user : List ℕ) (m : ChannelManager s)
      → IsGrant true req m (answer s req.request_id (open_extended_inner s template req user m))
  unfolding open_extended_inner
  extended-IsGrant none req user m = inl (unknown_user, refl, refl)
  extended-IsGrant (some template) req user m = allocated (s.allocate_extended m.slots)
    where
      allocated :
          (a : Option s.Prefix × s.Allocator)
          → IsGrant true req m
              (answer s req.request_id (open_extended_with s req user template a m))
      allocated (none, slots) = inl (min_extranonce_size_too_large, refl, refl)
      allocated (some p, slots) =
          finish-IsGrant true req user p slots (extended_messages s req p template m) m
            (extended_messages-AreMessages req p template m)

  standard-IsGrant :
      (sha256d : List ℕ → List ℕ) (template : Option TemplateState) (req : OpenRequest s)
      (user : List ℕ) (m : ChannelManager s)
      → IsGrant false req m
          (answer s req.request_id (open_standard_inner s sha256d template req user m))
  unfolding open_standard_inner
  standard-IsGrant sha256d none req user m = inl (unknown_user, refl, refl)
  standard-IsGrant sha256d (some template) req user m = allocated (s.allocate_standard m.slots)
    where
      allocated :
          (a : Option s.Prefix × s.Allocator)
          → IsGrant false req m
              (answer s req.request_id (open_standard_with s sha256d req user template a m))
      allocated (none, slots) = inl (min_extranonce_size_too_large, refl, refl)
      allocated (some p, slots) =
          finish-IsGrant false req user p slots (standard_messages s sha256d req p template m) m
            (standard_messages-AreMessages sha256d req p template m)

  -- A request for an Extended or a Standard channel is answered by one error, with the channels left as
  -- they were, or by three messages that grant the requested target, clamped to the policy's, and
  -- activate the job that the manager then has on record for the new channel, which is of that kind and
  -- has the next id.
  pub handle_open-IsGrant :
      (sha256d : List ℕ → List ℕ) (template : Option TemplateState) (req : OpenRequest s)
      (m : ChannelManager s)
      → IsGrant true req m (handle_open_extended s template req m)
        × IsGrant false req m (handle_open_standard s sha256d template req m)
  unfolding handle_open_extended handle_open_standard
  handle_open-IsGrant sha256d template req m = (
    checked-cases s (open_extended_inner s template) req m (IsGrant true req m)
        (λ code. inl (code, refl, refl)) (λ user. extended-IsGrant template req user m),
    checked-cases s (open_standard_inner s sha256d template) req m (IsGrant false req m)
        (λ code. inl (code, refl, refl)) (λ user. standard-IsGrant sha256d template req user m),
  )
