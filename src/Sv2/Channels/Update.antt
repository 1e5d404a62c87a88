-- ===== src/Sv2/Channels/Update.antt =====
-- on_template_update of crates/datum-stratum-sv2/src/channel_manager.rs: new work for every channel, in the
-- order in which the map gives their ids.
use datum_rs.Common.{
  ℕ, ◌+◌, ◌%◌, ◌^◌, Bool, false, List, [], ◌∷◌, ◌++◌, ◌==◌, if◌then◌else◌, Option, some, none,
}
use datum_rs.Template.State.{TemplateState}
use datum_rs.Sv2.Channels.{
  Services, MiningOut, new_job, OpenedChannel, ChannelManager, find, build_new_extended_job,
  build_set_new_prev_hash, compute_merkle_root_for_standard,
}

module _ (s : Services) where
  abbrev pub channel_ids : List (OpenedChannel s) → List ℕ
  channel_ids [] = []
  channel_ids (c ∷ rest) = c.channel_id ∷ channel_ids rest

  -- `last_job_id` written through `get_mut`.
  abbrev pub with_job : ℕ → ℕ → List (OpenedChannel s) → List (OpenedChannel s)
  with_job channel_id job_id [] = []
  with_job channel_id job_id (c ∷ rest) =
      record c { last_job_id = if c.channel_id == channel_id then job_id else c.last_job_id }
      ∷ with_job channel_id job_id rest

  abbrev pub listed : Option MiningOut → List MiningOut
  listed none = []
  listed (some out) = out ∷ []

  abbrev pub prefix_bytes : Option (OpenedChannel s) → List ℕ
  prefix_bytes none = []
  prefix_bytes (some c) = s.as_bytes c.extranonce_prefix

  abbrev pub is_extended : Option (OpenedChannel s) → Bool
  is_extended none = false
  is_extended (some c) = c.is_extended

  module _ (sha256d : List ℕ → List ℕ) where
    -- The job of one channel; an Extended job that does not encode is left out.
    unfoldable pub job_messages : TemplateState → ℕ → ℕ → Option (OpenedChannel s) → List MiningOut
    job_messages template channel_id job_id channel =
        if is_extended channel
        then listed (build_new_extended_job s channel_id job_id template)
        else (new_job channel_id job_id template.version (
              compute_merkle_root_for_standard sha256d template.coinb1 (prefix_bytes channel)
                template.coinb2 template.merkle_branches)
            ∷ [])

    unfoldable pub update_one :
        TemplateState → ℕ → ChannelManager s → List MiningOut × ChannelManager s
    update_one template channel_id m = (
      job_messages template channel_id m.next_job_id (find s channel_id m.channels)
          ++ (build_set_new_prev_hash channel_id m.next_job_id template ∷ []),
      record m {
        channels = with_job channel_id m.next_job_id m.channels;
        next_job_id = (m.next_job_id + 1) % 2 ^ 32;
      },
    )

    unfoldable pub update_all :
        TemplateState → List ℕ → ChannelManager s → List MiningOut × ChannelManager s
    update_all template [] m = ([], m)
    update_all template (channel_id ∷ ids) m =
        let (out, next) = update_one template channel_id m in
        let (rest, final) = update_all template ids next in (out ++ rest, final)

    unfoldable pub on_template_update :
        TemplateState → ChannelManager s → List MiningOut × ChannelManager s
    on_template_update template m = update_all template (channel_ids m.channels) m
