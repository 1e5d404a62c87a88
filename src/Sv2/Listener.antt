-- ===== src/Sv2/Listener.antt =====
-- The dispatch loop of one connection of crates/datum-stratum-sv2/src/listener.rs. Frames are read and
-- written by third-party code, so an event is a parsed message, and an output one to be framed.
pub mod Jobs
use datum_rs.Common.{
  ℕ, Bool, true, false, List, [], ◌∷◌, ◌++◌, map, if◌then◌else◌, Option, some, none, Result, ok,
  err,
}
use datum_rs.Template.State.{TemplateState}
use datum_rs.ShareRelay.{job_meta_of_state}
use datum_rs.ShareRelay.Jobs.{JobKey, sv2, JobTracker, insert}
use datum_rs.ShareRelay.Encoder.{ShareUserConfig, BlockSubmissionPayload}
use datum_rs.ShareRelay.Relay.{
  ShareOutcome, valid, block_found, rejected, RejectCode, bad_extranonce_size,
}
use datum_rs.Sv2.Targets.{UpdateError, handle_update_channel}
use datum_rs.Sv2.Shares.{SubmitShares, Channel, validate_extended_share, validate_standard_share}
use datum_rs.Sv2.Channels.{
  Services, MiningOut, open_extended_success, open_standard_success, open_channel_error,
  new_extended_job, new_job, set_new_prev_hash, OpenRequest, OpenedChannel, ChannelManager, find,
  handle_close_channel,
}
use datum_rs.Sv2.Channels.Open.{handle_open_extended, handle_open_standard}
use datum_rs.Sv2.Channels.Update.{on_template_update}

pub data SubmitCode : Type 0 where
  of_validation : RejectCode → SubmitCode
  invalid_channel_id : SubmitCode
  invalid_share : SubmitCode

-- What leaves the connection: frames for the miner, share bodies for the pool, blocks for bitcoind.
pub data Sent : Type 0 where
  mining : MiningOut → Sent
  submit_shares_success : (channel_id : ℕ) → Sent
  submit_shares_error : (channel_id sequence_number : ℕ) (error_code : SubmitCode) → Sent
  set_target : (channel_id : ℕ) (maximum_target : List ℕ) → Sent
  update_channel_error : (channel_id : ℕ) (error_code : UpdateError) → Sent
  set_custom_mining_job_error : (channel_id request_id : ℕ) → Sent
  submit_share : (body : List ℕ) → Sent
  block_submission : BlockSubmissionPayload → Sent

-- What the surroundings say when an event is handled: the watched template, whether the upstream takes
-- shares, whether the accounting wants an acknowledgement, whether blocks are submitted, the random byte.
pub record Surroundings : Type 0 where
  pub template : Option TemplateState
  pub upstream_open : Bool
  pub should_acknowledge : Bool
  pub has_block_found : Bool
  pub random_byte : ℕ

pub record SubmittedJob : Type 0 where
  pub channel_id : ℕ
  pub sequence_number : ℕ
  pub job_id : ℕ
  pub share : SubmitShares

-- The jobs among the messages that opened a channel go into the shared tracker.
abbrev pub seed_with : TemplateState → List MiningOut → JobTracker → JobTracker
seed_with template [] t = t
seed_with template (new_extended_job cid job_id version rolling path prefix suffix ∷ outs) t =
    seed_with template outs
      (insert (sv2 cid job_id) (job_meta_of_state 0 0 template) template.job_id_seed t)
seed_with template (new_job cid job_id version root ∷ outs) t =
    seed_with template outs
      (insert (sv2 cid job_id) (job_meta_of_state 0 0 template) template.job_id_seed t)
seed_with template (open_extended_success r cid target size prefix ∷ outs) t =
    seed_with template outs t
seed_with template (open_standard_success r cid target prefix ∷ outs) t = seed_with template outs t
seed_with template (open_channel_error r code ∷ outs) t = seed_with template outs t
seed_with template (set_new_prev_hash cid job_id hash ntime nbits ∷ outs) t =
    seed_with template outs t

unfoldable pub seed_job_tracker : Option TemplateState → List MiningOut → JobTracker → JobTracker
seed_job_tracker none outs t = t
seed_job_tracker (some template) outs t = seed_with template outs t

-- Nothing goes on when the upstream is gone.
unfoldable pub forward_share_outcome : Surroundings → ℕ → ℕ → ShareOutcome → Option (List Sent)
forward_share_outcome around channel_id sequence_number (valid body) =
    if around.upstream_open
    then some (
        submit_share body
        ∷ (if around.should_acknowledge then submit_shares_success channel_id ∷ [] else []))
    else none
forward_share_outcome around channel_id sequence_number (block_found body payload) =
    if around.upstream_open
    then some (
        submit_share body
        ∷ ((if around.has_block_found then block_submission payload ∷ [] else [])
            ++ (submit_shares_success channel_id ∷ [])))
    else none
forward_share_outcome around channel_id sequence_number (rejected code) =
    some (submit_shares_error channel_id sequence_number (of_validation code) ∷ [])

abbrev seed_of : Option TemplateState → ℕ
seed_of none = 0
seed_of (some template) = template.job_id_seed

module _ (s : Services) where
  pub data Message : Type 0 where
    open_standard : OpenRequest s → Message
    open_extended : OpenRequest s → Message
    close_channel : (channel_id : ℕ) → Message
    update_channel :
        (channel_id : ℕ) (nominal_hash_rate : s.HashRate) (maximum_target : List ℕ) → Message
    submit_standard : SubmittedJob → Message
    submit_extended : SubmittedJob → Message
    set_custom_mining_job : (channel_id request_id : ℕ) → Message
    unsupported : Message

  pub data Event : Type 0 where
    template_changed : Event
    frame : Message → Event
    unparsed_frame : Event

  -- The channels of the connection, and the tracker that all connections share.
  pub record State : Type 0 where
    pub manager : ChannelManager s
    pub jobs : JobTracker

  -- What the validation is told of a channel: ten rollable bytes, and the difficulty 8.
  abbrev pub channel_of : OpenedChannel s → Option TemplateState → SubmittedJob → Channel
  channel_of c template submitted = record {
    extranonce_size = 10;
    extranonce_prefix = s.as_bytes c.extranonce_prefix;
    current_diff = 8;
    username = c.user_identity;
    version_rolling_allowed = true;
    job_key = sv2 submitted.channel_id submitted.job_id;
    template_seed = seed_of template;
  }

  abbrev goes_on : Option (List Sent) → State → List Sent × Option State
  goes_on none st = ([], none)
  goes_on (some sent) st = (sent, some st)

  abbrev refuse_share : SubmittedJob → SubmitCode → State → List Sent × Option State
  refuse_share submitted code st =
      (submit_shares_error submitted.channel_id submitted.sequence_number code ∷ [], some st)

  abbrev settle :
      Surroundings → SubmittedJob → ShareOutcome × JobTracker → State → List Sent × Option State
  settle around submitted (outcome, jobs) st =
      goes_on (forward_share_outcome around submitted.channel_id submitted.sequence_number outcome)
        (record st { jobs = jobs })

  abbrev updated : ℕ → Result UpdateError (List ℕ) → List Sent
  updated channel_id (ok target) = set_target channel_id target ∷ []
  updated channel_id (err e) = update_channel_error channel_id e ∷ []

  abbrev opened :
      Surroundings → List MiningOut × ChannelManager s → State → List Sent × Option State
  opened around (outs, manager) st = (
    map mining outs,
    some (record { manager = manager; jobs = seed_job_tracker around.template outs st.jobs }),
  )

  module _ (sha256d hex_encode : List ℕ → List ℕ) (user_cfg : ShareUserConfig) where
    abbrev extended_share :
        Surroundings → SubmittedJob → Option (OpenedChannel s) → State → List Sent × Option State
    extended_share around submitted none st = refuse_share submitted invalid_channel_id st
    extended_share around submitted (some c) st =
        if c.is_extended
        then settle around submitted
            (validate_extended_share sha256d hex_encode user_cfg
              (channel_of c around.template submitted) submitted.share around.random_byte st.jobs)
            st
        else refuse_share submitted (of_validation bad_extranonce_size) st

    unfoldable pub handle_submit_extended :
        Surroundings → SubmittedJob → State → List Sent × Option State
    handle_submit_extended around submitted st =
        extended_share around submitted (find s submitted.channel_id st.manager.channels) st

    abbrev standard_share :
        Surroundings → SubmittedJob → Option (OpenedChannel s) → State → List Sent × Option State
    standard_share around submitted none st = refuse_share submitted invalid_channel_id st
    standard_share around submitted (some c) st =
        if c.is_extended
        then refuse_share submitted invalid_share st
        else settle around submitted
            (validate_standard_share sha256d hex_encode user_cfg
              (channel_of c around.template submitted) submitted.share around.random_byte st.jobs)
            st

    unfoldable pub handle_submit_standard :
        Surroundings → SubmittedJob → State → List Sent × Option State
    handle_submit_standard around submitted st =
        standard_share around submitted (find s submitted.channel_id st.manager.channels) st

    unfoldable pub dispatch_frame : Surroundings → Message → State → List Sent × Option State
    dispatch_frame around (open_standard req) st =
        opened around (handle_open_standard s sha256d around.template req st.manager) st
    dispatch_frame around (open_extended req) st =
        opened around (handle_open_extended s around.template req st.manager) st
    dispatch_frame around (close_channel channel_id) st =
        ([], some (record st { manager = handle_close_channel s channel_id st.manager }))
    dispatch_frame around (update_channel channel_id rate maximum_target) st = (
      updated channel_id (
          handle_update_channel (s.accepts_hash_rate rate) maximum_target st.manager.min_target_le),
      some st,
    )
    dispatch_frame around (submit_standard submitted) st =
        handle_submit_standard around submitted st
    dispatch_frame around (submit_extended submitted) st =
        handle_submit_extended around submitted st
    dispatch_frame around (set_custom_mining_job channel_id request_id) st =
        (set_custom_mining_job_error channel_id request_id ∷ [], some st)
    dispatch_frame around unsupported st = ([], some st)

    abbrev on_template_changed : Option TemplateState → State → List Sent × Option State
    on_template_changed none st = ([], some st)
    on_template_changed (some template) st =
        let (outs, manager) = on_template_update s sha256d template st.manager in
        (map mining outs, some (record st { manager = manager }))

    -- One turn of the dispatch loop; none where the connection ends.
    unfoldable pub turn : Surroundings → Event → State → List Sent × Option State
    turn around template_changed st = on_template_changed around.template st
    turn around (frame message) st = dispatch_frame around message st
    turn around unparsed_frame st = ([], some st)
