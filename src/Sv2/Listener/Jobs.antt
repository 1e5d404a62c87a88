-- ===== src/Sv2/Listener/Jobs.antt =====
-- The jobs of a connection and the tracker that its shares are checked against:
-- crates/datum-stratum-sv2/src/listener.rs.
use datum_rs.Common.{
  ℕ, suc, ◌≡◌, refl, ap, arith, ◌+◌, ◌^◌, ◌≤◌, ◌==◌, ◌&&◌, if◌then◌else◌, Bool, Bool-cases, inl,
  inr, All, Option, true, false, List, [], ◌∷◌, length, ◌<◌, some, none,
}
use datum_rs.Template.State.{TemplateState}
use datum_rs.ShareRelay.Jobs.{JobKey, sv1, sv2, JobEntry, JobTracker, lookup}
use datum_rs.ShareRelay.Capacity.{keys}
use datum_rs.ShareRelay.Encoder.{ShareUserConfig}
use datum_rs.ShareRelay.Relay.{
  RejectCode, rejected, bad_extranonce_size, version_rolling_not_allowed, invalid_job_id,
  finalize_share,
}
use datum_rs.Sv2.Shares.{
  SubmitShares, Channel, rolls_version, validate_extended_share, validate_standard_share,
}
use datum_rs.Sv2.Channels.{Services, OpenedChannel, ChannelManager, find}
use datum_rs.Sv2.Channels.Update.{channel_ids, update_one, update_all, on_template_update}
use datum_rs.Sv2.Channels.Work.{
  activated, activated-append, update_one-activated, update_all-told, find-listed,
  on_template_update-activated,
}
use datum_rs.Sv2.Listener.{
  Surroundings, SubmittedJob, Sent, submit_shares_error, SubmitCode, of_validation, invalid_share,
  State, frame, template_changed, submit_extended, submit_standard, channel_of,
  forward_share_outcome, handle_submit_extended, handle_submit_standard, dispatch_frame, turn,
}

-- The id of an SV2 job is one that was given out before `next_job_id`.
abbrev pub IsGiven : ℕ → JobKey → Type 0
IsGiven next_job_id (sv1 id) = Unit
IsGiven next_job_id (sv2 channel_id job_id) = job_id < next_job_id

lookup-absent :
    (next_job_id channel_id job_id : ℕ) (entries : List (JobKey × JobEntry))
    → next_job_id ≤ job_id
    → All (IsGiven next_job_id) (keys entries)
    → lookup (sv2 channel_id job_id) entries ≡ none
lookup-absent n c j [] le h = refl
lookup-absent n c j ((sv1 id, e) ∷ rest) le (p, ps) = lookup-absent n c j rest le ps
lookup-absent n c j ((sv2 d k, e) ∷ rest) le (p, ps) =
    rw (other, and-false (c == d)) (lookup-absent n c j rest le ps)
  where
    other : (j == k) ≡ false
    other = ground (arith, le, p)

    and-false : (b : Bool) → (b && false) ≡ false
    and-false true = refl
    and-false false = refl

module _ (s : Services) (sha256d hex_encode : List ℕ → List ℕ) (user_cfg : ShareUserConfig) where
  -- An update activates no job that was given out before it.
  activated-above :
      (template : TemplateState) (cid n d : ℕ) (ids : List ℕ) (m : ChannelManager s)
      → n ≤ d
      → n ≤ m.next_job_id
      → m.next_job_id + length ids < 2 ^ 32
      → n ≤ activated cid d (update_all s sha256d template ids m).0
  unfolding update_all update_one
  activated-above template cid n d [] m h k lt = h
  activated-above template cid n d (id ∷ ids) m h k lt =
      rw (activated-append, update_one-activated s sha256d template cid id d m)
        (activated-above template cid n (if id == cid then m.next_job_id else d) ids
          (update_one s sha256d template id m).1 (ground (arith, h, k)) (omega arith) (omega arith))

  length-channel_ids :
      (channels : List (OpenedChannel s)) → length (channel_ids s channels) ≡ length channels
  length-channel_ids [] = refl
  length-channel_ids (c ∷ rest) = ap suc (length-channel_ids rest)

  extended-refused :
      (channel : Channel) (share : SubmitShares) (rb : ℕ) (t : JobTracker)
      → lookup channel.job_key t.by_key ≡ none
      → (code : RejectCode) × (validate_extended_share sha256d hex_encode user_cfg channel share rb
            t
          ≡ (rejected code, t))
  unfolding validate_extended_share finalize_share
  extended-refused channel share rb t none_there =
      elim (Bool-cases (length share.extranonce == channel.extranonce_size)) [
        | inr other ↦ (bad_extranonce_size, rw other refl)
        | inl same ↦
            elim (Bool-cases (rolls_version channel.version_rolling_allowed share.version)) [
              | inl rolls ↦ (version_rolling_not_allowed, rw (same, rolls) refl)
              | inr still ↦ (invalid_job_id, rw (same, still, finalize_share, none_there) refl)
            ]
      ]

  standard-refused :
      (channel : Channel) (share : SubmitShares) (rb : ℕ) (t : JobTracker)
      → lookup channel.job_key t.by_key ≡ none
      → (code : RejectCode) × (validate_standard_share sha256d hex_encode user_cfg channel share rb
            t
          ≡ (rejected code, t))
  unfolding validate_standard_share finalize_share
  standard-refused channel share rb t none_there =
      elim (Bool-cases (rolls_version channel.version_rolling_allowed share.version)) [
        | inl rolls ↦ (version_rolling_not_allowed, rw rolls refl)
        | inr still ↦ (invalid_job_id, rw (still, finalize_share, none_there) refl)
      ]

  -- An error to the miner, and nothing else: no share goes to the pool, and the state is as before.
  abbrev pub IsRefusal : SubmittedJob → State s → List Sent × Option (State s) → Type 0
  IsRefusal submitted st r =
      (code : SubmitCode) × (r
        ≡ (submit_shares_error submitted.channel_id submitted.sequence_number code ∷ [], some st))

  submit_extended-IsRefusal :
      (around : Surroundings) (submitted : SubmittedJob) (c : OpenedChannel s) (st : State s)
      → find s submitted.channel_id st.manager.channels ≡ some c
      → lookup (sv2 submitted.channel_id submitted.job_id) st.jobs.by_key ≡ none
      → IsRefusal submitted st
          (turn s sha256d hex_encode user_cfg around (frame (submit_extended submitted)) st)
  unfolding turn dispatch_frame handle_submit_extended forward_share_outcome
  submit_extended-IsRefusal around submitted c st f l = elim (Bool-cases c.is_extended) [
    | inl x ↦
        let (code, e) =
          extended-refused (channel_of s c around.template submitted) submitted.share
            around.random_byte st.jobs l in
        (of_validation code, rw (f, x, e) refl)
    | inr x ↦ (of_validation bad_extranonce_size, rw (f, x) refl)
  ]

  submit_standard-IsRefusal :
      (around : Surroundings) (submitted : SubmittedJob) (c : OpenedChannel s) (st : State s)
      → find s submitted.channel_id st.manager.channels ≡ some c
      → lookup (sv2 submitted.channel_id submitted.job_id) st.jobs.by_key ≡ none
      → IsRefusal submitted st
          (turn s sha256d hex_encode user_cfg around (frame (submit_standard submitted)) st)
  unfolding turn dispatch_frame handle_submit_standard forward_share_outcome
  submit_standard-IsRefusal around submitted c st f l = elim (Bool-cases c.is_extended) [
    | inl x ↦ (invalid_share, rw (f, x) refl)
    | inr x ↦
        let (code, e) =
          standard-refused (channel_of s c around.template submitted) submitted.share
            around.random_byte st.jobs l in
        (of_validation code, rw (f, x, e) refl)
  ]

  changed :
      (around : Surroundings) (template : TemplateState) (st : State s)
      → around.template ≡ some template
      → (turn s sha256d hex_encode user_cfg around template_changed st).1
        ≡ some (record st { manager = (on_template_update s sha256d template st.manager).1 })
  unfolding turn
  changed around template st a = rw a refl

  new_job_above :
      (template : TemplateState) (submitted : SubmittedJob) (c : OpenedChannel s) (st : State s)
      → st.manager.next_job_id + length st.manager.channels < 2 ^ 32
      → find s submitted.channel_id st.manager.channels ≡ some c
      → submitted.job_id
        ≡ activated submitted.channel_id c.last_job_id
            (on_template_update s sha256d template st.manager).0
      → st.manager.next_job_id ≤ submitted.job_id
  unfolding on_template_update
  new_job_above template submitted c st room f j =
      rw
        (
          j,
          update_all-told s sha256d template submitted.channel_id
              (channel_ids s st.manager.channels) st.manager c.last_job_id st.manager.next_job_id
              (find-listed s submitted.channel_id st.manager.channels c f),
        )
        (activated-above template submitted.channel_id st.manager.next_job_id st.manager.next_job_id
          (channel_ids s st.manager.channels) st.manager (omega arith) (omega arith)
          (omega (arith, room, length-channel_ids st.manager.channels)))

  -- Where the tracker knows no SV2 job id that the connection's manager has yet to give out, and the
  -- ids do not wrap: a template change gives every open channel a new job, but leaves the tracker alone,
  -- so that no share of that job can be accepted. Whatever the channel's kind, the submit message and
  -- the share, and whatever the template is by then, it is answered by an error, nothing goes to the
  -- pool, and the state is as before.
  pub turn-untracked :
      (around later : Surroundings) (template : TemplateState) (st : State s)
      (submitted : SubmittedJob) (c : OpenedChannel s)
      → around.template ≡ some template
      → All (IsGiven st.manager.next_job_id) (keys st.jobs.by_key)
      → st.manager.next_job_id + length st.manager.channels < 2 ^ 32
      → find s submitted.channel_id st.manager.channels ≡ some c
      → submitted.job_id
        ≡ activated submitted.channel_id c.last_job_id
            (on_template_update s sha256d template st.manager).0
      → ((turn s sha256d hex_encode user_cfg around template_changed st).1
          ≡ some (record st { manager = (on_template_update s sha256d template st.manager).1 }))
        × IsRefusal submitted
            (record st { manager = (on_template_update s sha256d template st.manager).1 })
            (turn s sha256d hex_encode user_cfg later
              (frame (submit_extended submitted))
              (record st { manager = (on_template_update s sha256d template st.manager).1 }))
        × IsRefusal submitted
            (record st { manager = (on_template_update s sha256d template st.manager).1 })
            (turn s sha256d hex_encode user_cfg later
              (frame (submit_standard submitted))
              (record st { manager = (on_template_update s sha256d template st.manager).1 }))
  turn-untracked around later template st submitted c a given room f j =
      let st' : State s = record st {
        manager = (on_template_update s sha256d template st.manager).1;
      } in
      let found =
        on_template_update-activated s sha256d template st.manager submitted.channel_id
          c.last_job_id c f in
      let absent : lookup (sv2 submitted.channel_id submitted.job_id) st.jobs.by_key ≡ none =
        lookup-absent st.manager.next_job_id submitted.channel_id submitted.job_id st.jobs.by_key
          (new_job_above template submitted c st room f j) given in
      (
        changed around template st a,
        submit_extended-IsRefusal later submitted _ st' found absent,
        submit_standard-IsRefusal later submitted _ st' found absent,
      )
