-- ===== src/Sv2/Channels/Work.antt =====
-- The job that a channel is told to work on, and the one that the manager has on record:
-- on_template_update of crates/datum-stratum-sv2/src/channel_manager.rs.
use datum_rs.Common.{
  ℕ, ◌≡◌, refl, sym, inl, inr, arith, Bool, true, false, Bool-cases, ◌&&◌, ◌||◌, List, [], ◌∷◌,
  ◌++◌, ◌==◌, if◌then◌else◌, Option, some, none,
}
use mathlib.Core.Bool.{true≢false}
use mathlib.Core.List.{map, reverse}
use mathlib.Core.Option.{some-injective, none-ne-some}
use datum_rs.Template.State.{TemplateState}
use datum_rs.Sv2.Channels.{
  Services, MiningOut, open_extended_success, open_standard_success, open_channel_error,
  new_extended_job, new_job, set_new_prev_hash, OpenedChannel, ChannelManager, find,
  compute_merkle_root_for_standard, build_new_extended_job, build_set_new_prev_hash,
}
use datum_rs.Sv2.Channels.Update.{
  channel_ids, with_job, listed, prefix_bytes, is_extended, job_messages, update_one, update_all,
  on_template_update,
}

-- The job that the latest SetNewPrevHash for the channel activates, and `job_id` where there is none.
abbrev pub activated : ℕ → ℕ → List MiningOut → ℕ
activated channel_id job_id [] = job_id
activated channel_id job_id (set_new_prev_hash cid j hash ntime nbits ∷ outs) =
    activated channel_id (if cid == channel_id then j else job_id) outs
activated channel_id job_id (open_extended_success r cid target size prefix ∷ outs) =
    activated channel_id job_id outs
activated channel_id job_id (open_standard_success r cid target prefix ∷ outs) =
    activated channel_id job_id outs
activated channel_id job_id (open_channel_error r code ∷ outs) = activated channel_id job_id outs
activated channel_id job_id (new_extended_job cid j v rolling path prefix suffix ∷ outs) =
    activated channel_id job_id outs
activated channel_id job_id (new_job cid j v root ∷ outs) = activated channel_id job_id outs

pub activated-append :
    (cid d : ℕ) (xs ys : List MiningOut)
    → activated cid d (xs ++ ys) ≡ activated cid (activated cid d xs) ys
activated-append cid d [] ys = refl
activated-append cid d (set_new_prev_hash c j hash ntime nbits ∷ xs) ys =
    activated-append cid (if c == cid then j else d) xs ys
activated-append cid d (open_extended_success r c target size prefix ∷ xs) ys =
    activated-append cid d xs ys
activated-append cid d (open_standard_success r c target prefix ∷ xs) ys =
    activated-append cid d xs ys
activated-append cid d (open_channel_error r code ∷ xs) ys = activated-append cid d xs ys
activated-append cid d (new_extended_job c j v rolling path prefix suffix ∷ xs) ys =
    activated-append cid d xs ys
activated-append cid d (new_job c j v root ∷ xs) ys = activated-append cid d xs ys

module _ (s : Services) where
  job_messages-activated :
      (sha256d : List ℕ → List ℕ) (template : TemplateState) (cid id job_id d : ℕ)
      (channel : Option (OpenedChannel s))
      → activated cid d (job_messages s sha256d template id job_id channel) ≡ d
  unfolding job_messages build_new_extended_job
  job_messages-activated sha256d template cid id job_id d channel = either (is_extended s channel) (
      (s.fits_seq0255 (map reverse template.merkle_branches) && s.fits_b064k template.coinb1)
      && s.fits_b064k template.coinb2)
    where
      either :
          (extended fits : Bool)
          → activated cid d (
              if extended
              then listed s (
                  if fits
                  then some (
                      new_extended_job id job_id template.version true
                        (map reverse template.merkle_branches)
                        template.coinb1
                        template.coinb2)
                  else none)
              else (new_job id job_id template.version (
                    compute_merkle_root_for_standard sha256d template.coinb1
                      (prefix_bytes s channel)
                      template.coinb2
                      template.merkle_branches)
                  ∷ []))
            ≡ d
      either true true = refl
      either true false = refl
      either false fits = refl

  pub update_one-activated :
      (sha256d : List ℕ → List ℕ) (template : TemplateState) (cid id d : ℕ) (m : ChannelManager s)
      → activated cid d (update_one s sha256d template id m).0
        ≡ (if id == cid then m.next_job_id else d)
  unfolding update_one build_set_new_prev_hash
  update_one-activated sha256d template cid id d m =
      rw
        (
          activated-append,
          job_messages-activated sha256d template cid id m.next_job_id d (find s id m.channels),
        )
        refl

  find-with_job :
      (cid id job_id : ℕ) (channels : List (OpenedChannel s)) (c : OpenedChannel s)
      → find s cid channels ≡ some c
      → find s cid (with_job s id job_id channels)
        ≡ some (record c { last_job_id = if id == cid then job_id else c.last_job_id })
  find-with_job cid id job_id [] c e = absurd (none-ne-some c e)
  find-with_job cid id job_id (b ∷ rest) c e = elim (Bool-cases (b.channel_id == cid)) [
    | inl is ↦ rw is (same_channel (some-injective b c (rw is at e)) is)
    | inr off ↦ rw off (find-with_job cid id job_id rest c (rw off at e))
  ]
    where
      same_test : (b.channel_id == cid) ≡ true → (b.channel_id == id) ≡ (id == cid)
      same_test is = ground (arith, is)

      same_channel :
          b ≡ c
          → (b.channel_id == cid) ≡ true
          → some (record b { last_job_id = if b.channel_id == id then job_id else b.last_job_id })
            ≡ some (record c { last_job_id = if id == cid then job_id else c.last_job_id })
      same_channel q is = rw (same_test is, q) refl

  stepped :
      (sha256d : List ℕ → List ℕ) (template : TemplateState) (cid id : ℕ) (m : ChannelManager s)
      (c : OpenedChannel s)
      → find s cid m.channels ≡ some c
      → find s cid (update_one s sha256d template id m).1.channels
        ≡ some (record c { last_job_id = if id == cid then m.next_job_id else c.last_job_id })
  unfolding update_one
  stepped sha256d template cid id m c e = find-with_job cid id m.next_job_id m.channels c e

  update_all-activated :
      (sha256d : List ℕ → List ℕ) (template : TemplateState) (cid : ℕ) (ids : List ℕ)
      (m : ChannelManager s) (c : OpenedChannel s)
      → find s cid m.channels ≡ some c
      → find s cid (update_all s sha256d template ids m).1.channels
        ≡ some (record c {
          last_job_id = activated cid c.last_job_id (update_all s sha256d template ids m).0;
        })
  unfolding update_all
  update_all-activated sha256d template cid [] m c e = e
  update_all-activated sha256d template cid (id ∷ ids) m c e =
      rw (activated-append, update_one-activated sha256d template cid id c.last_job_id m)
        (update_all-activated sha256d template cid ids (update_one s sha256d template id m).1
          (record c { last_job_id = if id == cid then m.next_job_id else c.last_job_id })
          (stepped sha256d template cid id m c e))

  abbrev pub listed_in : ℕ → List ℕ → Bool
  listed_in cid [] = false
  listed_in cid (id ∷ ids) = (id == cid) || listed_in cid ids

  -- A channel that is listed is told a job whatever it worked on before.
  pub update_all-told :
      (sha256d : List ℕ → List ℕ) (template : TemplateState) (cid : ℕ) (ids : List ℕ)
      (m : ChannelManager s) (d d' : ℕ)
      → listed_in cid ids ≡ true
      → activated cid d (update_all s sha256d template ids m).0
        ≡ activated cid d' (update_all s sha256d template ids m).0
  unfolding update_all
  update_all-told sha256d template cid [] m d d' h = absurd (true≢false (sym h))
  update_all-told sha256d template cid (id ∷ ids) m d d' h =
      rw
        (
          activated-append,
          activated-append,
          update_one-activated sha256d template cid id d m,
          update_one-activated sha256d template cid id d' m,
        )
        (elim (Bool-cases (id == cid)) [
          | inl is ↦ rw is refl
          | inr off ↦ rw off (
              update_all-told sha256d template cid ids (update_one s sha256d template id m).1 d d'
                (rw off at h))
        ])

  pub find-listed :
      (cid : ℕ) (channels : List (OpenedChannel s)) (c : OpenedChannel s)
      → find s cid channels ≡ some c
      → listed_in cid (channel_ids s channels) ≡ true
  find-listed cid [] c e = absurd (none-ne-some c e)
  find-listed cid (b ∷ rest) c e = elim (Bool-cases (b.channel_id == cid)) [
    | inl is ↦ rw is refl
    | inr off ↦ rw off (find-listed cid rest c (rw off at e))
  ]

  -- After a template update, each open channel is as before but for its job, which is the one that the
  -- messages of the update activate for it, and they do activate one, whatever its job was before.
  pub on_template_update-activated :
      (sha256d : List ℕ → List ℕ) (template : TemplateState) (m : ChannelManager s)
      (channel_id before : ℕ) (c : OpenedChannel s)
      → find s channel_id m.channels ≡ some c
      → find s channel_id (on_template_update s sha256d template m).1.channels
        ≡ some (record c {
          last_job_id = activated channel_id before (on_template_update s sha256d template m).0;
        })
  unfolding on_template_update
  on_template_update-activated sha256d template m channel_id before c e =
      rw
        (update_all-told sha256d template channel_id (channel_ids s m.channels) m before
          c.last_job_id (find-listed channel_id m.channels c e))
        (update_all-activated sha256d template channel_id (channel_ids s m.channels) m c e)
