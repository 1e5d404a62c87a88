-- ===== src/Sv2/Channels/Ids.antt =====
-- The ids of the open channels, over every run of a manager: crates/datum-stratum-sv2/src/channel_manager.rs.
use datum_rs.Common.{
  ℕ, suc, ◌+◌, ◌-◌, ◌%◌, ◌^◌, ◌≤◌, ◌<◌, ◌≡◌, arith, Bool, true, false, Bool-cases, inl, inr, List,
  [], ◌∷◌, ◌==◌, Option, some, none, Result, ok, err,
}
use datum_rs.Template.State.{TemplateState}
use datum_rs.Sv2.Channels.{
  Services, MiningOut, OpenError, OpenRequest, OpenedChannel, ChannelManager, with_policy, without,
  handle_close_channel, insert_channel,
}
use datum_rs.Sv2.Channels.Open.{
  take_ids, finish, answer, extended_messages, standard_messages, open_extended_with,
  open_standard_with, open_extended_inner, open_standard_inner, handle_open_extended,
  handle_open_standard,
}
use datum_rs.Sv2.Channels.Cases.{checked-cases}
use datum_rs.Sv2.Channels.Update.{channel_ids, with_job, update_one, update_all, on_template_update}

module _ (s : Services) (sha256d : List ℕ → List ℕ) where
  -- What a connection does with its manager, and how many requests to open a channel that took.
  pub data Reach (slots : s.Allocator) (min_target_le : List ℕ)
      : ℕ → ChannelManager s → Type 0 where
    start : Reach slots min_target_le 0 (with_policy s slots min_target_le)
    extended :
        {n : ℕ} {m : ChannelManager s} (template : Option TemplateState) (req : OpenRequest s)
        → Reach slots min_target_le n m
        → Reach slots min_target_le (suc n) (handle_open_extended s template req m).1
    standard :
        {n : ℕ} {m : ChannelManager s} (template : Option TemplateState) (req : OpenRequest s)
        → Reach slots min_target_le n m
        → Reach slots min_target_le (suc n) (handle_open_standard s sha256d template req m).1
    close :
        {n : ℕ} {m : ChannelManager s} (channel_id : ℕ)
        → Reach slots min_target_le n m
        → Reach slots min_target_le n (handle_close_channel s channel_id m)
    update :
        {n : ℕ} {m : ChannelManager s} (template : TemplateState)
        → Reach slots min_target_le n m
        → Reach slots min_target_le n (on_template_update s sha256d template m).1

  -- The ids go down from below the bound: no id stands twice, and none has reached the bound.
  abbrev pub Descending : ℕ → List (OpenedChannel s) → Type 0
  Descending bound [] = Unit
  Descending bound (c ∷ rest) = (c.channel_id < bound) × Descending c.channel_id rest

  weaken :
      (a b : ℕ) (channels : List (OpenedChannel s))
      → a ≤ b
      → Descending a channels
      → Descending b channels
  weaken a b [] le h = tt
  weaken a b (c ∷ rest) le h = (omega (arith, h.0), h.1)

  without-Descending :
      (cid bound : ℕ) (channels : List (OpenedChannel s))
      → Descending bound channels
      → Descending bound (without s cid channels)
  without-Descending cid bound [] h = tt
  without-Descending cid bound (c ∷ rest) h = elim (Bool-cases (c.channel_id == cid)) [
    | inl is ↦ rw is (
        without-Descending cid bound rest (weaken c.channel_id bound rest (omega (arith, h.0)) h.1))
    | inr off ↦ rw off (h.0, without-Descending cid c.channel_id rest h.1)
  ]

  with_job-Descending :
      (cid job_id bound : ℕ) (channels : List (OpenedChannel s))
      → Descending bound channels
      → Descending bound (with_job s cid job_id channels)
  with_job-Descending cid job_id bound [] h = tt
  with_job-Descending cid job_id bound (c ∷ rest) h =
      (h.0, with_job-Descending cid job_id c.channel_id rest h.1)

  -- At most `n` ids were given out, and the open channels have ids among them.
  abbrev IsKept : ℕ → ChannelManager s → Type 0
  IsKept n m =
      (1 ≤ m.next_channel_id)
      × (m.next_channel_id ≤ n + 1)
      × Descending m.next_channel_id m.channels

  no_wrap :
      (n : ℕ) (m : ChannelManager s)
      → suc n < 2 ^ 32 - 1
      → m.next_channel_id ≤ n + 1
      → (m.next_channel_id + 1) % 2 ^ 32 ≡ m.next_channel_id + 1
  no_wrap n m lt hi = omega arith

  finish-IsKept :
      (n : ℕ) (is_extended : Bool) (req : OpenRequest s) (user_identity : List ℕ)
      (prefix : s.Prefix) (slots : s.Allocator) (out : Option (List MiningOut))
      (m : ChannelManager s)
      → suc n < 2 ^ 32 - 1
      → IsKept n m
      → IsKept (suc n) (finish s is_extended req user_identity prefix slots out m).1
  unfolding take_ids insert_channel
  finish-IsKept n x req user p slots none m lt (lo, hi, h) = rw (no_wrap n m lt hi) (
    omega arith,
    omega (arith, hi),
    weaken m.next_channel_id (m.next_channel_id + 1) m.channels (omega arith) h,
  )
  finish-IsKept n x req user p slots (some out) m lt (lo, hi, h) = rw (no_wrap n m lt hi) (
    omega arith,
    omega (arith, hi),
    (omega arith, without-Descending m.next_channel_id m.next_channel_id m.channels h),
  )

  one_more : (n : ℕ) (m : ChannelManager s) → IsKept n m → IsKept (suc n) m
  one_more n m (lo, hi, h) = (lo, omega (arith, hi), h)

  answer-IsKept :
      (n request_id : ℕ) (r : Result OpenError (List MiningOut) × ChannelManager s)
      → IsKept n r.1
      → IsKept n (answer s request_id r).1
  answer-IsKept n request_id (ok out, m) h = h
  answer-IsKept n request_id (err e, m) h = h

  extended-IsKept :
      (n : ℕ) (req : OpenRequest s) (user : List ℕ) (template : TemplateState)
      (allocated : Option s.Prefix × s.Allocator) (m : ChannelManager s)
      → suc n < 2 ^ 32 - 1
      → IsKept n m
      → IsKept (suc n) (open_extended_with s req user template allocated m).1
  extended-IsKept n req user template (none, slots) m lt h = one_more n m h
  extended-IsKept n req user template (some p, slots) m lt h =
      finish-IsKept n true req user p slots (extended_messages s req p template m) m lt h

  standard-IsKept :
      (n : ℕ) (req : OpenRequest s) (user : List ℕ) (template : TemplateState)
      (allocated : Option s.Prefix × s.Allocator) (m : ChannelManager s)
      → suc n < 2 ^ 32 - 1
      → IsKept n m
      → IsKept (suc n) (open_standard_with s sha256d req user template allocated m).1
  standard-IsKept n req user template (none, slots) m lt h = one_more n m h
  standard-IsKept n req user template (some p, slots) m lt h =
      finish-IsKept n false req user p slots (standard_messages s sha256d req p template m) m lt h

  open_extended_inner-IsKept :
      (n : ℕ) (template : Option TemplateState) (req : OpenRequest s) (user : List ℕ)
      (m : ChannelManager s)
      → suc n < 2 ^ 32 - 1
      → IsKept n m
      → IsKept (suc n) (open_extended_inner s template req user m).1
  unfolding open_extended_inner
  open_extended_inner-IsKept n none req user m lt h = one_more n m h
  open_extended_inner-IsKept n (some template) req user m lt h =
      extended-IsKept n req user template (s.allocate_extended m.slots) m lt h

  open_standard_inner-IsKept :
      (n : ℕ) (template : Option TemplateState) (req : OpenRequest s) (user : List ℕ)
      (m : ChannelManager s)
      → suc n < 2 ^ 32 - 1
      → IsKept n m
      → IsKept (suc n) (open_standard_inner s sha256d template req user m).1
  unfolding open_standard_inner
  open_standard_inner-IsKept n none req user m lt h = one_more n m h
  open_standard_inner-IsKept n (some template) req user m lt h =
      standard-IsKept n req user template (s.allocate_standard m.slots) m lt h

  update_all-IsKept :
      (n : ℕ) (template : TemplateState) (ids : List ℕ) (m : ChannelManager s)
      → IsKept n m
      → IsKept n (update_all s sha256d template ids m).1
  unfolding update_all update_one
  update_all-IsKept n template [] m h = h
  update_all-IsKept n template (id ∷ ids) m (lo, hi, h) =
      update_all-IsKept n template ids (update_one s sha256d template id m).1
        (lo, hi, with_job-Descending id m.next_job_id m.next_channel_id m.channels h)

  Reach-IsKept :
      {slots : s.Allocator} {min_target_le : List ℕ} {n : ℕ} {m : ChannelManager s}
      → Reach slots min_target_le n m
      → n < 2 ^ 32 - 1
      → IsKept n m
  unfolding with_policy handle_open_extended handle_open_standard handle_close_channel
      on_template_update
  Reach-IsKept start lt = (omega arith, omega arith, tt)
  Reach-IsKept (extended {n = n} {m = m} template req r) lt =
      checked-cases s (open_extended_inner s template) req m (λ result. IsKept (suc n) result.1)
        (λ code. one_more n m (Reach-IsKept r (omega arith)))
        (λ user.
          answer-IsKept (suc n) req.request_id (open_extended_inner s template req user m)
            (open_extended_inner-IsKept n template req user m lt (Reach-IsKept r (omega arith))))
  Reach-IsKept (standard {n = n} {m = m} template req r) lt =
      checked-cases s (open_standard_inner s sha256d template) req m
        (λ result. IsKept (suc n) result.1) (λ code. one_more n m (Reach-IsKept r (omega arith)))
        (λ user.
          answer-IsKept (suc n) req.request_id (open_standard_inner s sha256d template req user m)
            (open_standard_inner-IsKept n template req user m lt (Reach-IsKept r (omega arith))))
  Reach-IsKept (close {m = m} channel_id r) lt =
      let (lo, hi, h) = Reach-IsKept r lt in
      (lo, hi, without-Descending channel_id m.next_channel_id m.channels h)
  Reach-IsKept (update {n = n} {m = m} template r) lt =
      update_all-IsKept n template (channel_ids s m.channels) m (Reach-IsKept r lt)

  -- However channels are opened, refused, closed and given work, with fewer than 2^32 - 1 requests to open
  -- one, no two open channels have the same id, and the id that the next channel gets is above all of
  -- them.
  pub Reach-Descending :
      (slots : s.Allocator) (min_target_le : List ℕ) (n : ℕ) (m : ChannelManager s)
      → Reach slots min_target_le n m
      → n < 2 ^ 32 - 1
      → Descending m.next_channel_id m.channels
  Reach-Descending slots min_target_le n m r lt = (Reach-IsKept r lt).2
