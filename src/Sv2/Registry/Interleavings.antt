-- ===== src/Sv2/Registry/Interleavings.antt =====
-- The registry of crates/datum-stratum-sv2/src/lib.rs between tasks that open and close channels.
use datum_rs.Common.{ℕ, ◌+◌, ◌^◌, ◌≤◌, ◌<◌, ◌≡◌, List, [], ◌∷◌, ◌++◌, ltb, ◌==◌, if◌then◌else◌}
use datum_rs.Sv2.Store.{ExtendedJob}
use datum_rs.Sv2.Store.Ring.{IsRing}
use datum_rs.Sv2.Registry.{
  ChannelState, ChannelRegistry, new_registry, fetch_id, insert_state, store_count, remove_state,
  put_channel_job,
}

abbrev pub occurs : ℕ → List ℕ → ℕ
occurs n [] = 0
occurs n (m ∷ ms) = (if m == n then 1 else 0) + occurs n ms

abbrev pub channel_ids : List ChannelState → List ℕ
channel_ids [] = []
channel_ids (s ∷ ss) = s.channel_id ∷ channel_ids ss

-- Whether a task holds the lock between its change of the map and its store of the count.
pub data Lock : Type 0 where
  free : Lock
  held : Lock

-- The registry, its lock, and the ids of the tasks that have read the counter and wait for the lock. A
-- task that changes the map needs a free lock; the counter is read and raised at any time.
pub data Reach : ChannelRegistry → Lock → List ℕ → Type 0 where
  start : Reach new_registry free []
  fetched :
      (r : ChannelRegistry) (lock : Lock) (waiting : List ℕ)
      → Reach r lock waiting
      → r.next_id + 1 < 2 ^ 32
      → Reach (fetch_id r).1 lock ((fetch_id r).0 ∷ waiting)
  inserted :
      (r : ChannelRegistry) (before after : List ℕ) (channel_id : ℕ) (user : List ℕ)
      → Reach r free (before ++ (channel_id ∷ after))
      → Reach (insert_state channel_id user r) held (before ++ after)
  removed :
      (r : ChannelRegistry) (waiting : List ℕ) (channel_id : ℕ)
      → Reach r free waiting
      → Reach (remove_state channel_id r) held waiting
  stored :
      (r : ChannelRegistry) (waiting : List ℕ)
      → Reach r held waiting
      → Reach (store_count r) free waiting
  job_put :
      (r : ChannelRegistry) (waiting : List ℕ) (channel_id : ℕ) (job : ExtendedJob)
      → Reach r free waiting
      → Reach (put_channel_job channel_id job r).1 free waiting

abbrev HasRing : ChannelState → Type 0
HasRing s = IsRing s.job_store

-- How far the stored count may be from the number of channels.
abbrev pub IsNear : Lock → ℕ → ℕ → Type 0
IsNear free count channels = count ≡ channels
IsNear held count channels = (count ≤ channels + 1) × (channels ≤ count + 1)

-- No id is given out twice.
abbrev IsSingle : ℕ → ChannelRegistry → List ℕ → Type 0
IsSingle n r waiting =
    occurs n waiting + occurs n (channel_ids r.inner) ≤ (if ltb n r.next_id then 1 else 0)
