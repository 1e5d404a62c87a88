-- ===== src/Sv2/Registry.antt =====
-- ChannelRegistry of crates/datum-stratum-sv2/src/lib.rs, in the steps that tasks can come between: `open`
-- reads and raises the counter before it takes the lock, and what the metrics read is stored after the
-- map has changed. The hash map is a list in which an id stands once.
pub mod Interleavings
use datum_rs.Common.{
  ℕ, ◌+◌, ◌%◌, ◌^◌, Bool, true, false, List, [], ◌∷◌, length, ◌==◌, if◌then◌else◌,
}
use datum_rs.Sv2.Store.{ExtendedJob, InMemoryJobStore, with_capacity, put_job}

pub record ChannelState : Type 0 where
  pub channel_id : ℕ
  pub user_identity : List ℕ
  pub job_store : InMemoryJobStore

pub record ChannelRegistry : Type 0 where
  pub inner : List ChannelState
  pub next_id : ℕ
  pub count : ℕ

unfoldable pub new_registry : ChannelRegistry
new_registry = record { inner = []; next_id = 0; count = 0 }

abbrev pub without_channel : ℕ → List ChannelState → List ChannelState
without_channel id [] = []
without_channel id (s ∷ ss) =
    let rest = without_channel id ss in if s.channel_id == id then ss else (s ∷ rest)

-- The map's insert, which replaces the state of a known id.
abbrev pub insert_channel_state : ChannelState → List ChannelState → List ChannelState
insert_channel_state state ss = state ∷ without_channel state.channel_id ss

-- The id of a channel that is to be opened.
unfoldable pub fetch_id : ChannelRegistry → ℕ × ChannelRegistry
fetch_id r = (r.next_id, record r { next_id = (r.next_id + 1) % 2 ^ 32 })

-- `open` under the lock: the map is changed, and the counter that the metrics read is stored after it.
unfoldable pub insert_state : ℕ → List ℕ → ChannelRegistry → ChannelRegistry
insert_state channel_id user_identity r = record r {
  inner =
      insert_channel_state
        (record {
          channel_id = channel_id;
          user_identity = user_identity;
          job_store = with_capacity 8;
        })
        r.inner;
}

unfoldable pub store_count : ChannelRegistry → ChannelRegistry
store_count r = record r { count = length r.inner }

-- `open`, with no other task between its steps.
unfoldable pub open_channel : List ℕ → ChannelRegistry → ℕ × ChannelRegistry
unfolding fetch_id insert_state store_count
open_channel user_identity r =
    let (channel_id, fetched) = fetch_id r in
    (channel_id, store_count (insert_state channel_id user_identity fetched))

-- `close` likewise changes the map and then stores the count.
unfoldable pub remove_state : ℕ → ChannelRegistry → ChannelRegistry
remove_state channel_id r = record r { inner = without_channel channel_id r.inner }

unfoldable pub close_channel : ℕ → ChannelRegistry → ChannelRegistry
unfolding remove_state store_count
close_channel channel_id r = store_count (remove_state channel_id r)

-- What the metrics read, without the lock.
unfoldable pub active_count : ChannelRegistry → ℕ
active_count r = r.count

-- Whether the channel is there, and the channels with the job in its store.
unfoldable pub put_at : ℕ → ExtendedJob → List ChannelState → Bool × List ChannelState
put_at channel_id job [] = (false, [])
put_at channel_id job (s ∷ ss) =
    let (found, rest) = put_at channel_id job ss in
    if s.channel_id == channel_id
    then (true, record s { job_store = put_job job s.job_store } ∷ ss)
    else (found, s ∷ rest)

unfoldable pub put_channel_job : ℕ → ExtendedJob → ChannelRegistry → Bool × ChannelRegistry
unfolding put_at
put_channel_job channel_id job r =
    let (found, inner) = put_at channel_id job r.inner in (found, record r { inner = inner })
