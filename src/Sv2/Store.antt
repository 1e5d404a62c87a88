-- ===== src/Sv2/Store.antt =====
-- The job store, the extranonce bridge and the sum of the outputs: crates/datum-stratum-sv2/src/lib.rs. The
-- hash map of jobs is a list in the order of insertion, in which an id stands once.
pub mod Ring
use datum_rs.Common.{
  ℕ, ◌+◌, ◌%◌, ◌^◌, max, Bool, true, false, not, List, [], ◌∷◌, ◌++◌, length, leb, ◌==◌,
  if◌then◌else◌, Option, some, none, Result, ok, err,
}
use datum_rs.Coinbaser.{CoinbaseOutput, CoinbaserBlob}

pub record ExtendedJob : Type 0 where
  pub job_id : ℕ
  pub is_future : Bool
  pub version : ℕ
  pub additional_coinbase_outputs : List CoinbaseOutput

unfoldable pub from_blob : ℕ → ℕ → CoinbaserBlob → ExtendedJob
from_blob job_id version blob = record {
  job_id = job_id;
  is_future = false;
  version = version;
  additional_coinbase_outputs = blob.outputs;
}

pub record InMemoryJobStore : Type 0 where
  pub capacity : ℕ
  pub order : List ℕ
  pub jobs : List ExtendedJob

unfoldable pub with_capacity : ℕ → InMemoryJobStore
with_capacity capacity = record { capacity = max capacity 1; order = []; jobs = [] }

abbrev pub find_job : ℕ → List ExtendedJob → Option ExtendedJob
find_job job_id [] = none
find_job job_id (j ∷ jobs) =
    let found = find_job job_id jobs in if j.job_id == job_id then some j else found

abbrev pub contains_key : Option ExtendedJob → Bool
contains_key none = false
contains_key (some j) = true

abbrev pub remove_job : ℕ → List ExtendedJob → List ExtendedJob
remove_job job_id [] = []
remove_job job_id (j ∷ jobs) =
    let others = remove_job job_id jobs in if j.job_id == job_id then jobs else (j ∷ others)

abbrev pub insert_job : ExtendedJob → List ExtendedJob → List ExtendedJob
insert_job job [] = job ∷ []
insert_job job (j ∷ jobs) =
    let others = insert_job job jobs in
    if j.job_id == job.job_id then (job ∷ jobs) else (j ∷ others)

-- The oldest job makes room; with an empty order `remove(0)` would panic.
abbrev pub evict_oldest : List ℕ → List ExtendedJob → List ℕ × List ExtendedJob
evict_oldest [] jobs = ([], jobs)
evict_oldest (evicted ∷ order) jobs = (order, remove_job evicted jobs)

unfoldable pub put_job : ExtendedJob → InMemoryJobStore → InMemoryJobStore
put_job job s =
    if contains_key (find_job job.job_id s.jobs)
    then record s { jobs = insert_job job s.jobs }
    else let (order, jobs) =
        if leb s.capacity (length s.jobs) then evict_oldest s.order s.jobs else (s.order, s.jobs) in
      record s { order = order ++ (job.job_id ∷ []); jobs = insert_job job jobs }

unfoldable pub get_job : ℕ → InMemoryJobStore → Option ExtendedJob
get_job job_id s = find_job job_id s.jobs

pub data BridgeError : Type 0 where
  bad_partition : (prefix index roll sum : ℕ) → BridgeError
  bad_length : (got : ℕ) → BridgeError

pub record ExtranonceBridge : Type 0 where
  pub local_index_bytes : ℕ
  pub rollable_bytes : ℕ

unfoldable pub new_bridge : ℕ → ℕ → Result BridgeError ExtranonceBridge
new_bridge local_index_bytes rollable_bytes =
    let sum = local_index_bytes + rollable_bytes in
    if not (sum == 12)
    then err (bad_partition 0 local_index_bytes rollable_bytes (sum % 2 ^ 8))
    else ok (record { local_index_bytes = local_index_bytes; rollable_bytes = rollable_bytes })

unfoldable pub concat_for_upstream : List ℕ → List ℕ → Result BridgeError (List ℕ)
concat_for_upstream local_prefix rolling =
    if not (length local_prefix + length rolling == 12)
    then err (bad_length (length local_prefix + length rolling))
    else ok (local_prefix ++ rolling)

-- The sum of the values, which wraps as in a release build.
abbrev pub sum_values : List CoinbaseOutput → ℕ
sum_values [] = 0
sum_values (o ∷ outputs) = (o.value_sats + sum_values outputs) % 2 ^ 64

unfoldable pub coinbase_output_sum : CoinbaserBlob → ℕ
coinbase_output_sum blob = sum_values blob.outputs
