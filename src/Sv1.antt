-- ===== src/Sv1.antt =====
-- crates/datum-stratum-sv1: the extranonce of a client, the two emitted jobs that a connection keeps, and
-- the byte patched into coinb1.
pub mod Emits
pub mod Hex
pub mod Connection
pub mod Notify
use datum_rs.Common.{
  ℕ, ◌*◌, ◌%◌, ◌^◌, bit_or, bit_xor, List, length, set, ltb, ◌==◌, if◌then◌else◌, Option, some,
  none,
}
use datum_rs.ShareRelay.Jobs.{same_bytes}
use datum_rs.ShareRelay.Encoder.{floor_pot}

unfoldable pub extranonce1 : ℕ → ℕ → ℕ
extranonce1 thread_id client_id =
    bit_or (thread_id * 2 ^ 22 % 2 ^ 32) (bit_xor client_id 0xB10CF00D)

pub record EmittedJob : Type 0 where
  pub job_id : List ℕ
  pub patched_coinb1_bin : List ℕ
  pub diff : ℕ

-- The two slots, the newer one first.
pub record EmitRing : Type 0 where
  pub newest : Option EmittedJob
  pub previous : Option EmittedJob

unfoldable pub ring_push : EmitRing → EmittedJob → EmitRing
ring_push ring entry = record { newest = some entry; previous = ring.newest }

abbrev in_slot : Option EmittedJob → List ℕ → Option EmittedJob → Option EmittedJob
in_slot none job_id otherwise = otherwise
in_slot (some e) job_id otherwise = if same_bytes e.job_id job_id then some e else otherwise

unfoldable pub ring_lookup : EmitRing → List ℕ → Option EmittedJob
ring_lookup ring job_id = in_slot ring.newest job_id (in_slot ring.previous job_id none)

-- An index of 0 says that there is nothing to patch.
unfoldable pub patch_coinb1_bytes : List ℕ → ℕ → ℕ → List ℕ
patch_coinb1_bytes coinb1_bin target_pot_index current_diff =
    if target_pot_index == 0
    then coinb1_bin
    else if ltb target_pot_index (length coinb1_bin)
    then set coinb1_bin target_pot_index (floor_pot current_diff)
    else coinb1_bin

-- What is kept of a job when it is emitted, in both arms that emit one.
unfoldable pub emit : List ℕ → List ℕ → ℕ → ℕ → EmitRing → EmitRing
emit job_id coinb1_bin target_pot_index current_diff ring = ring_push ring (record {
  job_id = job_id;
  patched_coinb1_bin = patch_coinb1_bytes coinb1_bin target_pot_index current_diff;
  diff = current_diff;
})
