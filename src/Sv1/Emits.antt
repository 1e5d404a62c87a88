-- ===== src/Sv1/Emits.antt =====
-- Emitted jobs and the lookup of their shares: crates/datum-stratum-sv1/src/server.rs.
use datum_rs.Common.{
  ℕ, ◌+◌, ◌^◌, ◌≤◌, ◌<◌, ◌≡◌, refl, arith, List, length, ltb, ◌==◌, some, true, false,
}
use datum_rs.Template.{Template, ScriptSigInputs}
use datum_rs.Template.Coinbase.{build_split_coinbase_bin}
use datum_rs.Template.Coinbase.Layout.{with_pot, target_pot_index_points, target_pot_index_inside}
use datum_rs.ShareRelay.Jobs.{same_bytes}
use datum_rs.ShareRelay.Capacity.{same_bytes_refl}
use datum_rs.ShareRelay.Encoder.{floor_pot}
use datum_rs.Sv1.{EmitRing, emit, ring_push, ring_lookup, patch_coinb1_bytes}

patched :
    (t : Template) (s : ScriptSigInputs) (outputs_blob : List ℕ) (diff : ℕ)
    → t.height < 2 ^ 32
    → length s.coinbase_tag_primary + length s.coinbase_tag_secondary ≤ 60000
    → patch_coinb1_bytes
        (build_split_coinbase_bin t s outputs_blob).0
        (build_split_coinbase_bin t s outputs_blob).2
        diff
      ≡ (build_split_coinbase_bin t (with_pot s (floor_pot diff)) outputs_blob).0
unfolding patch_coinb1_bytes
patched t s os diff h tags =
    let (lo, hi) = target_pot_index_inside t s os h tags in
    rw (nonzero lo, inside hi) ((target_pot_index_points t s os h tags).1 (floor_pot diff))
  where
    nonzero :
        1 ≤ (build_split_coinbase_bin t s os).2 → ((build_split_coinbase_bin t s os).2 == 0) ≡ false
    nonzero lo = ground (arith, lo)

    inside :
        (build_split_coinbase_bin t s os).2 < length (build_split_coinbase_bin t s os).0
        → ltb (build_split_coinbase_bin t s os).2 (length (build_split_coinbase_bin t s os).0)
          ≡ true
    inside hi = ground (arith, hi)

-- A job emitted at one difficulty and then, under another id, at a second one: a share of either is
-- looked up with the difficulty of its own emission and with the coinb1 that is built with that
-- difficulty's PoT byte in place of the placeholder. Where the second emission has the id of the first, as
-- on a change of difficulty, a share of the first is looked up as one of the second.
pub ring_lookup-emit :
    (template : Template) (scriptsig : ScriptSigInputs) (outputs_blob : List ℕ)
    (first second : List ℕ) (diff1 diff2 : ℕ) (ring : EmitRing)
    → template.height < 2 ^ 32
    → length scriptsig.coinbase_tag_primary + length scriptsig.coinbase_tag_secondary ≤ 60000
    → same_bytes second first ≡ false
    → (ring_lookup
          (emit second
            (build_split_coinbase_bin template scriptsig outputs_blob).0
            (build_split_coinbase_bin template scriptsig outputs_blob).2
            diff2
            (emit first
              (build_split_coinbase_bin template scriptsig outputs_blob).0
              (build_split_coinbase_bin template scriptsig outputs_blob).2
              diff1
              ring))
          first
        ≡ some (record {
          job_id = first;
          patched_coinb1_bin =
              (build_split_coinbase_bin template
                (with_pot scriptsig (floor_pot diff1))
                outputs_blob).0;
          diff = diff1;
        }))
      × (ring_lookup
            (emit second
              (build_split_coinbase_bin template scriptsig outputs_blob).0
              (build_split_coinbase_bin template scriptsig outputs_blob).2
              diff2
              (emit first
                (build_split_coinbase_bin template scriptsig outputs_blob).0
                (build_split_coinbase_bin template scriptsig outputs_blob).2
                diff1
                ring))
            second
          ≡ some (record {
            job_id = second;
            patched_coinb1_bin =
                (build_split_coinbase_bin template
                  (with_pot scriptsig (floor_pot diff2))
                  outputs_blob).0;
            diff = diff2;
          }))
      × (ring_lookup
            (emit first
              (build_split_coinbase_bin template scriptsig outputs_blob).0
              (build_split_coinbase_bin template scriptsig outputs_blob).2
              diff2
              (emit first
                (build_split_coinbase_bin template scriptsig outputs_blob).0
                (build_split_coinbase_bin template scriptsig outputs_blob).2
                diff1
                ring))
            first
          ≡ some (record {
            job_id = first;
            patched_coinb1_bin =
                (build_split_coinbase_bin template
                  (with_pot scriptsig (floor_pot diff2))
                  outputs_blob).0;
            diff = diff2;
          }))
unfolding emit ring_push ring_lookup
ring_lookup-emit t s os first second diff1 diff2 ring h tags apart = (
  rw (apart, same_bytes_refl first, patched t s os diff1 h tags) refl,
  rw (same_bytes_refl second, patched t s os diff2 h tags) refl,
  rw (same_bytes_refl first, patched t s os diff2 h tags) refl,
)
