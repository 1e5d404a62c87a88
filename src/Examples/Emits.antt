-- ===== src/Examples/Emits.antt =====
-- crates/datum-stratum-sv1: two emitted jobs, at concrete inputs.
use datum_rs.Common.{ℕ, ◌≡◌, refl, arith, List, [], ◌∷◌, some, none}
use datum_rs.Template.Coinbase.{build_split_coinbase_bin}
use datum_rs.Template.Coinbase.Layout.{with_pot}
use datum_rs.ShareRelay.Encoder.{floor_pot}
use datum_rs.Sv1.{EmitRing, emit, ring_lookup}
use datum_rs.Sv1.Emits.{ring_lookup-emit}
use datum_rs.Examples.Blocks.{template, tags}

abbrev empty_ring : EmitRing
empty_ring = record { newest = none; previous = none }

abbrev then_emitted : List ℕ → EmitRing
then_emitted second =
    emit second (build_split_coinbase_bin template tags []).0
      (build_split_coinbase_bin template tags []).2 2048
      (emit (49 ∷ []) (build_split_coinbase_bin template tags []).0
        (build_split_coinbase_bin template tags []).2 1024 empty_ring)

ring_lookup-emit_example :
    (ring_lookup (then_emitted (50 ∷ [])) (49 ∷ [])
      ≡ some (record {
        job_id = 49 ∷ [];
        patched_coinb1_bin =
            (build_split_coinbase_bin template (with_pot tags (floor_pot 1024)) []).0;
        diff = 1024;
      }))
    × (ring_lookup (then_emitted (50 ∷ [])) (50 ∷ [])
        ≡ some (record {
          job_id = 50 ∷ [];
          patched_coinb1_bin =
              (build_split_coinbase_bin template (with_pot tags (floor_pot 2048)) []).0;
          diff = 2048;
        }))
    × (ring_lookup (then_emitted (49 ∷ [])) (49 ∷ [])
        ≡ some (record {
          job_id = 49 ∷ [];
          patched_coinb1_bin =
              (build_split_coinbase_bin template (with_pot tags (floor_pot 2048)) []).0;
          diff = 2048;
        }))
ring_lookup-emit_example =
    ring_lookup-emit template tags [] (49 ∷ []) (50 ∷ []) 1024 2048 empty_ring (omega arith)
      (omega arith) refl
