-- ===== src/Sv2/Vardiff.antt =====
-- VardiffState of crates/datum-stratum-sv2/src/share_path.rs. The clock is what the caller reads: the
-- whole seconds since the last snapshot.
use datum_rs.Common.{
  ℕ, ◌+◌, ◌-◌, ◌*◌, ◌/◌, ◌%◌, ◌^◌, ◌≤◌, ◌<◌, ◌≡◌, ◌≢◌, ◌⊎◌, min, max, arith, ◌&&◌, if◌then◌else◌,
  leb, ltb, ◌==◌, Option, some, none,
}

pub record VardiffParams : Type 0 where
  pub target_shares_min : ℕ
  pub recheck_secs : ℕ
  pub min_diff : ℕ
  pub max_diff : ℕ

pub record VardiffState : Type 0 where
  pub params : VardiffParams
  pub current_diff : ℕ
  pub shares_since_snap : ℕ

unfoldable pub new_vardiff : VardiffParams → ℕ → VardiffState
new_vardiff params initial_diff = record {
  params = params;
  current_diff = max initial_diff params.min_diff;
  shares_since_snap = 0;
}

unfoldable pub record_share : VardiffState → VardiffState
record_share v = record {
  params = v.params;
  current_diff = v.current_diff;
  shares_since_snap = min (v.shares_since_snap + 1) (2 ^ 32 - 1);
}

abbrev pub saturating_double : ℕ → ℕ
saturating_double x = min (x * 2) (2 ^ 64 - 1)

-- The shares that the time since the last snapshot should have brought, rounded up.
unfoldable pub expected_shares : VardiffParams → ℕ → ℕ
expected_shares params elapsed_secs =
    max ((params.target_shares_min * max elapsed_secs 1 % 2 ^ 64 + 59) / 60) 1

unfoldable pub stepped_diff : VardiffState → ℕ → ℕ
stepped_diff v elapsed_secs =
    let expected = expected_shares v.params elapsed_secs in
    let observed = v.shares_since_snap in
    max
      (if leb 16 observed && ltb (saturating_double expected) observed
        then min (saturating_double v.current_diff) v.params.max_diff
        else if ltb (saturating_double observed) expected && leb v.params.recheck_secs elapsed_secs
        then max (v.current_diff / 2) v.params.min_diff
        else v.current_diff)
      v.params.min_diff

-- The difficulty to announce, where it changed, and the state after it.
unfoldable pub maybe_step : VardiffState → ℕ → Option ℕ × VardiffState
maybe_step v elapsed_secs =
    let new_diff = stepped_diff v elapsed_secs in
    (
      if new_diff == v.current_diff then none else some new_diff,
      record { params = v.params; current_diff = new_diff; shares_since_snap = 0 },
    )

-- With a difficulty between the minimum and the maximum, a 64-bit number, a step keeps the difficulty between
-- them, at most doubles it and at least halves it, starts the share count anew, and announces the new
-- difficulty when it is not the old one, and only then.
pub maybe_step-bounds :
    (v : VardiffState) (elapsed_secs : ℕ)
    → v.params.min_diff ≤ v.current_diff
    → v.current_diff ≤ v.params.max_diff
    → v.params.max_diff < 2 ^ 64
    → (v.params.min_diff ≤ (maybe_step v elapsed_secs).1.current_diff)
      × ((maybe_step v elapsed_secs).1.current_diff ≤ v.params.max_diff)
      × ((maybe_step v elapsed_secs).1.current_diff ≤ 2 * v.current_diff)
      × (v.current_diff ≤ 2 * (maybe_step v elapsed_secs).1.current_diff + 1)
      × ((maybe_step v elapsed_secs).1.shares_since_snap ≡ 0)
      × (((maybe_step v elapsed_secs).0 ≡ none)
            × ((maybe_step v elapsed_secs).1.current_diff ≡ v.current_diff)
          ⊎ ((maybe_step v elapsed_secs).0 ≡ some (maybe_step v elapsed_secs).1.current_diff)
            × ((maybe_step v elapsed_secs).1.current_diff ≢ v.current_diff))
unfolding maybe_step stepped_diff
maybe_step-bounds v elapsed_secs lo hi w = ground (arith, lo, hi, w)
