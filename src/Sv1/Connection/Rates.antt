-- ===== src/Sv1/Connection/Rates.antt =====
-- The difficulty of the two servers: the timer of crates/datum-stratum-sv1/src/server.rs and
-- VardiffState::maybe_step of crates/datum-stratum-sv2/src/share_path.rs.
use datum_rs.Common.{ℕ, ◌≤◌, ◌≡◌, refl, arith}
use datum_rs.Sv2.Vardiff.{VardiffParams, expected_shares, stepped_diff, maybe_step}
use datum_rs.Sv1.Connection.{Connection}
use datum_rs.Sv1.Connection.Steps.{floor_of, rated_diff}

-- Where the pool asks for no more than the configured minimum, an SV1 connection steps to the difficulty
-- that an SV2 channel with the same settings, difficulty and count of shares steps to.
pub rated_diff-maybe_step :
    (vardiff : VardiffParams) (pool_min elapsed_secs : ℕ) (c : Connection)
    → pool_min ≤ vardiff.min_diff
    → rated_diff vardiff pool_min elapsed_secs c
      ≡ (maybe_step
          (record {
            params = vardiff;
            current_diff = c.current_diff;
            shares_since_snap = c.shares_since_snap;
          })
          elapsed_secs).1.current_diff
unfolding rated_diff maybe_step stepped_diff expected_shares
rated_diff-maybe_step vardiff pool_min elapsed_secs c h = rw floor refl
  where
    floor : floor_of vardiff pool_min ≡ vardiff.min_diff
    floor = omega arith
