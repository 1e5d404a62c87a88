-- ===== src/Sv2/Targets.antt =====
-- diff_to_target_le and the clamping of targets: crates/datum-stratum-sv2/src/share_path.rs and
-- channel_manager.rs. Targets are 32 bytes, little-endian.
use native.Mathlib.Nat.{div-le_self}
use datum_rs.Common.{
  ℕ, zero, suc, ◌-◌, ◌*◌, ◌/◌, ◌^◌, ◌≤◌, ◌<◌, ◌≡◌, ◌⊎◌, inl, inr, refl, arith, Bool, true, false,
  Bool-cases, List, ◌++◌, length, replicate, get_or, leb, ltb, ◌==◌, if◌then◌else◌, to_le_bytes,
  from_le_bytes, from_le_bytes-append, from_le_bytes-to_le_bytes, All, IsByte, Result, ok, ◌>>◌,
  fail_if, not,
}
use datum_rs.ShareRelay.Target.{meets_below, hash_meets_target, hash_meets_target-leb}

abbrev pub max_top : ℕ
max_top = 0xFFFF0000 * 2 ^ 64

unfoldable pub diff_to_target_le : ℕ → List ℕ
diff_to_target_le diff =
    if diff == 0 then replicate 32 0xFF else replicate 16 0 ++ to_le_bytes 16 (max_top / diff)

-- From byte `i` down: the limit where the proposed target is above it.
unfoldable pub clamp_below : ℕ → List ℕ → List ℕ → List ℕ
clamp_below zero proposed limit = proposed
clamp_below (suc i) proposed limit =
    let rest = clamp_below i proposed limit in
    if ltb (get_or limit i 0) (get_or proposed i 0)
    then limit
    else if ltb (get_or proposed i 0) (get_or limit i 0)
    then proposed
    else rest

unfoldable pub clamp_target_to_min_hashrate_le : List ℕ → List ℕ → List ℕ
clamp_target_to_min_hashrate_le proposed_le min_target_le = clamp_below 32 proposed_le min_target_le

unfoldable pub clamp_target_to_channel_max : List ℕ → List ℕ → List ℕ
clamp_target_to_channel_max proposed_le max_target_le = clamp_below 32 proposed_le max_target_le

pub data UpdateError : Type 0 where
  invalid_nominal_hashrate : UpdateError
  invalid_channel_id : UpdateError

-- `UpdateChannel`, with the checks on its floating-point hash rate as an answer: finite, positive and at
-- least the threshold. The answer is the channel's new target.
unfoldable pub handle_update_channel : Bool → List ℕ → List ℕ → Result UpdateError (List ℕ)
handle_update_channel hash_rate_accepted maximum_target min_target_le = do
  fail_if (not hash_rate_accepted) invalid_nominal_hashrate
  fail_if (not (length maximum_target == 32)) invalid_channel_id
  ok (clamp_target_to_min_hashrate_le maximum_target min_target_le)

clamp_below-meets :
    (i : ℕ) (proposed limit : List ℕ)
    → clamp_below i proposed limit ≡ (if meets_below i proposed limit then proposed else limit)
unfolding clamp_below meets_below
clamp_below-meets zero proposed limit = refl
clamp_below-meets (suc i) proposed limit = ground (arith, clamp_below-meets i proposed limit)

clamp-cases :
    (proposed limit : List ℕ) (b : Bool)
    → b ≡ leb (from_le_bytes proposed) (from_le_bytes limit)
    → (from_le_bytes (if b then proposed else limit) ≤ from_le_bytes limit)
      × (from_le_bytes (if b then proposed else limit) ≤ from_le_bytes proposed)
      × (((if b then proposed else limit) ≡ proposed) ⊎ ((if b then proposed else limit) ≡ limit))
clamp-cases proposed limit true e = (ground (arith, e), omega arith, inl refl)
clamp-cases proposed limit false e = (omega arith, ground (arith, e), inr refl)

-- Of two targets of 32 bytes, either clamp gives the one that is the smaller number: it is never above
-- the limit nor above the proposed target, and it is one of the two.
pub clamp-smaller :
    (proposed limit : List ℕ)
    → All IsByte proposed
    → All IsByte limit
    → length proposed ≡ 32
    → length limit ≡ 32
    → (clamp_target_to_channel_max proposed limit ≡ clamp_target_to_min_hashrate_le proposed limit)
      × (from_le_bytes (clamp_target_to_min_hashrate_le proposed limit) ≤ from_le_bytes limit)
      × (from_le_bytes (clamp_target_to_min_hashrate_le proposed limit) ≤ from_le_bytes proposed)
      × ((clamp_target_to_min_hashrate_le proposed limit ≡ proposed)
          ⊎ (clamp_target_to_min_hashrate_le proposed limit ≡ limit))
unfolding clamp_target_to_min_hashrate_le clamp_target_to_channel_max hash_meets_target
clamp-smaller proposed limit pb lb pl ll =
    let (below, under, one) = clamped in (refl, below, under, one)
  where
    clamped :
        (from_le_bytes (clamp_below 32 proposed limit) ≤ from_le_bytes limit)
        × (from_le_bytes (clamp_below 32 proposed limit) ≤ from_le_bytes proposed)
        × ((clamp_below 32 proposed limit ≡ proposed) ⊎ (clamp_below 32 proposed limit ≡ limit))
    clamped = rw (clamp_below-meets 32 proposed limit) (
        clamp-cases proposed limit (meets_below 32 proposed limit)
          (hash_meets_target-leb proposed limit pb lb pl ll))

-- A channel's new target is never above the policy's, whatever the client asks for; the request is
-- refused exactly when its hash rate is, or its target is not of 32 bytes.
pub handle_update_channel-policy :
    (hash_rate_accepted : Bool) (maximum_target min_target_le : List ℕ)
    → All IsByte maximum_target
    → All IsByte min_target_le
    → length min_target_le ≡ 32
    → ((t : List ℕ)
        → handle_update_channel hash_rate_accepted maximum_target min_target_le ≡ ok t
        → (from_le_bytes t ≤ from_le_bytes min_target_le)
          × (hash_rate_accepted ≡ true)
          × (length maximum_target ≡ 32))
      × (hash_rate_accepted ≡ true
          → length maximum_target ≡ 32
          → handle_update_channel hash_rate_accepted maximum_target min_target_le
            ≡ ok (clamp_target_to_min_hashrate_le maximum_target min_target_le))
unfolding handle_update_channel
handle_update_channel-policy a m l mb lb ll =
    (λ t e. granted t e (Bool-cases a) (Bool-cases (length m == 32)), λ h n. rw (h, n) refl)
  where
    granted :
        (t : List ℕ)
        → handle_update_channel a m l ≡ ok t
        → (a ≡ true) ⊎ (a ≡ false)
        → ((length m == 32) ≡ true) ⊎ ((length m == 32) ≡ false)
        → (from_le_bytes t ≤ from_le_bytes l) × (a ≡ true) × (length m ≡ 32)
    granted t e (inl h) (inl n) = (
      ground (arith, e, h, n, clamp-smaller m l mb lb (ground (arith, n)) ll),
      h,
      ground (arith, n),
    )
    granted t e (inl h) (inr n) = ground (arith, e, h, n)
    granted t e (inr h) n = ground (arith, e, h)

-- A difficulty of 1 to 2^64 - 1 stands for the difficulty-one target, 0xFFFF * 2^208, divided by it,
-- with the low 128 bits cleared; difficulty 0 for all ones.
pub diff_to_target_le-value :
    (diff : ℕ)
    → (0 < diff → from_le_bytes (diff_to_target_le diff) ≡ 0xFFFF0000 * 2 ^ 64 / diff * 2 ^ 128)
      × (diff ≡ 0 → from_le_bytes (diff_to_target_le diff) ≡ 2 ^ 256 - 1)
unfolding diff_to_target_le from_le_bytes
diff_to_target_le-value diff = (
  λ pos.
      rw
        (
          nonzero pos,
          from_le_bytes-append (replicate 16 0) (to_le_bytes 16 (0xFFFF0000 * 2 ^ 64 / diff)),
          from_le_bytes-to_le_bytes 16 (0xFFFF0000 * 2 ^ 64 / diff) fits,
        )
        (omega arith),
  λ z. rw z refl,
)
  where
    nonzero : 0 < diff → (diff == 0) ≡ false
    nonzero pos = ground (arith, pos)

    fits : 0xFFFF0000 * 2 ^ 64 / diff < 256 ^ 16
    fits = omega (arith, div-le_self (0xFFFF0000 * 2 ^ 64) diff)
