-- ===== src/Sv2/Shares/Acceptance.antt =====
-- Which shares of an Extended channel are accepted, and which of them are blocks: validate_extended_share of
-- crates/datum-stratum-sv2/src/share_path.rs.
use datum_rs.Common.{
  ℕ, ◌+◌, ◌-◌, ◌*◌, ◌/◌, ◌%◌, ◌^◌, ◌≤◌, ◌≡◌, ◌≢◌, ◌↔◌, ◌⊎◌, inl, inr, refl, sym, ap, ◌∙◌, arith,
  Bool, true, false, List, ◌++◌, length, leb, ◌==◌, ==_iff, Bool-cases, All, IsByte, bit_and,
  from_le_bytes, to_le_bytes, some, Option-cases,
}
use mathlib.Core.List.{reverse}
use mathlib.Core.Bool.{false≢true}
use mathlib.Core.Option.{none-ne-some}
use datum_rs.Common.Bits.{bit_and_shifted, bit_and_mask}
use datum_rs.ShareRelay.{JobMeta}
use datum_rs.ShareRelay.Jobs.{
  JobKey, JobEntry, JobTracker, lookup, cross_protocol_coinbase_already_seen,
}
use datum_rs.ShareRelay.Target.{hash_meets_target-leb}
use datum_rs.ShareRelay.Encoder.{
  ShareUserConfig, SubmittedShareInputs, share_header, is_block, compute_merkle_root,
  patched_coinb1,
}
use datum_rs.ShareRelay.Relay.{
  ShareOutcome, valid, block_found, rejected, RejectCode, tracker_after,
}
use datum_rs.Sv2.Shares.{
  SubmitShares, Channel, full_extranonce, full_extranonce-twelve, rolls_version, share_inputs,
  accepted, validate_extended_share, validate_extended_share-cases,
}

abbrev pub IsAccepted : ShareOutcome → Type 0
IsAccepted (valid body) = Unit
IsAccepted (block_found body payload) = Unit
IsAccepted (rejected code) = ⊥

abbrev pub IsBlockFound : ShareOutcome → Type 0
IsBlockFound (valid body) = ⊥
IsBlockFound (block_found body payload) = Unit
IsBlockFound (rejected code) = ⊥

-- The bits 13 to 28 are those that miners may roll.
rolls_version_iff :
    (allowed : Bool) (version : ℕ)
    → (rolls_version allowed version ≡ false) ↔ ((allowed ≡ true) ⊎ (version / 2 ^ 13 % 2 ^ 16 ≡ 0))
rolls_version_iff true version = (λ e. inl refl, λ h. refl)
rolls_version_iff false version = (
  λ e. inr (omega (arith, masked, (==_iff (bit_and version 0x1FFFE000) 0).0 (ground (arith, e)))),
  λ h. elim h [
    | inl e ↦ absurd (false≢true e)
    | inr e ↦ rw ((==_iff (bit_and version 0x1FFFE000) 0).1 (omega (arith, masked, e))) refl
  ],
)
  where
    masked : bit_and version 0x1FFFE000 ≡ version / 2 ^ 13 % 2 ^ 16 * 2 ^ 13
    masked =
        bit_and_shifted 13 version (2 ^ 16 - 1)
        ∙ ap (λ (t : ℕ). t * 2 ^ 13) (bit_and_mask 16 (version / 2 ^ 13))

-- The targets of the tracked jobs have 32 bytes.
abbrev pub HasTargets : JobTracker → Type 0
HasTargets t =
    (key : JobKey) (entry : JobEntry)
    → lookup key t.by_key ≡ some entry
    → (length entry.meta.block_target ≡ 32) × All IsByte entry.meta.block_target

-- What a share needs to be accepted: the extranonce size of its channel, no rolled version bit where the
-- channel may not roll them, and a job that is tracked.
abbrev pub Passes : Channel → SubmitShares → JobTracker → JobEntry → Type 0
Passes channel share t entry =
    (length share.extranonce ≡ channel.extranonce_size)
    × ((channel.version_rolling_allowed ≡ true) ⊎ (share.version / 2 ^ 13 % 2 ^ 16 ≡ 0))
    × (lookup channel.job_key t.by_key ≡ some entry)

module _ (double_sha256 hex_encode : List ℕ → List ℕ) (user_cfg : ShareUserConfig) where
  -- The header that the share claims work for.
  abbrev pub claimed_header : Channel → SubmitShares → JobMeta → List ℕ
  claimed_header channel share meta =
      to_le_bytes 4 share.version
      ++ (meta.prevhash_bin
          ++ (compute_merkle_root double_sha256
                (patched_coinb1
                  (share_inputs channel share (channel.extranonce_prefix ++ share.extranonce)) meta)
                (channel.extranonce_prefix ++ share.extranonce) meta.coinb2_bin
                meta.merkle_branches_bin
              ++ (to_le_bytes 4 share.ntime
                  ++ (reverse meta.nbits_bin ++ to_le_bytes 4 share.nonce))))

  -- What an outcome has to be.
  abbrev pub IsRight : Channel → SubmitShares → JobTracker → ShareOutcome × JobTracker → Type 0
  IsRight channel share t (outcome, t') =
      (IsAccepted outcome ↔ ((entry : JobEntry) × Passes channel share t entry))
      × (IsBlockFound outcome ↔ (
          (entry : JobEntry) × Passes channel share t entry
          × (from_le_bytes (double_sha256 (claimed_header channel share entry.meta))
              ≤ from_le_bytes entry.meta.block_target)))
      × (IsAccepted outcome ⊎ (t' ≡ t))

  refused-IsRight :
      (channel : Channel) (share : SubmitShares) (t : JobTracker) (code : RejectCode)
      (r : ShareOutcome × JobTracker)
      → ((entry : JobEntry) → Passes channel share t entry → ⊥)
      → r ≡ (rejected code, t)
      → IsRight channel share t r
  refused-IsRight channel share t code r never e = rw e (
    (λ h. elim h [ ], λ (entry, h). elim (never entry h) [ ]),
    (λ h. elim h [ ], λ (entry, h, k). elim (never entry h) [ ]),
    inr refl,
  )

  accepted_iff :
      (inputs : SubmittedShareInputs) (entry : JobEntry) (seen : Bool) (rb : ℕ) (b : Bool)
      → is_block double_sha256 inputs entry.meta ≡ b
      → IsAccepted (accepted double_sha256 hex_encode user_cfg inputs entry seen rb)
        × (IsBlockFound (accepted double_sha256 hex_encode user_cfg inputs entry seen rb)
            ↔ (b ≡ true))
  accepted_iff inputs entry seen rb true e = rw e (tt, (λ h. refl, λ h. tt))
  accepted_iff inputs entry seen rb false e =
      rw e (tt, (λ h. elim h [ ], λ h. absurd (false≢true h)))

  same_entry :
      (key : JobKey) (t : JobTracker) (a b : JobEntry)
      → lookup key t.by_key ≡ some a
      → lookup key t.by_key ≡ some b
      → a ≡ b
  same_entry key t a b p q = cc

  accepted-IsRight :
      (channel : Channel) (share : SubmitShares) (t t' : JobTracker) (entry : JobEntry)
      (seen : Bool) (rb : ℕ) (inputs : SubmittedShareInputs)
      → Passes channel share t entry
      → (is_block double_sha256 inputs entry.meta ≡ true) ↔ (
          from_le_bytes (double_sha256 (claimed_header channel share entry.meta))
          ≤ from_le_bytes entry.meta.block_target)
      → IsRight channel share t
          (accepted double_sha256 hex_encode user_cfg inputs entry seen rb, t')
  accepted-IsRight channel share t t' entry seen rb inputs pass hit =
      let (taken, found) =
        accepted_iff inputs entry seen rb (is_block double_sha256 inputs entry.meta) refl in
      (
        (λ h. (entry, pass), λ h. taken),
        (
          λ h. (entry, pass, hit.0 (found.0 h)),
          λ (other, (n, v, l), k).
              found.1 (hit.1 (rw (same_entry channel.job_key t other entry l pass.2) at k)),
        ),
        inl taken,
      )

  module _
      (hashes : (m : List ℕ) → (length (double_sha256 m) ≡ 32) × All IsByte (double_sha256 m)) where
    is_block_iff :
        (channel : Channel) (share : SubmitShares) (meta : JobMeta)
        → length channel.extranonce_prefix + length share.extranonce ≡ 12
        → length meta.block_target ≡ 32
        → All IsByte meta.block_target
        → (is_block double_sha256
              (share_inputs channel share
                (full_extranonce channel.extranonce_prefix share.extranonce))
              meta
            ≡ true)
          ↔ (from_le_bytes (double_sha256 (claimed_header channel share meta))
              ≤ from_le_bytes meta.block_target)
    unfolding is_block share_header share_inputs
    is_block_iff channel share meta twelve long bytes =
        rw
          (
            (full_extranonce-twelve channel.extranonce_prefix share.extranonce).1 twelve,
            hash_meets_target-leb (double_sha256 (claimed_header channel share meta))
                meta.block_target (hashes (claimed_header channel share meta)).1 bytes
                (hashes (claimed_header channel share meta)).0 long,
          )
          (leb_iff (from_le_bytes (double_sha256 (claimed_header channel share meta)))
            (from_le_bytes meta.block_target))
      where
        leb_iff : (a b : ℕ) → (leb a b ≡ true) ↔ (a ≤ b)
        leb_iff a b = ground arith

    passing-IsRight :
        (channel : Channel) (share : SubmitShares) (rb : ℕ) (t : JobTracker) (entry : JobEntry)
        → length channel.extranonce_prefix + channel.extranonce_size ≡ 12
        → HasTargets t
        → Passes channel share t entry
        → IsRight channel share t
            (validate_extended_share double_sha256 hex_encode user_cfg channel share rb t)
    passing-IsRight channel share rb t entry twelve targets (n, v, l) =
        let (long, bytes) = targets channel.job_key entry l in
        rw
          ((validate_extended_share-cases double_sha256 hex_encode user_cfg channel share rb t).3
            entry n ((rolls_version_iff channel.version_rolling_allowed share.version).1 v) l)
          (accepted-IsRight channel share t
            (tracker_after channel.job_key channel.template_seed entry t) entry
            (cross_protocol_coinbase_already_seen channel.template_seed entry.meta.coinbase_id t) rb
            (share_inputs channel share
              (full_extranonce channel.extranonce_prefix share.extranonce))
            (n, v, l) (is_block_iff channel share entry.meta (omega (arith, n, twelve)) long bytes))

    -- For a hash of 32 bytes, tracked targets of 32 bytes, and a channel whose prefix and extranonce make
    -- twelve bytes: a share of an Extended channel is accepted exactly when its extranonce has the
    -- channel's size, it sets none of the version bits 13 to 28 that its channel may not roll, and its
    -- job is tracked, whatever its hash and whatever the channel's target; it is a block exactly when,
    -- besides, the number that its header's hash spells is at most the number that the job's network
    -- target spells, the header being the one of its version, times, nonce and its channel's prefix and
    -- extranonce. A share that is not accepted leaves the tracker as it was.
    pub validate_extended_share_iff :
        (channel : Channel) (share : SubmitShares) (rb : ℕ) (t : JobTracker)
        → length channel.extranonce_prefix + channel.extranonce_size ≡ 12
        → HasTargets t
        → (IsAccepted
              (validate_extended_share double_sha256 hex_encode user_cfg channel share rb t).0
            ↔ ((entry : JobEntry) × Passes channel share t entry))
          × (IsBlockFound
                (validate_extended_share double_sha256 hex_encode user_cfg channel share rb t).0
              ↔ ((entry : JobEntry) × Passes channel share t entry
                  × (from_le_bytes (double_sha256 (claimed_header channel share entry.meta))
                      ≤ from_le_bytes entry.meta.block_target)))
          × (IsAccepted
                (validate_extended_share double_sha256 hex_encode user_cfg channel share rb t).0
              ⊎ ((validate_extended_share double_sha256 hex_encode user_cfg channel share rb t).1
                  ≡ t))
    validate_extended_share_iff channel share rb t twelve targets =
        let (size, version, job, fine) =
          validate_extended_share-cases double_sha256 hex_encode user_cfg channel share rb t in
        elim (Bool-cases (length share.extranonce == channel.extranonce_size)) [
          | inr other ↦
              let off : length share.extranonce ≢ channel.extranonce_size =
                λ e. false≢true (sym other ∙ (==_iff _ _).1 e) in
              refused-IsRight channel share t _ _ (λ entry (n, v, l). off n) (size off)
          | inl same ↦
              let n : length share.extranonce ≡ channel.extranonce_size = (==_iff _ _).0 same in
              elim (Bool-cases (rolls_version channel.version_rolling_allowed share.version)) [
                | inl rolls ↦
                    refused-IsRight channel share t _ _
                      (λ entry (m, v, l). false≢true (
                        sym ((rolls_version_iff channel.version_rolling_allowed share.version).1 v)
                        ∙ rolls))
                      (version n rolls)
                | inr still ↦ elim (Option-cases (lookup channel.job_key t.by_key)) [
                  | inl gone ↦
                      refused-IsRight channel share t _ _
                        (λ entry (m, v, l). none-ne-some entry (sym gone ∙ l)) (job n still gone)
                  | inr (entry, l) ↦ passing-IsRight channel share rb t entry twelve targets (
                    n,
                    (rolls_version_iff channel.version_rolling_allowed share.version).0 still,
                    l,
                  )
                ]
              ]
        ]
