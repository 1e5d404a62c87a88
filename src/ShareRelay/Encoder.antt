-- ===== src/ShareRelay/Encoder.antt =====
-- crates/datum-share-relay/src/share_encoder.rs: the body of a share and the block it may have found.
-- The double SHA-256 and the hex encoder are third-party code: parameters. The padding byte is what
-- the code's global generator gives.
pub mod Header
use datum_rs.Common.{
  ℕ, zero, suc, ◌+◌, ◌-◌, ◌*◌, ◌/◌, ◌%◌, ◌^◌, Bool, true, false, ◌&&◌, ◌||◌, not, List, [], ◌∷◌,
  ◌++◌, map, length, replicate, take, get_or, set, leb, ltb, ◌==◌, if◌then◌else◌, Option, some,
  none, to_le_bytes, bit_xor,
}
use mathlib.Core.List.{reverse}
use datum_rs.Protocol.Messages.{ShareSubmissionPrefix, encode_share_prefix}
use datum_rs.ShareRelay.{JobMeta}
use datum_rs.ShareRelay.Jobs.{JobEntry}
use datum_rs.ShareRelay.Target.{hash_meets_target}

pub record ShareUserConfig : Type 0 where
  pub pool_address : List ℕ
  pub pass_full_users : Bool
  pub pass_workers : Bool

pub record SubmittedShareInputs : Type 0 where
  pub username : List ℕ
  pub extranonce : List ℕ
  pub ntime : ℕ
  pub nonce : ℕ
  pub version : ℕ
  pub current_diff : ℕ
  pub patched_coinb1_bin : Option (List ℕ)

pub record BlockSubmissionPayload : Type 0 where
  pub block_hex : List ℕ
  pub block_hash_hex : List ℕ

pub record ShareEncoded : Type 0 where
  pub body : List ℕ
  pub block_submission : Option BlockSubmissionPayload

-- `63 - x.leading_zeros()`, the base two logarithm rounded down.
unfoldable pub log2_below : ℕ → ℕ → ℕ
log2_below zero x = 0
log2_below (suc k) x = let rest = log2_below k x in if leb (2 ^ suc k) x then suc k else rest

unfoldable pub floor_pot : ℕ → ℕ
floor_pot x = if x == 0 then 0 else log2_below 63 x

abbrev pub starts_with_dot : List ℕ → Bool
starts_with_dot [] = false
starts_with_dot (b ∷ bs) = b == 0x2E

abbrev pub is_empty {ℓ} : {A : Type ℓ} → List A → Bool
is_empty [] = true
is_empty (x ∷ xs) = false

unfoldable pub format_share_username : List ℕ → ShareUserConfig → List ℕ
format_share_username miner_user cfg = take 384 (
    if (not cfg.pass_full_users && not cfg.pass_workers) || is_empty miner_user
    then cfg.pool_address
    else if cfg.pass_full_users && not (starts_with_dot miner_user)
    then miner_user
    else if cfg.pass_full_users || cfg.pass_workers
    then cfg.pool_address ++ ((if starts_with_dot miner_user then [] else 0x2E ∷ []) ++ miner_user)
    else cfg.pool_address)

-- The byte at the index overwritten, where the index is in range.
abbrev pub patch_pot : ℕ → List ℕ → ℕ → List ℕ
patch_pot pot_index coinb1 target_byte =
    if ltb pot_index (length coinb1) then set coinb1 pot_index target_byte else coinb1

unfoldable pub patched_coinb1 : SubmittedShareInputs → JobMeta → List ℕ
patched_coinb1 share meta = elim share.patched_coinb1_bin [
  | some b ↦ b
  | none ↦ patch_pot meta.target_pot_index meta.coinb1_bin (floor_pot share.current_diff)
]

-- The sub-block 0x01, sent once for a job.
unfoldable pub merkle_section : JobEntry → List ℕ
merkle_section entry =
    if entry.server_has_merkle_branches
    then []
    else 0x01
      ∷ (entry.meta.prevhash_bin
          ++ (to_le_bytes 2 entry.meta.target_pot_index
              ++ (reverse entry.meta.nbits_bin
                  ++ (entry.meta.datum_coinbaser_id
                      ∷ (to_le_bytes 4 entry.meta.height
                          ++ (to_le_bytes 8 entry.meta.coinbase_value
                              ++ (to_le_bytes 4 entry.meta.txn_count
                                  ++ (to_le_bytes 4 entry.meta.txn_total_weight
                                      ++ (to_le_bytes 4 entry.meta.txn_total_size
                                          ++ (to_le_bytes 4 entry.meta.txn_total_sigops
                                              ++ (length entry.meta.merkle_branches_bin % 2 ^ 8
                                                  ∷ concat_reversed
                                                      entry.meta.merkle_branches_bin)))))))))))
  where
    concat_reversed : List (List ℕ) → List ℕ
    concat_reversed [] = []
    concat_reversed (b ∷ bs) = reverse b ++ concat_reversed bs

abbrev pub flag_of : List Bool → ℕ → Bool
flag_of flags i = get_or flags i false

-- Whether the sub-block 0x02 is sent: neither the job's flag nor the tracker's says it has been.
unfoldable pub sends_coinbase : JobEntry → Bool → Bool
sends_coinbase entry already_seen =
    not (flag_of entry.server_has_coinbase entry.meta.coinbase_id) && not already_seen

unfoldable pub coinbase_section : JobMeta → List ℕ
coinbase_section meta =
    0x02
    ∷ meta.coinbase_id
    ∷ (to_le_bytes 2 (length meta.coinb1_bin % 2 ^ 16)
        ++ (to_le_bytes 2 (length meta.coinb2_bin % 2 ^ 16)
            ++ (meta.coinb1_bin ++ meta.coinb2_bin)))

-- The job with the flags that the share sets.
unfoldable pub flagged : JobEntry → Bool → JobEntry
flagged entry already_seen = record {
  meta = entry.meta;
  template_seed = entry.template_seed;
  server_has_merkle_branches = true;
  server_has_coinbase =
      (if sends_coinbase entry already_seen
        then set entry.server_has_coinbase entry.meta.coinbase_id true
        else entry.server_has_coinbase);
}

-- A step of the padding generator on its 64-bit state; the byte is the low one of the new state.
unfoldable pub padding_step : ℕ → ℕ
padding_step x =
    let x1 = bit_xor x (x * 2 ^ 13 % 2 ^ 64) in
    let x2 = bit_xor x1 (x1 / 2 ^ 7) in bit_xor x2 (x2 * 2 ^ 17 % 2 ^ 64)

abbrev pub padding : ℕ → List ℕ
padding rb = replicate (1 + rb % 80) rb

module _ (double_sha256 : List ℕ → List ℕ) where
  unfoldable pub fold_siblings : List ℕ → List (List ℕ) → List ℕ
  fold_siblings acc [] = acc
  fold_siblings acc (sib ∷ branches) = fold_siblings (double_sha256 (acc ++ reverse sib)) branches

  unfoldable pub compute_merkle_root : List ℕ → List ℕ → List ℕ → List (List ℕ) → List ℕ
  compute_merkle_root coinb1_patched extranonce coinb2 branches =
      fold_siblings (double_sha256 (coinb1_patched ++ (extranonce ++ coinb2))) branches

  -- The block header of the share.
  unfoldable pub share_header : SubmittedShareInputs → JobMeta → List ℕ
  share_header share meta =
      to_le_bytes 4 share.version
      ++ (meta.prevhash_bin
          ++ (compute_merkle_root (patched_coinb1 share meta) share.extranonce meta.coinb2_bin
                meta.merkle_branches_bin
              ++ (to_le_bytes 4 share.ntime
                  ++ (reverse meta.nbits_bin ++ to_le_bytes 4 share.nonce))))

  unfoldable pub is_block : SubmittedShareInputs → JobMeta → Bool
  is_block share meta =
      hash_meets_target (double_sha256 (share_header share meta)) meta.block_target

  unfoldable pub share_prefix : SubmittedShareInputs → JobMeta → ShareSubmissionPrefix
  share_prefix share meta = record {
    job_id = meta.datum_job_idx;
    coinbase_id = meta.coinbase_id;
    flags = (if is_block share meta then 1 else 0);
    target_byte = floor_pot share.current_diff;
    ntime = share.ntime;
    nonce = share.nonce;
    version = share.version;
    extranonce = share.extranonce;
  }

  -- The body, `rb` being the padding byte.
  unfoldable pub share_body : SubmittedShareInputs → JobEntry → ShareUserConfig → Bool → ℕ → List ℕ
  share_body share entry user_cfg already_seen rb =
      encode_share_prefix (share_prefix share entry.meta)
      ++ (format_share_username share.username user_cfg
          ++ (0
              ∷ (replicate 4 0
                  ++ (merkle_section entry
                      ++ ((if sends_coinbase entry already_seen
                            then coinbase_section entry.meta
                            else [])
                          ++ (0xFE ∷ padding rb))))))

  module _ (hex_encode : List ℕ → List ℕ) where
    unfoldable pub push_varint_hex : ℕ → List ℕ
    push_varint_hex v =
        if ltb v 0xFD
        then hex_encode ((v % 2 ^ 8) ∷ [])
        else if leb v 0xFFFF
        then hex_encode (0xFD ∷ []) ++ hex_encode ((v % 2 ^ 8) ∷ (v / 2 ^ 8 % 2 ^ 8) ∷ [])
        else if leb v 0xFFFFFFFF
        then hex_encode (0xFE ∷ []) ++ hex_encode (to_le_bytes 4 (v % 2 ^ 32))
        else hex_encode (0xFF ∷ []) ++ hex_encode (to_le_bytes 8 v)

    abbrev pub concat : List (List ℕ) → List ℕ
    concat [] = []
    concat (s ∷ ss) = s ++ concat ss

    unfoldable pub block_payload : SubmittedShareInputs → JobMeta → BlockSubmissionPayload
    block_payload share meta = record {
      block_hex =
          hex_encode (share_header share meta)
          ++ (push_varint_hex (meta.txn_count + 1)
              ++ (hex_encode (patched_coinb1 share meta ++ (share.extranonce ++ meta.coinb2_bin))
                  ++ concat meta.txn_data_hex));
      block_hash_hex = hex_encode (reverse (double_sha256 (share_header share meta)));
    }

    -- The share encoded, and the job as it is left. The code's error arm is never taken.
    unfoldable pub build_share_submission :
        SubmittedShareInputs → JobEntry → ShareUserConfig → Bool → ℕ → ShareEncoded × JobEntry
    build_share_submission share entry user_cfg already_seen rb = (
      record {
        body = share_body share entry user_cfg already_seen rb;
        block_submission =
            (if is_block share entry.meta then some (block_payload share entry.meta) else none);
      },
      flagged entry already_seen,
    )
