-- ===== src/Protocol/Messages.antt =====
-- crates/datum-protocol/src/messages.rs: the bodies of the messages after the handshake.
pub mod RoundTrip
pub mod Config
pub mod Refusals
use datum_rs.Common.{
  ℕ, ◌+◌, ◌-◌, ◌%◌, ◌^◌, ◌||◌, not, List, [], ◌∷◌, ◌++◌, length, get_or, slice, leb, ltb, ◌==◌,
  if◌then◌else◌, to_le_bytes, from_le_bytes, Result, ok, err, ◌>>=◌, ◌>>◌, fail_if,
}

abbrev pub coinbaser_fetch_opcode : ℕ
coinbaser_fetch_opcode = 0x10

abbrev pub coinbaser_response_opcode : ℕ
coinbaser_response_opcode = 0x11

abbrev pub client_config_opcode : ℕ
client_config_opcode = 0x99

abbrev pub share_response_opcode : ℕ
share_response_opcode = 0x8f

abbrev pub job_validation_opcode : ℕ
job_validation_opcode = 0x50

abbrev pub share_accepted : ℕ
share_accepted = 0x50

abbrev pub share_accepted_tentatively : ℕ
share_accepted_tentatively = 0x55

abbrev pub share_rejected : ℕ
share_rejected = 0x66

abbrev pub share_submission_prefix_len : ℕ
share_submission_prefix_len = 30

-- Each number as the variant's field of that name.
pub data MessageError : Type 0 where
  too_short : (got need : ℕ) → MessageError
  bad_sub_opcode : (got expected : ℕ) → MessageError
  bad_share_status : ℕ → MessageError
  bad_config_version : ℕ → MessageError
  missing_config_trailer : MessageError
  bad_coinbaser_length : (blob_len trailing : ℕ) → MessageError
  bad_extranonce_length : ℕ → MessageError

-- `body[i]`, read only inside the body.
abbrev pub byte_at : List ℕ → ℕ → ℕ
byte_at body i = get_or body i 0

-- A little-endian word of `n` bytes at `i`.
abbrev pub word_at : List ℕ → ℕ → ℕ → ℕ
word_at body i n = from_le_bytes (slice body i n)

pub data ShareStatus : Type 0 where
  accepted accepted_tentatively rejected : ShareStatus

pub record ShareResponse : Type 0 where
  pub status : ShareStatus
  pub reject_reason : ℕ
  pub nonce : ℕ
  pub target_pot : ℕ
  pub job_id : ℕ

unfoldable pub share_status : ℕ → Result MessageError ShareStatus
share_status b =
    if b == share_accepted
    then ok accepted
    else if b == share_accepted_tentatively
    then ok accepted_tentatively
    else if b == share_rejected
    then ok rejected
    else err (bad_share_status b)

unfoldable pub decode_share_response : List ℕ → Result MessageError ShareResponse
decode_share_response body = do
  fail_if (ltb (length body) 9) (too_short (length body) 9)
  status ← share_status (byte_at body 0)
  ok (record {
    status = status;
    reject_reason = word_at body 1 2;
    nonce = word_at body 3 4;
    target_pot = byte_at body 7;
    job_id = byte_at body 8;
  })

pub record CoinbaserResponse : Type 0 where
  pub coinbase_value : ℕ
  pub v2_blob : List ℕ

-- `len() as u32` wraps.
unfoldable pub encode_coinbaser_response : CoinbaserResponse → List ℕ
encode_coinbaser_response r =
    to_le_bytes 8 r.coinbase_value ++ (to_le_bytes 4 (length r.v2_blob % 2 ^ 32) ++ r.v2_blob)

unfoldable pub decode_coinbaser_response : List ℕ → Result MessageError CoinbaserResponse
decode_coinbaser_response body = do
  fail_if (ltb (length body) 12) (too_short (length body) 12)
  let blob_len = word_at body 8 4
  let trailing = length body - 12
  fail_if (not (leb 1 blob_len) || (ltb 32767 blob_len || ltb trailing blob_len))
      (bad_coinbaser_length blob_len trailing)
  ok (record { coinbase_value = word_at body 0 8; v2_blob = slice body 12 blob_len })

pub record ClientConfig : Type 0 where
  pub pool_scriptsig : List ℕ
  pub prime_id : ℕ
  pub pool_coinbase_tag : List ℕ
  pub vardiff_min : ℕ

-- `len() as u8` wraps.
unfoldable pub encode_client_config : ClientConfig → List ℕ
encode_client_config c =
    1
    ∷ ((length c.pool_scriptsig % 256)
        ∷ (c.pool_scriptsig
            ++ (to_le_bytes 4 c.prime_id
                ++ ((length c.pool_coinbase_tag % 256)
                    ∷ (c.pool_coinbase_tag
                        ++ (to_le_bytes 8 c.vardiff_min ++ (0 ∷ (0xfe ∷ []))))))))

-- `i` is the read position; every read is behind a check that it lies inside the body.
unfoldable pub decode_client_config : List ℕ → Result MessageError ClientConfig
decode_client_config body = do
  let len = length body
  fail_if (len == 0) (too_short 0 1)
  fail_if (not (byte_at body 0 == 1)) (bad_config_version (byte_at body 0))
  fail_if (leb len 1) (too_short len 2)
  let scriptsig_len = byte_at body 1
  let i1 = 2 + scriptsig_len
  fail_if (ltb len i1) (too_short len i1)
  let pool_scriptsig = slice body 2 scriptsig_len
  fail_if (ltb len (i1 + 4)) (too_short len (i1 + 4))
  let prime_id = word_at body i1 4
  let i2 = i1 + 4
  fail_if (leb len i2) (too_short len (i2 + 1))
  let tag_len = byte_at body i2
  let i3 = i2 + 1 + tag_len
  fail_if (ltb len i3) (too_short len i3)
  let pool_coinbase_tag = slice body (i2 + 1) tag_len
  fail_if (ltb len (i3 + 8)) (too_short len (i3 + 8))
  let vardiff_min = word_at body i3 8
  let i4 = i3 + 8
  fail_if (ltb len (i4 + 2)) (too_short len (i4 + 2))
  fail_if (not (byte_at body i4 == 0) || not (byte_at body (i4 + 1) == 0xfe)) missing_config_trailer
  ok (record {
    pool_scriptsig = pool_scriptsig;
    prime_id = prime_id;
    pool_coinbase_tag = pool_coinbase_tag;
    vardiff_min = vardiff_min;
  })

-- `extranonce` is an array of 12 bytes.
pub record ShareSubmissionPrefix : Type 0 where
  pub job_id : ℕ
  pub coinbase_id : ℕ
  pub flags : ℕ
  pub target_byte : ℕ
  pub ntime : ℕ
  pub nonce : ℕ
  pub version : ℕ
  pub extranonce : List ℕ

unfoldable pub encode_share_prefix : ShareSubmissionPrefix → List ℕ
encode_share_prefix p =
    0x27
    ∷ (p.job_id
        ∷ (p.coinbase_id
            ∷ (p.flags
                ∷ (p.target_byte
                    ∷ (to_le_bytes 4 p.ntime
                        ++ (to_le_bytes 4 p.nonce
                            ++ (to_le_bytes 4 p.version ++ (12 ∷ p.extranonce))))))))

unfoldable pub decode_share_prefix : List ℕ → Result MessageError ShareSubmissionPrefix
decode_share_prefix body = do
  fail_if (ltb (length body) share_submission_prefix_len)
      (too_short (length body) share_submission_prefix_len)
  fail_if (not (byte_at body 0 == 0x27)) (bad_sub_opcode (byte_at body 0) 0x27)
  fail_if (not (byte_at body 17 == 12)) (bad_extranonce_length (byte_at body 17))
  ok (record {
    job_id = byte_at body 1;
    coinbase_id = byte_at body 2;
    flags = byte_at body 3;
    target_byte = byte_at body 4;
    ntime = word_at body 5 4;
    nonce = word_at body 9 4;
    version = word_at body 13 4;
    extranonce = slice body 18 12;
  })

pub data JobValidationCmd : Type 0 where
  stxids_list stxids_list_by_id serialized_block : JobValidationCmd

unfoldable pub opcode : JobValidationCmd → ℕ
opcode stxids_list = 0x10
opcode stxids_list_by_id = 0x11
opcode serialized_block = 0x12

unfoldable pub decode_job_validation : List ℕ → Result MessageError JobValidationCmd
decode_job_validation [] = err (too_short 0 1)
decode_job_validation (b ∷ bs) =
    if b == 0x10
    then ok stxids_list
    else if b == 0x11
    then ok stxids_list_by_id
    else if b == 0x12
    then ok serialized_block
    else err (bad_sub_opcode b 0x10)

-- A coinbaser fetch has no content; `decode` tells whether the body is one.
unfoldable pub encode_coinbaser_fetch : List ℕ
encode_coinbaser_fetch = coinbaser_fetch_opcode ∷ []

unfoldable pub decode_coinbaser_fetch : List ℕ → Result MessageError (Unit {0})
decode_coinbaser_fetch [] = err (too_short 0 1)
decode_coinbaser_fetch (b ∷ bs) =
    if not (b == coinbaser_fetch_opcode)
    then err (bad_sub_opcode b coinbaser_fetch_opcode)
    else ok tt
