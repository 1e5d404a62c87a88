-- ===== src/Sv1/Notify.antt =====
-- The job that is sent and the share that comes back for it: notify_from_template_state of
-- crates/datum-stratum-sv1/src/assembler.rs, and sv1_share_to_inputs of crates/datum-bin/src/main.rs, which
-- hands a share to the relay. The hex crate is a parameter.
pub mod Inputs
use datum_rs.Common.{
  ℕ, ◌+◌, ◌-◌, ◌≤◌, ◌&&◌, Bool, List, [], ◌∷◌, ◌++◌, length, map, min, take, replicate, bit_or,
  ◌==◌, if◌then◌else◌, Option, some, none, Result, ok, err, ◌>>=◌,
}
use mathlib.Core.List.{reverse}
use datum_rs.Template.State.{TemplateState, swap_prev_hash_for_stratum}
use datum_rs.ShareRelay.{JobMeta, job_meta_of_state}
use datum_rs.ShareRelay.Encoder.{SubmittedShareInputs}
use datum_rs.Sv1.Hex.{format_08x, from_str_radix}
use datum_rs.Sv1.Connection.{Json, SubmittedShare}

pub record NotifyParams : Type 0 where
  pub job_id : List ℕ
  pub prev_hash : List ℕ
  pub coinb1 : List ℕ
  pub coinb2 : List ℕ
  pub merkle_branch : List (List ℕ)
  pub version_hex : List ℕ
  pub nbits_hex : List ℕ
  pub ntime_hex : List ℕ
  pub clean_jobs : Bool

module _ (hex_encode : List ℕ → List ℕ) (hex_decode : List ℕ → Option (List ℕ)) where
  unfoldable pub notify_from_template_state :
      List ℕ → ℕ → ℕ → TemplateState → Bool → NotifyParams × JobMeta
  notify_from_template_state job_id datum_job_idx coinbase_id state clean_jobs = (
    record {
      job_id = job_id;
      prev_hash =
          swap_prev_hash_for_stratum hex_decode hex_encode (hex_encode (reverse state.prev_hash));
      coinb1 = hex_encode state.coinb1;
      coinb2 = hex_encode state.coinb2;
      merkle_branch = map hex_encode state.merkle_branches;
      version_hex = format_08x state.version;
      nbits_hex = hex_encode state.nbits;
      ntime_hex = format_08x state.min_ntime;
      clean_jobs = clean_jobs;
    },
    job_meta_of_state datum_job_idx coinbase_id state,
  )

-- The nine params of `mining.notify`, a Boolean given as JSON.
unfoldable pub to_json_array : (json : Json) → (Bool → json.Value) → NotifyParams → json.Value
to_json_array json boolean n = json.array (
    json.string n.job_id
    ∷ json.string n.prev_hash
    ∷ json.string n.coinb1
    ∷ json.string n.coinb2
    ∷ json.array (map json.string n.merkle_branch)
    ∷ json.string n.version_hex
    ∷ json.string n.nbits_hex
    ∷ json.string n.ntime_hex
    ∷ boolean n.clean_jobs
    ∷ [])

-- `0x` off the front, once.
abbrev pub strip_prefix_0x : List ℕ → List ℕ
strip_prefix_0x [] = []
strip_prefix_0x (a ∷ []) = a ∷ []
strip_prefix_0x (a ∷ b ∷ rest) = if (a == 48) && (b == 120) then rest else (a ∷ b ∷ rest)

unfoldable pub parse_u32_be_hex : List ℕ → Option ℕ
parse_u32_be_hex s = from_str_radix (strip_prefix_0x s)

pub data InputError : Type 0 where
  invalid_ntime : InputError
  invalid_nonce : InputError
  invalid_extranonce2 : InputError

abbrev ok_or : {A : Type 0} → Option A → InputError → Result InputError A
ok_or none e = err e
ok_or (some a) e = ok a

-- Four bytes of extranonce1, and eight of extranonce2 as far as it goes, filled up with zeros.
abbrev pub joined_extranonce : List ℕ → List ℕ → List ℕ
joined_extranonce extranonce1 extranonce2 =
    let taken = min (length extranonce2) 8 in
    extranonce1 ++ (take taken extranonce2 ++ replicate (8 - taken) 0)

unfoldable pub sv1_share_to_inputs :
    (List ℕ → Option (List ℕ)) → SubmittedShare → ℕ → Result InputError SubmittedShareInputs
sv1_share_to_inputs hex_decode share entry_version = do
  ntime ← ok_or (parse_u32_be_hex share.ntime_hex) invalid_ntime
  nonce ← ok_or (parse_u32_be_hex share.nonce_hex) invalid_nonce
  extranonce2 ← ok_or (hex_decode share.extranonce2_hex) invalid_extranonce2
  ok (record {
    username = share.username;
    extranonce = joined_extranonce share.extranonce1 extranonce2;
    ntime = ntime;
    nonce = nonce;
    version = bit_or entry_version share.version_rolling;
    current_diff = share.current_diff;
    patched_coinb1_bin = share.patched_coinb1_bin;
  })
