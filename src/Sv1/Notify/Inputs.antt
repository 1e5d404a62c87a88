-- ===== src/Sv1/Notify/Inputs.antt =====
-- What a miner is sent and what the relay is given: crates/datum-stratum-sv1/src/assembler.rs, server.rs, and
-- crates/datum-bin/src/main.rs.
use datum_rs.Common.{
  ℕ, ◌/◌, ◌%◌, ◌^◌, ◌<◌, ◌≡◌, refl, ap, ◌∙◌, arith, Bool, List, [], ◌++◌, length, take, take_front,
  append-nil, bit_or, Option, some, ok,
}
use datum_rs.Template.State.{TemplateState}
use datum_rs.ShareRelay.{job_meta_of_state}
use datum_rs.Sv1.{patch_coinb1_bytes}
use datum_rs.Sv1.Hex.{hex_digit, hex_bytes, format_08x}
use datum_rs.Sv1.Hex.RoundTrip.{not_plus, not_x, from_digits-hex_fixed}
use datum_rs.Sv1.Connection.{Json, SubmittedShare}
use datum_rs.Sv1.Connection.Requests.{patch_coinb1_pot_byte}
use datum_rs.Sv1.Connection.Patch.{coinb1_of, patch_coinb1_pot_byte-hex_bytes}
use datum_rs.Sv1.Notify.{
  notify_from_template_state, to_json_array, parse_u32_be_hex, sv1_share_to_inputs,
}

parse_u32_be_hex-format_08x : (v : ℕ) → v < 2 ^ 32 → parse_u32_be_hex (format_08x v) ≡ some v
unfolding parse_u32_be_hex
parse_u32_be_hex-format_08x v h =
    rw
      (
        not_x (v / 16777216 % 16) (hex_digit (v / 268435456 % 16)) (omega arith),
        not_plus (v / 268435456 % 16) (omega arith),
      )
      (from_digits-hex_fixed 8 0 v (omega arith) ∙ ap some (omega arith))

-- Where the hex crate writes two lower-case digits for each byte, and JSON gives back the arrays and strings
-- that it was made from, the coinb1 that a miner is sent for a template's job at a difficulty is the
-- hexadecimal form of the template's coinb1 with the byte of that difficulty patched in, as the relay keeps
-- it.
pub to_json_array-patched :
    (json : Json) (boolean : Bool → json.Value) (hex_encode : List ℕ → List ℕ)
    (hex_decode : List ℕ → Option (List ℕ)) (job_id : List ℕ) (idx coinbase_id : ℕ)
    (state : TemplateState) (clean : Bool) (diff : ℕ)
    → ((a : List json.Value) → json.as_array (json.array a) ≡ some a)
    → ((s : List ℕ) → json.as_str (json.string s) ≡ some s)
    → ((bytes : List ℕ) → hex_encode bytes ≡ hex_bytes bytes)
    → coinb1_of json (
        patch_coinb1_pot_byte json
          (to_json_array json boolean
            (notify_from_template_state hex_encode hex_decode job_id idx coinbase_id state clean).0)
          state.target_pot_index
          diff)
      ≡ some (
          hex_bytes (
            patch_coinb1_bytes
              (notify_from_template_state hex_encode hex_decode job_id idx coinbase_id state
                clean).1.coinb1_bin
              state.target_pot_index
              diff))
unfolding to_json_array notify_from_template_state job_meta_of_state
to_json_array-patched json boolean hex_encode hex_decode job_id idx coinbase_id state clean diff a s
      h =
    patch_coinb1_pot_byte-hex_bytes json a s _ (json.string (hex_encode state.coinb1)) _
      state.coinb1 state.target_pot_index diff (a _) refl
      (rw (← h state.coinb1) (s (hex_encode state.coinb1)))

-- A share whose time and nonce are given as eight digits, and whose extranonce2 decodes to eight bytes, comes to
-- the relay with that time and nonce, with the bytes of the connection followed by those of the miner as
-- its extranonce, and with the rolled version bits added to the job's version by a bitwise or.
pub sv1_share_to_inputs-reads :
    (hex_decode : List ℕ → Option (List ℕ)) (share : SubmittedShare) (entry_version ntime nonce : ℕ)
    (extranonce2 : List ℕ)
    → share.ntime_hex ≡ format_08x ntime
    → share.nonce_hex ≡ format_08x nonce
    → hex_decode share.extranonce2_hex ≡ some extranonce2
    → length extranonce2 ≡ 8
    → ntime < 2 ^ 32
    → nonce < 2 ^ 32
    → sv1_share_to_inputs hex_decode share entry_version
      ≡ ok (record {
        username = share.username;
        extranonce = share.extranonce1 ++ extranonce2;
        ntime = ntime;
        nonce = nonce;
        version = bit_or entry_version share.version_rolling;
        current_diff = share.current_diff;
        patched_coinb1_bin = share.patched_coinb1_bin;
      })
unfolding sv1_share_to_inputs
sv1_share_to_inputs-reads hex_decode share entry_version ntime nonce xn2 t n x eight lt ln =
    rw
      (
        t,
        n,
        parse_u32_be_hex-format_08x ntime lt,
        parse_u32_be_hex-format_08x nonce ln,
        x,
        eight,
        whole,
        append-nil xn2,
      )
      refl
  where
    whole : take 8 xn2 ≡ xn2
    whole = rw (append-nil xn2) at (take_front 8 xn2 [] eight)
