-- ===== src/Examples/Connections.antt =====
-- crates/datum-stratum-sv1: a connection from its subscription to a share, at concrete inputs.
use datum_rs.Common.{
  ℕ, ◌^◌, ◌≡◌, ◌↔◌, refl, arith, bit_and, bit_or, Bool, true, false, List, [], ◌∷◌, if◌then◌else◌,
  Option, some, none, ok,
}
use datum_rs.ShareRelay.Jobs.{same_bytes}
use datum_rs.Sv2.Vardiff.{VardiffParams}
use datum_rs.Sv1.{patch_coinb1_bytes}
use datum_rs.Sv1.Hex.{hex_bytes, format_08x, and_then}
use datum_rs.Sv1.Connection.{
  Json, pool_version_mask, Connection, new_connection, SubmittedShare, NotifyJob, Request,
  extensions, response, set_version_mask, Event, request_line, timer, Watched, Settings,
}
use datum_rs.Sv1.Connection.Names.{
  version_rolling_key, version_rolling_mask_key, configure_name, subscribe_name, authorize_name,
  submit_name,
}
use datum_rs.Sv1.Connection.Requests.{accepted_version, on_configure, patch_coinb1_pot_byte}
use datum_rs.Sv1.Connection.Steps.{handle_connection}
use datum_rs.Sv1.Connection.Trace.{Trace}
use datum_rs.Sv1.Connection.Trace.Shares.{Backed, handle_connection-Backed}
use datum_rs.Sv1.Connection.Trace.Difficulty.{Announced, handle_connection-Announced}
use datum_rs.Sv1.Connection.Answers.{answers, handle_connection-answers}
use datum_rs.Sv1.Connection.Versions.{on_configure-accepted_version}
use datum_rs.Sv1.Connection.Patch.{coinb1_of}
use datum_rs.Sv1.Notify.{notify_from_template_state, to_json_array, sv1_share_to_inputs}
use datum_rs.Sv1.Notify.Inputs.{to_json_array-patched, sv1_share_to_inputs-reads}
use datum_rs.Examples.Channels.{state}

-- JSON with strings, arrays, and objects of one member.
pub data Doc : Type 0 where
  null : Doc
  text : List ℕ → Doc
  nil : Doc
  cons : Doc → Doc → Doc
  entry : List ℕ → Doc → Doc

abbrev elements : Doc → Option (List Doc)
elements null = none
elements (text s) = none
elements nil = some []
elements (cons d ds) = and_then (elements ds) (λ rest. some (d ∷ rest))
elements (entry k d) = none

abbrev as_text : Doc → Option (List ℕ)
as_text null = none
as_text (text s) = some s
as_text nil = none
as_text (cons d ds) = none
as_text (entry k d) = none

abbrev member_of : Doc → List ℕ → Option Doc
member_of null key = none
member_of (text s) key = none
member_of nil key = none
member_of (cons d ds) key = none
member_of (entry k d) key = if same_bytes k key then some d else none

abbrev doc_of : List Doc → Doc
doc_of [] = nil
doc_of (d ∷ ds) = cons d (doc_of ds)

abbrev pub docs : Json
docs = record {
  Value = Doc;
  null = null;
  as_array = elements;
  as_str = as_text;
  member = member_of;
  string = text;
  array = doc_of;
}

elements-doc_of : (ds : List Doc) → elements (doc_of ds) ≡ some ds
elements-doc_of [] = refl
elements-doc_of (d ∷ ds) = rw (elements-doc_of ds) refl

abbrev vardiff : VardiffParams
vardiff = record { target_shares_min = 8; recheck_secs = 30; min_diff = 1; max_diff = 2 ^ 40 }

abbrev settings : Settings
settings = record { thread_id = 0; client_id = 1; vardiff = vardiff; has_submit_tx = true }

abbrev job : NotifyJob docs
job = record {
  params = doc_of (text (49 ∷ []) ∷ nil ∷ text (hex_bytes (1 ∷ 2 ∷ 3 ∷ [])) ∷ []);
  target_pot_index = 1;
  coinb1_bin = 1 ∷ 2 ∷ 3 ∷ [];
  job_id = 49 ∷ [];
}

abbrev watched : Watched docs
watched = record { pending = some job; pool_min = 16 }

abbrev asking : List ℕ → List Doc → Request docs
asking name params = record { id = text (55 ∷ []); method = name; params = doc_of params }

abbrev submitted_params : List Doc
submitted_params =
    text (117 ∷ [])
    ∷ text (49 ∷ [])
    ∷ text (hex_bytes (1 ∷ 2 ∷ 3 ∷ 4 ∷ 5 ∷ 6 ∷ 7 ∷ 8 ∷ []))
    ∷ text (format_08x 1700000000)
    ∷ text (format_08x 5)
    ∷ []

abbrev events : List (Watched docs × Event docs)
events =
    (watched, request_line (asking subscribe_name []))
    ∷ (watched, request_line (asking authorize_name (text (117 ∷ []) ∷ [])))
    ∷ (watched, request_line (asking submit_name submitted_params))
    ∷ (watched, timer 60)
    ∷ []

handle_connection-Backed_example :
    Trace docs (Backed docs) [] (handle_connection docs settings 8 events)
handle_connection-Backed_example = handle_connection-Backed docs settings 8 events

handle_connection-Announced_example :
    Trace docs (Announced docs 1) [] (handle_connection docs settings 8 events)
handle_connection-Announced_example = handle_connection-Announced docs settings 8 events

handle_connection-answers_example :
    answers docs (handle_connection docs settings 8 events)
    ≡ text (55 ∷ []) ∷ text (55 ∷ []) ∷ text (55 ∷ []) ∷ []
handle_connection-answers_example = handle_connection-answers docs settings 8 events

abbrev configuring : Request docs
configuring = asking configure_name (
    cons (text version_rolling_key) nil
    ∷ entry version_rolling_mask_key (text (format_08x 0x00ffe000))
    ∷ [])

abbrev fresh : Connection
fresh = new_connection vardiff 8

on_configure-accepted_version_example :
    ((on_configure docs configuring fresh).0
      ≡ response (text (55 ∷ [])) (
          extensions (record {
            mask = some (bit_and 0x00ffe000 pool_version_mask);
            minimum_difficulty_acked = false;
            subscribe_extranonce_acked = false;
          }))
        ∷ set_version_mask (format_08x (bit_and 0x00ffe000 pool_version_mask))
        ∷ [])
    × ((accepted_version (on_configure docs configuring fresh).1 (some 0x00002000)
          ≡ some 0x00002000)
        ↔ (bit_and 0x00002000 (bit_and 0x00ffe000 pool_version_mask) ≡ 0x00002000))
on_configure-accepted_version_example =
    on_configure-accepted_version docs configuring fresh (cons (text version_rolling_key) nil)
      (entry version_rolling_mask_key (text (format_08x 0x00ffe000))) (text version_rolling_key)
      (text (format_08x 0x00ffe000)) 0x00ffe000 0x00002000 refl refl refl refl refl (omega arith)
      (omega arith)

abbrev pub flag : Bool → Doc
flag true = text (49 ∷ [])
flag false = nil

to_json_array-patched_example :
    coinb1_of docs (
      patch_coinb1_pot_byte docs
        (to_json_array docs flag
          (notify_from_template_state hex_bytes (λ s. none) (49 ∷ []) 0 0 state true).0)
        2
        1024)
    ≡ some (
        hex_bytes (
          patch_coinb1_bytes
            (notify_from_template_state hex_bytes (λ s. none) (49 ∷ []) 0 0 state true).1.coinb1_bin
            2
            1024))
to_json_array-patched_example =
    to_json_array-patched docs flag hex_bytes (λ s. none) (49 ∷ []) 0 0 state true 1024
      elements-doc_of (λ s. refl) (λ bytes. refl)

abbrev share : SubmittedShare
share = record {
  username = 117 ∷ [];
  job_id = 49 ∷ [];
  extranonce2_hex = hex_bytes (1 ∷ 2 ∷ 3 ∷ 4 ∷ 5 ∷ 6 ∷ 7 ∷ 8 ∷ []);
  ntime_hex = format_08x 1700000000;
  nonce_hex = format_08x 5;
  extranonce1 = 9 ∷ 9 ∷ 9 ∷ 9 ∷ [];
  version_rolling = 0x2000;
  current_diff = 1024;
  patched_coinb1_bin = none;
}

sv1_share_to_inputs-reads_example :
    sv1_share_to_inputs (λ s. some (1 ∷ 2 ∷ 3 ∷ 4 ∷ 5 ∷ 6 ∷ 7 ∷ 8 ∷ [])) share 0x20000000
    ≡ ok (record {
      username = 117 ∷ [];
      extranonce = 9 ∷ 9 ∷ 9 ∷ 9 ∷ 1 ∷ 2 ∷ 3 ∷ 4 ∷ 5 ∷ 6 ∷ 7 ∷ 8 ∷ [];
      ntime = 1700000000;
      nonce = 5;
      version = bit_or 0x20000000 0x2000;
      current_diff = 1024;
      patched_coinb1_bin = none;
    })
sv1_share_to_inputs-reads_example =
    sv1_share_to_inputs-reads (λ s. some (1 ∷ 2 ∷ 3 ∷ 4 ∷ 5 ∷ 6 ∷ 7 ∷ 8 ∷ [])) share 0x20000000
      1700000000 5 (1 ∷ 2 ∷ 3 ∷ 4 ∷ 5 ∷ 6 ∷ 7 ∷ 8 ∷ []) refl refl refl refl (omega arith)
      (omega arith)
