-- ===== src/Sv1/Connection.antt =====
-- The data of one connection of crates/datum-stratum-sv1/src/server.rs: what arrives, what is kept, what is
-- sent. JSON (serde_json) is a parameter: the values with the queries that the source makes of them.
pub mod Names
pub mod Answers
pub mod Cases
pub mod Rates
pub mod Versions
pub mod Patch
pub mod Requests
pub mod Steps
pub mod Trace
use datum_rs.Common.{ℕ, ◌-◌, ◌*◌, ◌%◌, ◌^◌, max, Bool, true, false, List, [], Option, some, none}
use datum_rs.Sv2.Vardiff.{VardiffParams}
use datum_rs.Sv1.{EmitRing}

-- `as_array`, `as_str`, the member of an object under a key (`as_object` and `get`), and
-- `Value::String`.
pub record Json : Type 1 where
  pub Value : Type 0
  pub null : Value
  pub as_array : Value → Option (List Value)
  pub as_str : Value → Option (List ℕ)
  pub member : Value → List ℕ → Option Value
  pub string : List ℕ → Value
  pub array : List Value → Value

-- The bits of nVersion that the pool lets the miner roll.
abbrev pub pool_version_mask : ℕ
pool_version_mask = 0x1fffe000

-- The extensions that `mining.configure` answers; any other name is ignored.
pub data Extension : Type 0 where
  version_rolling : Extension
  minimum_difficulty : Extension
  subscribe_extranonce : Extension
  other_extension : Extension

pub data Method : Type 0 where
  configure : Method
  subscribe : Method
  authorize : Method
  submit : Method
  suggest_difficulty : Method
  other_method : (name : List ℕ) → Method

-- What is said in an error response, by its text; `code` is the number with it.
pub data Complaint : Type 0 where
  parse_error : Complaint
  malformed_configure : Complaint
  not_subscribed : Complaint
  unauthorized_worker : Complaint
  bad_version : Complaint
  malformed_submit : Complaint
  unknown_method : (name : List ℕ) → Complaint

-- The members of the object that answers `mining.configure`.
pub record Negotiated : Type 0 where
  pub mask : Option ℕ
  pub minimum_difficulty_acked : Bool
  pub subscribe_extranonce_acked : Bool

pub record SubmittedShare : Type 0 where
  pub username : List ℕ
  pub job_id : List ℕ
  pub extranonce2_hex : List ℕ
  pub ntime_hex : List ℕ
  pub nonce_hex : List ℕ
  pub extranonce1 : List ℕ
  pub version_rolling : ℕ
  pub current_diff : ℕ
  pub patched_coinb1_bin : Option (List ℕ)

-- The state of the connection task; `pool_min_rx` says whether the receiver is still held.
pub record Connection : Type 0 where
  pub subscribed : Bool
  pub authorized : Bool
  pub authorized_username : List ℕ
  pub version_rolling_enabled : Bool
  pub version_rolling_mask : ℕ
  pub current_diff : ℕ
  pub shares_since_snap : ℕ
  pub emit_ring : EmitRing
  pub pool_min_rx : Bool

unfoldable pub new_connection : VardiffParams → ℕ → Connection
new_connection vardiff pool_min = record {
  subscribed = false;
  authorized = false;
  authorized_username = [];
  version_rolling_enabled = false;
  version_rolling_mask = 0;
  current_diff = max vardiff.min_diff pool_min;
  shares_since_snap = 0;
  emit_ring = record { newest = none; previous = none };
  pool_min_rx = true;
}

pub data Reply : Type 0 where
  granted : Reply
  extensions : Negotiated → Reply
  subscription : (session_id xn1_hex : List ℕ) (extranonce2_size : ℕ) → Reply

module _ (json : Json) where
  pub record NotifyJob : Type 0 where
    pub params : json.Value
    pub target_pot_index : ℕ
    pub coinb1_bin : List ℕ
    pub job_id : List ℕ

  pub record Request : Type 0 where
    pub id : json.Value
    pub method : List ℕ
    pub params : json.Value

  -- What leaves the task, in order: lines for the miner, and shares for the runtime (`submit_tx`). A
  -- notification carries its params as they are sent, and keeps the job and the difficulty that they
  -- were made from.
  pub data Output : Type 0 where
    response : (id : json.Value) → Reply → Output
    error_response : (id : json.Value) → Complaint → Output
    set_version_mask : (mask_hex : List ℕ) → Output
    set_difficulty : (diff : ℕ) → Output
    notify : (params : json.Value) (job : NotifyJob) (diff : ℕ) → Output
    forward : SubmittedShare → Output

  -- What the arms of the loop wait for.
  pub data Event : Type 0 where
    blank_line : Event
    unparsed_line : Event
    request_line : Request → Event
    peer_closed : Event
    notify_changed : Event
    notify_dropped : Event
    pool_min_changed : Event
    pool_min_dropped : Event
    timer : (elapsed_secs : ℕ) → Event

  -- What the watch channels hold when an event is handled.
  pub record Watched : Type 0 where
    pub pending : Option NotifyJob
    pub pool_min : ℕ

-- What a connection is started with: its place among the clients, and the vardiff settings.
pub record Settings : Type 0 where
  pub thread_id : ℕ
  pub client_id : ℕ
  pub vardiff : VardiffParams
  pub has_submit_tx : Bool
