-- ===== src/Sv1/Connection/Requests.antt =====
-- What `handle_connection` of crates/datum-stratum-sv1/src/server.rs does with the lines of the miner.
use datum_rs.Common.{
  ℕ, ◌+◌, ◌-◌, ◌*◌, ◌/◌, ◌%◌, ◌^◌, min, bit_and, Bool, true, false, not, List, [], ◌∷◌, ◌++◌,
  length, get_elem?, set, take, drop, ltb, ◌==◌, if◌then◌else◌, Option, some, none,
}
use datum_rs.ShareRelay.Encoder.{floor_pot}
use datum_rs.Sv1.{extranonce1, EmittedJob, emit, ring_lookup}
use datum_rs.Sv1.Hex.{and_then, format_08x, hex_fixed, parse_u32_hex}
use datum_rs.Sv1.Connection.{
  Json, pool_version_mask, Extension, version_rolling, minimum_difficulty, subscribe_extranonce,
  other_extension, Method, configure, subscribe, authorize, submit, suggest_difficulty,
  other_method, malformed_configure, not_subscribed, unauthorized_worker, bad_version,
  malformed_submit, unknown_method, Negotiated, SubmittedShare, Connection, NotifyJob, Request,
  granted, extensions, Reply, subscription, Output, response, error_response, set_version_mask,
  set_difficulty, notify, forward, Watched, Settings,
}
use datum_rs.Sv1.Connection.Names.{version_rolling_mask_key, extension_of, method_of}

abbrev pub unwrap_or {ℓ} : {A : Type ℓ} → Option A → A → A
unwrap_or none d = d
unwrap_or (some a) d = a

infixl 5 ◌>>=◌
abbrev ◌>>=◌ {ℓ κ} : {A : Type ℓ} {B : Type κ} → Option A → (A → Option B) → Option B
m >>= f = and_then m f

-- `u32::to_be_bytes`.
abbrev pub to_be_bytes : ℕ → List ℕ
to_be_bytes v = v / 2 ^ 24 % 256 ∷ v / 2 ^ 16 % 256 ∷ v / 2 ^ 8 % 256 ∷ v % 256 ∷ []

abbrev pub nothing_negotiated : Negotiated
nothing_negotiated = record {
  mask = none;
  minimum_difficulty_acked = false;
  subscribe_extranonce_acked = false;
}

pub record ParsedSubmit : Type 0 where
  pub username : List ℕ
  pub job_id : List ℕ
  pub extranonce2_hex : List ℕ
  pub ntime_hex : List ℕ
  pub nonce_hex : List ℕ
  pub version_rolling_raw : Option ℕ

-- The bits that a share may carry: none is a refusal.
abbrev pub accepted_bits : Bool → ℕ → Option ℕ → Option ℕ
accepted_bits false mask raw = some 0
accepted_bits true mask none = none
accepted_bits true mask (some nv) =
    if bit_and nv (2 ^ 32 - 1 - mask) == 0 then some (bit_and nv mask) else none

unfoldable pub accepted_version : Connection → Option ℕ → Option ℕ
accepted_version c raw = accepted_bits c.version_rolling_enabled c.version_rolling_mask raw

abbrev pub share_of : Settings → Connection → ParsedSubmit → ℕ → Option EmittedJob → SubmittedShare
share_of settings c s version emitted = record {
  username = if length s.username == 0 then c.authorized_username else s.username;
  job_id = s.job_id;
  extranonce2_hex = s.extranonce2_hex;
  ntime_hex = s.ntime_hex;
  nonce_hex = s.nonce_hex;
  extranonce1 = to_be_bytes (extranonce1 settings.thread_id settings.client_id);
  version_rolling = version;
  current_diff = unwrap_or (and_then emitted (λ e. some e.diff)) c.current_diff;
  patched_coinb1_bin = and_then emitted (λ e. some e.patched_coinb1_bin);
}

-- The session id, the extranonce of the connection, and the size of the rest.
abbrev pub subscription_of : Settings → Reply
subscription_of settings =
    subscription (format_08x settings.client_id)
      (format_08x (extranonce1 settings.thread_id settings.client_id)) 8

module _ (json : Json) where
  -- The PoT byte written into the hexadecimal coinb1, the third of the params.
  unfoldable pub patch_coinb1_pot_byte : json.Value → ℕ → ℕ → json.Value
  patch_coinb1_pot_byte params target_pot_index current_diff =
      if target_pot_index == 0
      then params
      else unwrap_or
          (and_then (json.as_array params) (λ arr.
            and_then (and_then (get_elem? arr 2) json.as_str) (λ coinb1_hex.
              if ltb (length coinb1_hex) (target_pot_index * 2 + 2)
              then none
              else some (
                  json.array (
                    set arr 2 (
                      json.string (
                        take (target_pot_index * 2) coinb1_hex
                        ++ hex_fixed 2 (floor_pot current_diff)
                        ++ drop (target_pot_index * 2 + 2) coinb1_hex)))))))
          params

  -- The job that is pending, pushed onto the ring and sent.
  abbrev pub emit_pending : Option (NotifyJob json) → Connection → List (Output json) × Connection
  emit_pending none c = ([], c)
  emit_pending (some job) c = (
    notify (patch_coinb1_pot_byte job.params job.target_pot_index c.current_diff) job c.current_diff
        ∷ [],
    record c {
      emit_ring = emit job.job_id job.coinb1_bin job.target_pot_index c.current_diff c.emit_ring;
    },
  )

  abbrev pub requested_mask : Option json.Value → ℕ
  requested_mask opts =
      unwrap_or
        (and_then
          (and_then (and_then opts (λ o. json.member o version_rolling_mask_key)) json.as_str)
          parse_u32_hex)
        pool_version_mask

  abbrev pub negotiate_one :
      Option json.Value → Extension → Connection × Negotiated → Connection × Negotiated
  negotiate_one opts version_rolling (c, n) =
      let mask = bit_and (requested_mask opts) pool_version_mask in
      (
        record c { version_rolling_enabled = true; version_rolling_mask = mask },
        record n { mask = some mask },
      )
  negotiate_one opts minimum_difficulty (c, n) = (c, record n { minimum_difficulty_acked = true })
  negotiate_one opts subscribe_extranonce (c, n) =
      (c, record n { subscribe_extranonce_acked = true })
  negotiate_one opts other_extension (c, n) = (c, n)

  -- An element that is no string is passed over.
  abbrev pub negotiate_named :
      Option json.Value → Option (List ℕ) → Connection × Negotiated → Connection × Negotiated
  negotiate_named opts none s = s
  negotiate_named opts (some name) s = negotiate_one opts (extension_of name) s

  abbrev pub negotiate :
      Option json.Value → List json.Value → Connection × Negotiated → Connection × Negotiated
  negotiate opts [] s = s
  negotiate opts (ext ∷ rest) s = negotiate opts rest (negotiate_named opts (json.as_str ext) s)

  abbrev pub mask_push : Option ℕ → List (Output json)
  mask_push none = []
  mask_push (some mask) = set_version_mask (format_08x mask) ∷ []

  abbrev pub answer_configure :
      Option (List json.Value)
      → Option json.Value
      → Request json
      → Connection
      → List (Output json) × Connection
  answer_configure none opts req c = (error_response req.id malformed_configure ∷ [], c)
  answer_configure (some names) opts req c =
      let (configured, n) = negotiate opts names (c, nothing_negotiated) in
      (response req.id (extensions n) ∷ mask_push n.mask, configured)

  unfoldable pub on_configure : Request json → Connection → List (Output json) × Connection
  on_configure req c =
      let arr = json.as_array req.params in
      answer_configure (and_then (and_then arr (λ a. get_elem? a 0)) json.as_array)
        (and_then arr (λ a. get_elem? a 1)) req c

  unfoldable pub on_subscribe :
      Settings → Request json → Connection → List (Output json) × Connection
  on_subscribe settings req c = (
    response req.id (subscription_of settings) ∷ set_difficulty c.current_diff ∷ [],
    record c { subscribed = true },
  )

  abbrev pub authorized_name : Request json → Option (List ℕ)
  authorized_name req =
      and_then (and_then (json.as_array req.params) (λ a. get_elem? a 0)) json.as_str

  unfoldable pub on_authorize :
      Watched json → Request json → Connection → List (Output json) × Connection
  on_authorize watched req c =
      let named = record c {
        authorized_username = unwrap_or (authorized_name req) c.authorized_username;
        authorized = true;
      } in
      let (sent, after) = emit_pending watched.pending named in
      (response req.id granted ∷ sent, after)

  abbrev pub text_at : List json.Value → ℕ → Option (List ℕ)
  text_at arr i = and_then (get_elem? arr i) json.as_str

  unfoldable pub parse_submit_params : json.Value → Option ParsedSubmit
  parse_submit_params params = do
    arr ← json.as_array params
    long_enough ← (if ltb (length arr) 5 then none else some arr)
    username ← text_at arr 0
    job_id ← text_at arr 1
    extranonce2_hex ← text_at arr 2
    ntime_hex ← text_at arr 3
    nonce_hex ← text_at arr 4
    some (record {
      username = username;
      job_id = job_id;
      extranonce2_hex = extranonce2_hex;
      ntime_hex = ntime_hex;
      nonce_hex = nonce_hex;
      version_rolling_raw = and_then (text_at arr 5) parse_u32_hex;
    })

  abbrev pub forwarded : Settings → SubmittedShare → List (Output json)
  forwarded settings share = if settings.has_submit_tx then forward share ∷ [] else []

  -- A share with its version bits accepted: it is counted, sent on with what was emitted for its job,
  -- and acknowledged.
  abbrev pub take_share :
      Settings → Request json → ParsedSubmit → ℕ → Connection → List (Output json) × Connection
  take_share settings req s version c = (
    forwarded settings (share_of settings c s version (ring_lookup c.emit_ring s.job_id))
        ++ (response req.id granted ∷ []),
    record c { shares_since_snap = min (c.shares_since_snap + 1) (2 ^ 32 - 1) },
  )

  unfoldable pub on_submit : Settings → Request json → Connection → List (Output json) × Connection
  on_submit settings req c =
      if not c.subscribed
      then (error_response req.id not_subscribed ∷ [], c)
      else if not c.authorized
      then (error_response req.id unauthorized_worker ∷ [], c)
      else elim (parse_submit_params req.params) [
        | none ↦ (error_response req.id malformed_submit ∷ [], c)
        | some s ↦ elim (accepted_version c s.version_rolling_raw) [
          | none ↦ (error_response req.id bad_version ∷ [], c)
          | some version ↦ take_share settings req s version c
        ]
      ]

  abbrev pub dispatch :
      Method → Settings → Watched json → Request json → Connection → List (Output json) × Connection
  dispatch configure settings watched req c = on_configure req c
  dispatch subscribe settings watched req c = on_subscribe settings req c
  dispatch authorize settings watched req c = on_authorize watched req c
  dispatch submit settings watched req c = on_submit settings req c
  dispatch suggest_difficulty settings watched req c = (response req.id granted ∷ [], c)
  dispatch (other_method name) settings watched req c =
      (error_response req.id (unknown_method name) ∷ [], c)

  unfoldable pub on_request :
      Settings → Watched json → Request json → Connection → List (Output json) × Connection
  on_request settings watched req c = dispatch (method_of req.method) settings watched req c
