-- ===== src/Sv1/Connection/Cases.antt =====
-- The ways through `mining.configure` and `mining.submit` of crates/datum-stratum-sv1/src/server.rs.
use datum_rs.Common.{
  ℕ, ◌≡◌, refl, bit_and, Bool, true, false, not, List, [], ◌∷◌, Option, some, none, get_elem?,
  if◌then◌else◌,
}
use datum_rs.Sv1.Connection.{
  Json, pool_version_mask, Extension, version_rolling, minimum_difficulty, subscribe_extranonce,
  other_extension, Complaint, malformed_configure, not_subscribed, unauthorized_worker, bad_version,
  malformed_submit, Negotiated, Connection, Request, extensions, Output, response, error_response,
  Settings,
}
use datum_rs.Sv1.Hex.{and_then}
use datum_rs.Sv1.Connection.Names.{extension_of}
use datum_rs.Sv1.Connection.Requests.{
  nothing_negotiated, negotiate_named, answer_configure, ParsedSubmit, accepted_version,
  negotiate_one, negotiate, mask_push, on_configure, parse_submit_params, take_share, on_submit,
}

module _ (json : Json) where
  -- What a negotiated mask keeps, a whole negotiation keeps.
  module _ (P : Connection → Type 0)
      (masked : (c : Connection) (m : ℕ)
        → P c
        → P (record c {
          version_rolling_enabled = true;
          version_rolling_mask = bit_and m pool_version_mask;
        })) where
    negotiate_one-keeps :
        (opts : Option json.Value) (ext : Extension) (c : Connection) (n : Negotiated)
        → P c
        → P (negotiate_one json opts ext (c, n)).0
    negotiate_one-keeps opts version_rolling c n h = masked c _ h
    negotiate_one-keeps opts minimum_difficulty c n h = h
    negotiate_one-keeps opts subscribe_extranonce c n h = h
    negotiate_one-keeps opts other_extension c n h = h

    negotiate-keeps :
        (opts : Option json.Value) (names : List json.Value) (s : Connection × Negotiated)
        → P s.0
        → P (negotiate json opts names s).0
    negotiate-keeps opts [] s h = h
    negotiate-keeps opts (ext ∷ rest) (c, n) h =
        negotiate-keeps opts rest (negotiate_named json opts (json.as_str ext) (c, n))
          (by_name (json.as_str ext))
      where
        by_name : (name : Option (List ℕ)) → P (negotiate_named json opts name (c, n)).0
        by_name none = h
        by_name (some name) = negotiate_one-keeps opts (extension_of name) c n h

    pub on_configure-cases :
        (req : Request json) (c : Connection) (Q : List (Output json) × Connection → Type 0)
        → P c
        → Q (error_response req.id malformed_configure ∷ [], c)
        → ((n : Negotiated) (configured : Connection)
            → P configured
            → Q (response req.id (extensions n) ∷ mask_push json n.mask, configured))
        → Q (on_configure json req c)
    unfolding on_configure
    on_configure-cases req c Q h refused answered =
        answer (and_then (and_then (json.as_array req.params) (λ a. get_elem? a 0)) json.as_array)
          (and_then (json.as_array req.params) (λ a. get_elem? a 1))
      where
        answer :
            (names : Option (List json.Value)) (opts : Option json.Value)
            → Q (answer_configure json names opts req c)
        answer none opts = refused
        answer (some names) opts =
            answered (negotiate json opts names (c, nothing_negotiated)).1
              (negotiate json opts names (c, nothing_negotiated)).0
              (negotiate-keeps opts names (c, nothing_negotiated) h)

  pub on_submit-cases :
      (settings : Settings) (req : Request json) (c : Connection)
      (Q : List (Output json) × Connection → Type 0)
      → ((complaint : Complaint) → Q (error_response req.id complaint ∷ [], c))
      → ((s : ParsedSubmit) (version : ℕ)
          → c.subscribed ≡ true
          → c.authorized ≡ true
          → accepted_version c s.version_rolling_raw ≡ some version
          → Q (take_share json settings req s version c))
      → Q (on_submit json settings req c)
  unfolding on_submit
  on_submit-cases settings req c Q refused taken =
      go c.subscribed c.authorized refl refl (parse_submit_params json req.params)
    where
      versioned :
          (s : ParsedSubmit) (v : Option ℕ)
          → c.subscribed ≡ true
          → c.authorized ≡ true
          → accepted_version c s.version_rolling_raw ≡ v
          → Q (elim v [
            | none ↦ (error_response req.id bad_version ∷ [], c)
            | some version ↦ take_share json settings req s version c
          ])
      versioned s none on known e = refused bad_version
      versioned s (some version) on known e = taken s version on known e

      go :
          (on known : Bool)
          → c.subscribed ≡ on
          → c.authorized ≡ known
          → (parsed : Option ParsedSubmit)
          → Q (
              if not on
              then (error_response req.id not_subscribed ∷ [], c)
              else if not known
              then (error_response req.id unauthorized_worker ∷ [], c)
              else elim parsed [
                | none ↦ (error_response req.id malformed_submit ∷ [], c)
                | some s ↦ elim (accepted_version c s.version_rolling_raw) [
                  | none ↦ (error_response req.id bad_version ∷ [], c)
                  | some version ↦ take_share json settings req s version c
                ]
              ])
      go false known e f parsed = refused not_subscribed
      go true false e f parsed = refused unauthorized_worker
      go true true e f none = refused malformed_submit
      go true true e f (some s) = versioned s (accepted_version c s.version_rolling_raw) e f refl
