-- ===== src/Sv1/Connection/Versions.antt =====
-- The negotiated version bits: `mining.configure` and `mining.submit` of
-- crates/datum-stratum-sv1/src/server.rs.
use mathlib.Core.Option.{some-injective, none-ne-some}
use datum_rs.Common.{
  ℕ, ◌-◌, ◌^◌, ◌<◌, ◌≡◌, ◌↔◌, inl, inr, refl, ap, arith, bit_and, true, false, Bool-cases, [], ◌∷◌,
  ◌==◌, some,
}
use datum_rs.Common.Bits.{bit_and_complement}
use datum_rs.Sv1.Hex.{format_08x}
use datum_rs.Sv1.Hex.RoundTrip.{parse_u32_hex-format_08x}
use datum_rs.Sv1.Connection.{
  Json, pool_version_mask, Connection, Request, extensions, response, set_version_mask,
}
use datum_rs.Sv1.Connection.Names.{version_rolling_key, version_rolling_mask_key}
use datum_rs.Sv1.Connection.Requests.{accepted_bits, accepted_version, on_configure}

-- With a mask negotiated, the bits are accepted exactly when they lie within it, and then as they are.
accepted_bits_iff :
    (mask nv : ℕ)
    → mask < 2 ^ 32
    → nv < 2 ^ 32
    → (accepted_bits true mask (some nv) ≡ some nv) ↔ (bit_and nv mask ≡ nv)
accepted_bits_iff mask nv m h = elim (Bool-cases (bit_and nv (2 ^ 32 - 1 - mask) == 0)) [
  | inl is ↦ ((λ e. some-injective (bit_and nv mask) nv (rw is at e)), (λ e. rw is (ap some e)))
  | inr off ↦ (
    (λ e. absurd (none-ne-some nv (rw off at e))),
    (λ e. absurd (grind (arith, off, e, bit_and_complement 32 nv mask h m))),
  )
]

module _ (json : Json) where
  -- A request for version rolling alone, with a 32-bit mask: the answer and the message after it name the
  -- mask restricted to the bits that the pool allows, and from then on the version bits of a share are
  -- accepted as they are exactly when they lie within that restricted mask.
  pub on_configure-accepted_version :
      (req : Request json) (c : Connection) (names opts ext mask_value : json.Value) (mask nv : ℕ)
      → json.as_array req.params ≡ some (names ∷ opts ∷ [])
      → json.as_array names ≡ some (ext ∷ [])
      → json.as_str ext ≡ some version_rolling_key
      → json.member opts version_rolling_mask_key ≡ some mask_value
      → json.as_str mask_value ≡ some (format_08x mask)
      → mask < 2 ^ 32
      → nv < 2 ^ 32
      → ((on_configure json req c).0
          ≡ response req.id (
              extensions (record {
                mask = some (bit_and mask pool_version_mask);
                minimum_difficulty_acked = false;
                subscribe_extranonce_acked = false;
              }))
            ∷ set_version_mask (format_08x (bit_and mask pool_version_mask))
            ∷ [])
        × ((accepted_version (on_configure json req c).1 (some nv) ≡ some nv)
            ↔ (bit_and nv (bit_and mask pool_version_mask) ≡ nv))
  unfolding on_configure accepted_version
  on_configure-accepted_version req c names opts ext mask_value mask nv a b d e f m n =
      rw (a, b, d, e, f, parse_u32_hex-format_08x mask m)
        (
          refl,
          accepted_bits_iff (bit_and mask pool_version_mask) nv
              (omega (arith, m, bit_and_complement 32 mask pool_version_mask m (omega arith))) n,
        )
