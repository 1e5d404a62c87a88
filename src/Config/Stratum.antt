-- ===== src/Config/Stratum.antt =====
-- What the credentials and the Stratum settings have to be: crates/datum-config/src/validate.rs.
use mathlib.Core.Bool.{true≢false}
use mathlib.Core.List.{cons≢nil}
use datum_rs.Common.{
  ℕ, ◌^◌, ◌≤◌, ◌≡◌, ◌↔◌, refl, arith, Bool, true, false, not, ◌&&◌, List, [], ◌∷◌, ltb, All, ◌<◌,
  ◌⊎◌, inl, inr,
}
use datum_rs.Config.{Config, ValidationError}
use datum_rs.Config.Floats.{
  Float, sum, minus_units, one_units, tolerance_units, IsNearZero, IsNearZero-iff,
}
use datum_rs.Config.Integers.{pos, ◌≤ℤ◌, less_iff, ◌*ℤ◌}
use datum_rs.Config.Validate.{
  is_empty, is_power_of_two, complain, complain_first, validate_bitcoind, validate_modifiers,
  validate_stratum,
}
use datum_rs.Config.Conditions.{
  HasText, IsWithin, IsPowerOfTwo, outside_iff, then_iff, both_iff, unless_iff, not_iff, power_iff,
}

complain_iff : (b : Bool) (e : ValidationError) → (complain b e ≡ []) ↔ (b ≡ false)
complain_iff true e = (λ q. absurd (cons≢nil q), λ q. absurd (true≢false q))
complain_iff false e = (λ q. refl, λ q. refl)

pub complain_for :
    {P : Type 0} (b : Bool) (e : ValidationError) → (b ≡ false) ↔ P → (complain b e ≡ []) ↔ P
complain_for b e f = then_iff (complain_iff b e) f

pub complain_first_for :
    {P Q : Type 0} (a : Bool) (e : ValidationError) (b : Bool) (f : ValidationError)
    → (a ≡ false) ↔ P
    → (b ≡ false) ↔ Q
    → (complain_first a e b f ≡ []) ↔ (P × Q)
complain_first_for true e b f p q = (λ h. absurd (cons≢nil h), λ h. absurd (true≢false (p.1 h.0)))
complain_first_for false e b f p q =
    (λ h. (p.0 refl, q.0 ((complain_iff b f).0 h)), λ h. (complain_iff b f).1 (q.1 h.1))

-- The conditions on each section, in the order of their checks.
abbrev pub IsBitcoind : Config → Type 0
IsBitcoind c =
    ((HasText c.bitcoind.rpccookiefile ⊎ HasText c.bitcoind.rpcpassword)
      × (HasText c.bitcoind.rpcuser → HasText c.bitcoind.rpcpassword))
    × (HasText c.bitcoind.rpcurl × IsWithin 5 120 c.bitcoind.work_update_seconds)

-- No cookie file, user or password is a complaint, and so is a user without a password.
credentials_iff :
    (cookie user pass : Bool)
    → (((cookie && (user && pass)) ≡ false) × (not user ≡ true → pass ≡ false))
      ↔ ((cookie ≡ false ⊎ pass ≡ false) × (user ≡ false → pass ≡ false))
credentials_iff false true true = (λ h. (inl refl, λ e. cc), λ h. (refl, λ e. cc))
credentials_iff false false true = (λ h. (inl refl, λ e. h.1 refl), λ h. (refl, λ e. h.1 refl))
credentials_iff false user false = (λ h. (inl refl, λ e. refl), λ h. (refl, λ e. refl))
credentials_iff true true true =
    (λ h. absurd (true≢false h.0), λ h. elim h.0 [ inl e ↦ (e, λ q. cc) | inr e ↦ (e, λ q. cc) ])
credentials_iff true false true = (λ h. (inr (h.1 refl), λ e. h.1 refl), λ h. (refl, λ e. h.1 refl))
credentials_iff true true false = (λ h. (inr refl, λ e. refl), λ h. (refl, λ e. refl))
credentials_iff true false false = (λ h. (inr refl, λ e. refl), λ h. (refl, λ e. refl))

pub validate_bitcoind_iff : (c : Config) → (validate_bitcoind c ≡ []) ↔ IsBitcoind c
unfolding validate_bitcoind
validate_bitcoind_iff c =
    both_iff _ _
      (then_iff
        (complain_first_for _ _ _ _ (λ e. e, λ e. e)
          (unless_iff (not (is_empty c.bitcoind.rpcuser)) c.bitcoind.rpcpassword))
        (credentials_iff (is_empty c.bitcoind.rpccookiefile) (is_empty c.bitcoind.rpcuser)
          (is_empty c.bitcoind.rpcpassword)))
      (both_iff _ _ (complain_for _ _ (λ e. e, λ e. e))
        (complain_for _ _ (outside_iff 5 120 c.bitcoind.work_update_seconds)))

abbrev pub AreModifiers : List (List ℕ × List Float) → Type 0
AreModifiers modifiers =
    All (λ m. IsNearZero tolerance_units (minus_units (sum m.1) one_units)) modifiers

validate_modifiers_iff :
    (modifiers : List (List ℕ × List Float))
    → (validate_modifiers modifiers ≡ []) ↔ AreModifiers modifiers
validate_modifiers_iff [] = (λ e. tt, λ t. refl)
validate_modifiers_iff ((name, modifier) ∷ rest) =
    both_iff _ _
      (complain_for _ _ (IsNearZero-iff tolerance_units (minus_units (sum modifier) one_units)))
      (validate_modifiers_iff rest)

abbrev pub IsStratum : Config → Type 0
IsStratum c =
    (c.stratum.max_threads ≤ℤ pos 256)
    × ((c.stratum.max_clients_per_thread ≤ℤ pos 1024)
        × ((c.stratum.max_clients ≤ℤ (c.stratum.max_threads *ℤ c.stratum.max_clients_per_thread))
            × (IsPowerOfTwo c.stratum.vardiff_min
                × ((pos 1 ≤ℤ c.stratum.vardiff_target_shares_min)
                    × ((pos 4 ≤ℤ c.stratum.vardiff_quickdiff_count)
                        × ((pos 3 ≤ℤ c.stratum.vardiff_quickdiff_delta)
                            × (IsWithin 60 150 c.stratum.share_stale_seconds
                                × AreModifiers c.stratum.username_modifiers)))))))

pub validate_stratum_iff :
    (c : Config) → c.stratum.vardiff_min < 2 ^ 64 → (validate_stratum c ≡ []) ↔ IsStratum c
unfolding validate_stratum
validate_stratum_iff c small =
    both_iff _ _ (complain_for _ _ (less_iff (pos 256) c.stratum.max_threads)) (
      both_iff _ _ (complain_for _ _ (less_iff (pos 1024) c.stratum.max_clients_per_thread)) (
        both_iff _ _
          (complain_for _ _ (
            less_iff (c.stratum.max_threads *ℤ c.stratum.max_clients_per_thread)
              c.stratum.max_clients))
          (both_iff _ _
            (then_iff
              (complain_first_for _ _ _ _ (at_least_one c.stratum.vardiff_min)
                (not_iff (is_power_of_two c.stratum.vardiff_min)))
              (power_iff c.stratum.vardiff_min small))
            (both_iff _ _ (complain_for _ _ (less_iff c.stratum.vardiff_target_shares_min (pos 1)))
              (both_iff _ _ (complain_for _ _ (less_iff c.stratum.vardiff_quickdiff_count (pos 4)))
                (both_iff _ _
                  (complain_for _ _ (less_iff c.stratum.vardiff_quickdiff_delta (pos 3)))
                  (both_iff _ _
                    (complain_for _ _ (outside_iff 60 150 c.stratum.share_stale_seconds))
                    (validate_modifiers_iff c.stratum.username_modifiers))))))))
  where
    at_least_one : (n : ℕ) → (ltb n 1 ≡ false) ↔ (1 ≤ n)
    at_least_one n = ground arith
