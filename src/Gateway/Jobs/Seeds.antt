-- ===== src/Gateway/Jobs/Seeds.antt =====
-- The states that the driver of crates/datum-bin/src/main.rs publishes.
use datum_rs.Common.{
  ℕ, zero, suc, ◌+◌, ◌%◌, ◌^◌, ◌<◌, ◌≡◌, refl, ap, ◌∙◌, arith, List, [], ◌∷◌, ◌++◌, map, Option,
  some, none,
}
use datum_rs.Template.{Template}
use datum_rs.Template.Merkle.{txid_le, build_merkle_branches}
use datum_rs.Template.Merkle.Count.{merkle_branches_depth}
use datum_rs.Template.State.{TemplateState, from_template_and_blob}
use datum_rs.Coinbaser.{CoinbaserBlob}
use datum_rs.Gateway.Jobs.{Tags, Driver, Current, advanced, state_of, drive, on_change, published}

abbrev pub seed_of : Option TemplateState → Option ℕ
seed_of none = none
seed_of (some state) = some state.job_id_seed

abbrev pub both : Option Template → Option CoinbaserBlob → ℕ
both none coinbaser = 0
both (some t) none = 0
both (some t) (some c) = 1

-- The turns at which there are both a template and a split.
abbrev pub ready : List Current → ℕ
ready [] = 0
ready (now ∷ later) = both now.template now.coinbaser + ready later

abbrev pub counting : ℕ → ℕ → List (Option ℕ)
counting first zero = []
counting first (suc n) = some first ∷ counting (suc first) n

module _ (double_sha256 : List ℕ → List ℕ) (hex_decode : List ℕ → Option (List ℕ))
    (from_utf8_lossy : List ℕ → List ℕ) (tags : Tags) where
  state_of-seed :
      (template : Template) (coinbaser : CoinbaserBlob) (pool_override : Option (List ℕ))
      (d : Driver)
      → seed_of (
          state_of double_sha256 hex_decode from_utf8_lossy tags template coinbaser pool_override d)
        ≡ some d.seed
  unfolding from_template_and_blob build_merkle_branches
  state_of-seed template coinbaser pool_override d =
      let (branches, is, deep, least) =
        merkle_branches_depth double_sha256 (map (txid_le hex_decode) template.transactions) in
      rw (seed_of, is)

  driven :
      (template : Option Template) (coinbaser : Option CoinbaserBlob)
      (pool_override : Option (List ℕ)) (later : List Current) (d : Driver)
      → ((next : Driver)
          → next.seed + ready later < 2 ^ 64
          → map seed_of (published double_sha256 hex_decode from_utf8_lossy tags later next)
            ≡ counting next.seed (ready later))
      → d.seed + (both template coinbaser + ready later) < 2 ^ 64
      → map seed_of (
          (drive double_sha256 hex_decode from_utf8_lossy tags template coinbaser pool_override d).0
          ++ published double_sha256 hex_decode from_utf8_lossy tags later
              (drive double_sha256 hex_decode from_utf8_lossy tags template coinbaser pool_override
                d).1)
        ≡ counting d.seed (both template coinbaser + ready later)
  unfolding advanced
  driven none coinbaser over later d ih h = ih d (omega arith) ∙ ap (counting d.seed) (omega arith)
  driven (some t) none over later d ih h = ih d (omega arith) ∙ ap (counting d.seed) (omega arith)
  driven (some t) (some c) over later d ih h =
      let next : (d.seed + 1) % 2 ^ 64 ≡ suc d.seed = omega arith in
      rw (state_of-seed t c over d) (
        ap (◌∷◌ (some d.seed))
          (ih (advanced d) (omega arith) ∙ ap (λ (n : ℕ). counting n (ready later)) next)
        ∙ ap (counting d.seed) one_more)
    where
      one_more : suc (ready later) ≡ 1 + ready later
      one_more = omega arith

  -- The driver publishes one state for every turn at which there are a template and a coinbase split,
  -- and none at the others; each state is complete, and their seeds count up by one from the driver's,
  -- below 2^64 states.
  pub published-seeds :
      (inputs : List Current) (d : Driver)
      → d.seed + ready inputs < 2 ^ 64
      → map seed_of (published double_sha256 hex_decode from_utf8_lossy tags inputs d)
        ≡ counting d.seed (ready inputs)
  unfolding published on_change
  published-seeds [] d h = refl
  published-seeds (now ∷ later) d h =
      driven now.template now.coinbaser now.pool_override later d (published-seeds later) h
