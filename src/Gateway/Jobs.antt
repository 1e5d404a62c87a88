-- ===== src/Gateway/Jobs.antt =====
-- The two tasks of crates/datum-bin/src/main.rs between the template and the miners: the driver that
-- publishes a TemplateState for every change of the template or the coinbase split, and the assembler
-- that makes a job of each and tracks it. The hex crate, the double SHA-256, the JSON crate and the
-- reading of bytes as text with a mark for what is no UTF-8 are parameters.
pub mod Names
pub mod Seeds
use datum_rs.Common.{ℕ, ◌+◌, ◌%◌, ◌^◌, bit_xor, Bool, true, List, [], ◌∷◌, ◌++◌, Option, some, none}
use datum_rs.Template.{Template, ScriptSigInputs}
use datum_rs.Template.State.{TemplateState, from_template_and_blob}
use datum_rs.Coinbaser.{CoinbaserBlob}
use datum_rs.Sv1.Hex.{hex_fixed, format_08x}
use datum_rs.Sv1.Connection.{Json, NotifyJob}
use datum_rs.Sv1.Notify.{NotifyParams, notify_from_template_state, to_json_array}
use datum_rs.ShareRelay.{JobMeta}
use datum_rs.ShareRelay.Jobs.{JobTracker, sv1, next_idx, insert}

-- The fields of MiningConfig that go into the coinbase.
pub record Tags : Type 0 where
  pub coinbase_tag_primary : List ℕ
  pub coinbase_tag_secondary : List ℕ
  pub coinbase_unique_id : ℕ

pub record Driver : Type 0 where
  pub enprefix_counter : ℕ
  pub seed : ℕ

-- What the driver reads when it is woken: the template, the split, the pool's tag.
pub record Current : Type 0 where
  pub template : Option Template
  pub coinbaser : Option CoinbaserBlob
  pub pool_override : Option (List ℕ)

abbrev pub primary_tag : (List ℕ → List ℕ) → Tags → Option (List ℕ) → List ℕ
primary_tag from_utf8_lossy tags none = tags.coinbase_tag_primary
primary_tag from_utf8_lossy tags (some bytes) = from_utf8_lossy bytes

-- The counter is 16 bits wide, and so is what is pushed of the unique id.
unfoldable pub scriptsig_of : (List ℕ → List ℕ) → Tags → Option (List ℕ) → ℕ → ScriptSigInputs
scriptsig_of from_utf8_lossy tags pool_override enprefix_counter = record {
  coinbase_tag_primary = primary_tag from_utf8_lossy tags pool_override;
  coinbase_tag_secondary = tags.coinbase_tag_secondary;
  coinbase_unique_id = tags.coinbase_unique_id % 2 ^ 16;
  enprefix = bit_xor enprefix_counter 0xB10C;
  pot_placeholder = 0xFF;
}

unfoldable pub advanced : Driver → Driver
advanced d = record {
  enprefix_counter = (d.enprefix_counter + 1) % 2 ^ 16;
  seed = (d.seed + 1) % 2 ^ 64;
}

module _ (double_sha256 : List ℕ → List ℕ) (hex_decode : List ℕ → Option (List ℕ))
    (from_utf8_lossy : List ℕ → List ℕ) (tags : Tags) where
  abbrev pub state_of : Template → CoinbaserBlob → Option (List ℕ) → Driver → Option TemplateState
  state_of template coinbaser pool_override d =
      from_template_and_blob hex_decode double_sha256 template coinbaser
        (scriptsig_of from_utf8_lossy tags pool_override d.enprefix_counter) d.seed

  abbrev pub drive :
      Option Template
      → Option CoinbaserBlob
      → Option (List ℕ)
      → Driver
      → List (Option TemplateState) × Driver
  drive none coinbaser pool_override d = ([], d)
  drive (some template) none pool_override d = ([], d)
  drive (some template) (some coinbaser) pool_override d =
      (state_of template coinbaser pool_override d ∷ [], advanced d)

  -- One turn: what is published, which is nothing while the template or the split is missing.
  unfoldable pub on_change : Current → Driver → List (Option TemplateState) × Driver
  on_change now d = drive now.template now.coinbaser now.pool_override d

  unfoldable pub published : List Current → Driver → List (Option TemplateState)
  unfolding on_change
  published [] d = []
  published (now ∷ later) d = let (states, next) = on_change now d in states ++ published later next

-- `{:08x}{:02x}{:04x}` and `{:02x}` of the coinbase id, which is 0.
unfoldable pub job_id_of : ℕ → ℕ → ℕ → List ℕ
job_id_of tick datum_job_idx height =
    format_08x tick
    ++ (hex_fixed 2 datum_job_idx
        ++ (hex_fixed 4 (bit_xor (height % 2 ^ 16) 0xC0DE) ++ hex_fixed 2 0))

-- What the assembler keeps: its tick, and the tracker that it shares.
pub record Assembler : Type 0 where
  pub tick : ℕ
  pub jobs : JobTracker

module _ (hex_encode : List ℕ → List ℕ) (hex_decode : List ℕ → Option (List ℕ)) (json : Json)
    (boolean : Bool → json.Value) where
  abbrev pub notify_job : NotifyParams × JobMeta → NotifyJob json
  notify_job (params, meta) = record {
    params = to_json_array json boolean params;
    target_pot_index = meta.target_pot_index;
    coinb1_bin = meta.coinb1_bin;
    job_id = params.job_id;
  }

  -- A published state becomes a job: it takes the next index, is tracked, and is sent. The tracker is
  -- locked for the index and again for the entry; what other tasks do to it between is left out.
  unfoldable pub assemble : TemplateState → Assembler → NotifyJob json × Assembler
  unfolding job_id_of
  assemble state a =
      let (datum_job_idx, jobs) = next_idx a.jobs in
      let job_id = job_id_of a.tick datum_job_idx state.height in
      let made =
        notify_from_template_state hex_encode hex_decode job_id datum_job_idx 0 state true in
      (
        notify_job made,
        record {
          tick = (a.tick + 1) % 2 ^ 32;
          jobs = insert (sv1 job_id) made.1 state.job_id_seed jobs;
        },
      )

  -- The jobs of the states that are published one after the other.
  unfoldable pub assemble_all : List TemplateState → Assembler → List (NotifyJob json) × Assembler
  assemble_all [] a = ([], a)
  assemble_all (state ∷ states) a =
      let (job, next) = assemble state a in
      let (jobs, end) = assemble_all states next in (job ∷ jobs, end)
