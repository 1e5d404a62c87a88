-- ===== src/Examples/Tasks.antt =====
-- crates/datum-bin/src/main.rs: the tasks of the gateway, at concrete inputs.
use datum_rs.Common.{
  ℕ, ◌+◌, ◌-◌, ◌%◌, ◌^◌, ◌≡◌, ◌⊎◌, arith, true, false, List, [], ◌∷◌, ◌++◌, length, replicate, map,
  Option, some, none,
}
use datum_rs.Protocol.Messages.{ShareResponse, accepted}
use datum_rs.Protocol.Events.{client_config_event, coinbaser_event, share_response_event}
use datum_rs.ShareRelay.{JobMeta}
use datum_rs.ShareRelay.Jobs.{sv1, new_tracker, lookup, contains, new_entry, reset_send_once_flags}
use datum_rs.Sv1.Hex.{hex_bytes}
use datum_rs.Gateway.Upstream.{
  Published, Input, event, template_changed, TemplateChannel, no_progress, event_loop, connection,
}
use datum_rs.Gateway.Upstream.Requests.{configured, Asks, event_loop-Asks}
use datum_rs.Gateway.Upstream.Effects.{
  events_of, last_said, says_split, says_config, total, taken_count, refused_count,
  connection-leaves,
}
use datum_rs.Gateway.Jobs.{Tags, Current, published, Assembler, assemble}
use datum_rs.Gateway.Jobs.Names.{Reach, start, assembled, reconnected, assemble-tracks}
use datum_rs.Gateway.Jobs.Seeds.{seed_of, ready, counting, published-seeds}
use datum_rs.Examples.Blocks.{sum_hash, template}
use datum_rs.Examples.Pool.{blob}
use datum_rs.Examples.Channels.{state}
use datum_rs.Examples.Connections.{docs, flag}

-- Every hash is read as thirty-two sevens.
abbrev sevens : List ℕ → Option (List ℕ)
sevens hex = some (replicate 32 7)

abbrev answer : ShareResponse
answer = record { status = accepted; reject_reason = 0; nonce = 1; target_pot = 2; job_id = 3 }

-- The configuration comes before there is a template, then the template, then another one.
abbrev inputs : List (TemplateChannel × Input)
inputs =
    (
      some none,
      event (
          client_config_event (record {
            pool_scriptsig = [];
            prime_id = 1;
            pool_coinbase_tag = 80 ∷ [];
            vardiff_min = 64;
          })),
    )
    ∷ (some (some template), template_changed)
    ∷ (some (some template), event (coinbaser_event (record { coinbase_value = 5; v2_blob = [] })))
    ∷ (some (some template), event (share_response_event answer))
    ∷ (some (some template), template_changed)
    ∷ []

abbrev before_it : Published
before_it = record {
  coinbaser = none;
  pool_min_diff = 1;
  pool_coinbase_tag = none;
  runtime = record { shares_accepted = 2 ^ 64 - 1; shares_rejected = 4 };
}

event_loop-Asks_example :
    ((event_loop sevens inputs (no_progress, before_it)).0 ≡ [])
    ⊎ ((before after : List (TemplateChannel × Input)) × (channel : TemplateChannel) × (i : Input)
        × (inputs ≡ before ++ ((channel, i) ∷ after))
        × (configured false (before ++ ((channel, i) ∷ [])) ≡ true)
        × Asks sevens channel (event_loop sevens inputs (no_progress, before_it)).0)
event_loop-Asks_example = event_loop-Asks sevens inputs before_it

connection-leaves_example :
    ((connection sevens inputs before_it new_tracker).1.coinbaser
      ≡ last_said says_split none (events_of inputs))
    × ((connection sevens inputs before_it new_tracker).1.pool_min_diff
        ≡ last_said (says_config (λ cfg. cfg.vardiff_min)) 1 (events_of inputs))
    × ((connection sevens inputs before_it new_tracker).1.pool_coinbase_tag ≡ none)
    × ((connection sevens inputs before_it new_tracker).1.runtime.shares_accepted
        ≡ (2 ^ 64 - 1 + total taken_count (events_of inputs)) % 2 ^ 64)
    × ((connection sevens inputs before_it new_tracker).1.runtime.shares_rejected
        ≡ (4 + total refused_count (events_of inputs)) % 2 ^ 64)
    × ((connection sevens inputs before_it new_tracker).2 ≡ reset_send_once_flags new_tracker)
connection-leaves_example =
    connection-leaves sevens inputs before_it new_tracker (omega arith) (omega arith)

abbrev at_start : Assembler
at_start = record { tick = 0; jobs = new_tracker }

-- One job was made, and the pool was left and joined again.
abbrev one_job : Assembler
one_job = (assemble hex_bytes sevens docs flag state at_start).1

abbrev rejoined : Assembler
rejoined = record one_job { jobs = reset_send_once_flags one_job.jobs }

rejoined-Reach : Reach docs flag hex_bytes sevens rejoined
rejoined-Reach = reconnected one_job (assembled at_start state start (omega arith))

assemble-tracks_example :
    (length (assemble hex_bytes sevens docs flag state rejoined).0.job_id ≡ 16)
    × (contains (sv1 (assemble hex_bytes sevens docs flag state rejoined).0.job_id) rejoined.jobs
        ≡ false)
    × ((meta : JobMeta) × (lookup
            (sv1 (assemble hex_bytes sevens docs flag state rejoined).0.job_id)
            (assemble hex_bytes sevens docs flag state rejoined).1.jobs.by_key
          ≡ some (new_entry meta state.job_id_seed))
        × (meta.coinb1_bin ≡ (assemble hex_bytes sevens docs flag state rejoined).0.coinb1_bin)
        × (meta.target_pot_index
            ≡ (assemble hex_bytes sevens docs flag state rejoined).0.target_pot_index))
unfolding assemble
assemble-tracks_example =
    assemble-tracks docs flag hex_bytes sevens rejoined state rejoined-Reach (omega arith)

abbrev tags : Tags
tags = record {
  coinbase_tag_primary = 68 ∷ [];
  coinbase_tag_secondary = 85 ∷ [];
  coinbase_unique_id = 4242;
}

-- A template without a split, both, and both with a tag of the pool.
abbrev woken : List Current
woken =
    record { template = some template; coinbaser = none; pool_override = none }
    ∷ record { template = some template; coinbaser = some blob; pool_override = none }
    ∷ record { template = some template; coinbaser = some blob; pool_override = some (80 ∷ []) }
    ∷ []

published-seeds_example :
    map seed_of (
      published sum_hash sevens
        (λ bytes. bytes)
        tags
        woken
        (record { enprefix_counter = 0; seed = 5 }))
    ≡ counting 5 (ready woken)
published-seeds_example =
    published-seeds sum_hash sevens (λ bytes. bytes) tags woken
      (record { enprefix_counter = 0; seed = 5 }) (omega arith)
