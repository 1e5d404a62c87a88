-- ===== src/Gateway/Upstream.antt =====
-- run_datum_upstream of crates/datum-bin/src/main.rs: one connection to the pool, from the handshake to
-- the end of its events, with maybe_request_coinbaser and the counters of RuntimeStats. The hex crate is a
-- parameter.
pub mod Requests
pub mod Effects
use datum_rs.Common.{
  ℕ, ◌+◌, ◌%◌, ◌^◌, Bool, true, false, ◌&&◌, not, List, [], ◌∷◌, ◌++◌, take, if◌then◌else◌, Option,
  some, none, Result, ok, err,
}
use mathlib.Core.List.{reverse}
use datum_rs.Template.{Template}
use datum_rs.Template.State.{sized}
use datum_rs.Coinbaser.{CoinbaserBlob, CoinbaserError, parse_v2_blob}
use datum_rs.Protocol.Messages.{
  CoinbaserResponse, ClientConfig, ShareResponse, ShareStatus, accepted, accepted_tentatively,
  rejected,
}
use datum_rs.Protocol.Events.{
  UpstreamEvent, coinbaser_event, client_config_event, share_response_event, block_notify_event,
  job_validation_request, unknown_frame,
}
use datum_rs.Protocol.Client.{UpstreamCommand, request_coinbaser}
use datum_rs.ShareRelay.Jobs.{JobTracker, reset_send_once_flags}

-- MAX_COINBASE_TAG_SPACE.
abbrev pub max_tag : ℕ
max_tag = 86

-- The counters of the pool's answers, 64-bit and for the life of the process.
pub record RuntimeStats : Type 0 where
  pub shares_accepted : ℕ
  pub shares_rejected : ℕ

unfoldable pub record_share_accepted : RuntimeStats → RuntimeStats
record_share_accepted s = record s { shares_accepted = (s.shares_accepted + 1) % 2 ^ 64 }

unfoldable pub record_share_rejected : RuntimeStats → RuntimeStats
record_share_rejected s = record s { shares_rejected = (s.shares_rejected + 1) % 2 ^ 64 }

-- What the task publishes to the others.
pub record Published : Type 0 where
  pub coinbaser : Option CoinbaserBlob
  pub pool_min_diff : ℕ
  pub pool_coinbase_tag : Option (List ℕ)
  pub runtime : RuntimeStats

-- The loop's own flags.
pub record Progress : Type 0 where
  pub client_config_seen : Bool
  pub coinbaser_requested : Bool

abbrev pub no_progress : Progress
no_progress = record { client_config_seen = false; coinbaser_requested = false }

-- What wakes the loop: an event of the pool, a change of the template, the template's end.
pub data Input : Type 0 where
  event : UpstreamEvent → Input
  template_changed : Input
  template_dropped : Input

-- The template channel, where there is one, with the template that it holds.
abbrev pub TemplateChannel : Type 0
TemplateChannel = Option (Option Template)

-- `template_channel.as_ref().and_then(|ch| ch.current()).is_some()`.
unfoldable pub has_template : TemplateChannel → Bool
has_template none = false
has_template (some none) = false
has_template (some (some t)) = true

abbrev pub commands_for : Template → Option (List ℕ) → List UpstreamCommand
commands_for t none = []
commands_for t (some prevhash_be) = request_coinbaser t.coinbase_value (reverse prevhash_be) ∷ []

abbrev pub publish_blob : Result CoinbaserError CoinbaserBlob → Published → Published
publish_blob (err e) s = s
publish_blob (ok blob) s = record s { coinbaser = some blob }

abbrev pub count_answer : ShareStatus → RuntimeStats → RuntimeStats
count_answer accepted r = record_share_accepted r
count_answer accepted_tentatively r = record_share_accepted r
count_answer rejected r = record_share_rejected r

-- What an event of the pool does to what is published.
unfoldable pub publish : UpstreamEvent → Published → Published
unfolding record_share_accepted record_share_rejected
publish (coinbaser_event resp) s = publish_blob (parse_v2_blob resp.v2_blob resp.coinbase_value) s
publish (client_config_event cfg) s = record s {
  pool_min_diff = cfg.vardiff_min;
  pool_coinbase_tag = some (take max_tag cfg.pool_coinbase_tag);
}
publish (share_response_event resp) s = record s { runtime = count_answer resp.status s.runtime }
publish (block_notify_event body) s = s
publish (job_validation_request body) s = s
publish (unknown_frame cmd body) s = s

module _ (hex_decode : List ℕ → Option (List ℕ)) where
  -- The request that is enqueued, if any.
  unfoldable pub maybe_request_coinbaser : TemplateChannel → Bool → List UpstreamCommand
  maybe_request_coinbaser channel false = []
  maybe_request_coinbaser none true = []
  maybe_request_coinbaser (some none) true = []
  maybe_request_coinbaser (some (some t)) true =
      commands_for t (sized 32 (hex_decode t.previous_block_hash))

  -- The flags and the commands, on an event.
  unfoldable pub on_event :
      TemplateChannel → UpstreamEvent → Progress → List UpstreamCommand × Progress
  unfolding maybe_request_coinbaser has_template
  on_event channel (client_config_event cfg) p =
      if not p.coinbaser_requested
      then (
        maybe_request_coinbaser channel true,
        record { client_config_seen = true; coinbaser_requested = has_template channel },
      )
      else ([], record p { client_config_seen = true })
  on_event channel (coinbaser_event resp) p = ([], p)
  on_event channel (share_response_event resp) p = ([], p)
  on_event channel (block_notify_event body) p = ([], p)
  on_event channel (job_validation_request body) p = ([], p)
  on_event channel (unknown_frame cmd body) p = ([], p)

  unfoldable pub on_template : TemplateChannel → Progress → List UpstreamCommand × Progress
  unfolding maybe_request_coinbaser
  on_template channel p =
      if p.client_config_seen && not p.coinbaser_requested
      then (maybe_request_coinbaser channel true, record p { coinbaser_requested = true })
      else ([], p)

  -- One turn of the loop, with the template channel as it is then.
  unfoldable pub turn :
      TemplateChannel × Input → Progress × Published → List UpstreamCommand × Progress × Published
  unfolding on_event on_template publish
  turn (channel, event e) (p, s) =
      let (commands, p') = on_event channel e p in (commands, p', publish e s)
  turn (channel, template_changed) (p, s) =
      let (commands, p') = on_template channel p in (commands, p', s)
  turn (channel, template_dropped) (p, s) = ([], p, s)

  -- The loop, up to the end of the events.
  unfoldable pub event_loop :
      List (TemplateChannel × Input) → Progress × Published → List UpstreamCommand × Published
  event_loop [] (p, s) = ([], s)
  event_loop (input ∷ inputs) st =
      let (commands, p, s) = turn input st in
      let (more, end) = event_loop inputs (p, s) in (commands ++ more, end)

  -- A connection: the pool's slots are empty, so the send-once flags are cleared first, and the tag of
  -- the pool holds no longer than the connection.
  unfoldable pub connection :
      List (TemplateChannel × Input)
      → Published
      → JobTracker
      → List UpstreamCommand × Published × JobTracker
  connection inputs s jobs =
      let (commands, end) = event_loop inputs (no_progress, s) in
      (commands, record end { pool_coinbase_tag = none }, reset_send_once_flags jobs)
