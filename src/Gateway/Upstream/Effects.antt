-- ===== src/Gateway/Upstream/Effects.antt =====
-- What a connection leaves behind in what the other tasks read: run_datum_upstream of
-- crates/datum-bin/src/main.rs.
use datum_rs.Common.{
  ℕ, ◌+◌, ◌%◌, ◌^◌, ◌<◌, ◌≡◌, refl, arith, List, [], ◌∷◌, take, Option, some, none, Result, ok, err,
}
use datum_rs.Coinbaser.{CoinbaserBlob, CoinbaserError, parse_v2_blob}
use datum_rs.Protocol.Messages.{
  CoinbaserResponse, ClientConfig, ShareResponse, ShareStatus, accepted, accepted_tentatively,
  rejected,
}
use datum_rs.Protocol.Events.{
  UpstreamEvent, coinbaser_event, client_config_event, share_response_event, block_notify_event,
  job_validation_request, unknown_frame,
}
use datum_rs.ShareRelay.Jobs.{JobTracker, reset_send_once_flags}
use datum_rs.Gateway.Upstream.{
  RuntimeStats, record_share_accepted, record_share_rejected, Progress, Published, Input, event,
  template_changed, template_dropped, TemplateChannel, publish_blob, count_answer, publish, turn,
  no_progress, event_loop, connection,
}

abbrev pub events_of : List (TemplateChannel × Input) → List UpstreamEvent
events_of [] = []
events_of ((channel, event e) ∷ rest) = e ∷ events_of rest
events_of ((channel, template_changed) ∷ rest) = events_of rest
events_of ((channel, template_dropped) ∷ rest) = events_of rest

-- The last of what the events say of something, or else what was there before.
abbrev pub said {ℓ} : {A : Type ℓ} → Option A → A → A
said none a = a
said (some b) a = b

abbrev pub last_said {ℓ} : {A : Type ℓ} → (UpstreamEvent → Option A) → A → List UpstreamEvent → A
last_said says a [] = a
last_said says a (e ∷ es) = last_said says (said (says e) a) es

abbrev pub parsed : Result CoinbaserError CoinbaserBlob → Option (Option CoinbaserBlob)
parsed (ok blob) = some (some blob)
parsed (err e) = none

-- A split that parses.
abbrev pub says_split : UpstreamEvent → Option (Option CoinbaserBlob)
says_split (coinbaser_event resp) = parsed (parse_v2_blob resp.v2_blob resp.coinbase_value)
says_split (client_config_event cfg) = none
says_split (share_response_event resp) = none
says_split (block_notify_event body) = none
says_split (job_validation_request body) = none
says_split (unknown_frame cmd body) = none

abbrev pub says_config {ℓ} : {A : Type ℓ} → (ClientConfig → A) → UpstreamEvent → Option A
says_config of_config (coinbaser_event resp) = none
says_config of_config (client_config_event cfg) = some (of_config cfg)
says_config of_config (share_response_event resp) = none
says_config of_config (block_notify_event body) = none
says_config of_config (job_validation_request body) = none
says_config of_config (unknown_frame cmd body) = none

abbrev pub taken_count : ShareStatus → ℕ
taken_count accepted = 1
taken_count accepted_tentatively = 1
taken_count rejected = 0

abbrev pub refused_count : ShareStatus → ℕ
refused_count accepted = 0
refused_count accepted_tentatively = 0
refused_count rejected = 1

abbrev pub total : (ShareStatus → ℕ) → List UpstreamEvent → ℕ
total weight [] = 0
total weight (coinbaser_event resp ∷ es) = total weight es
total weight (client_config_event cfg ∷ es) = total weight es
total weight (share_response_event resp ∷ es) = weight resp.status + total weight es
total weight (block_notify_event body ∷ es) = total weight es
total weight (job_validation_request body ∷ es) = total weight es
total weight (unknown_frame cmd body ∷ es) = total weight es

abbrev pub tag_of : ClientConfig → Option (List ℕ)
tag_of cfg = some (take 86 cfg.pool_coinbase_tag)

-- What is published after these events: the last split that parses, the last floor and the last tag,
-- cut to 86 bytes, and the counters grown by the answers of either kind.
abbrev pub Follows : List UpstreamEvent → Published → Published → Type 0
Follows es s end =
    (end.coinbaser ≡ last_said says_split s.coinbaser es)
    × (end.pool_min_diff ≡ last_said (says_config (λ cfg. cfg.vardiff_min)) s.pool_min_diff es)
    × (end.pool_coinbase_tag ≡ last_said (says_config tag_of) s.pool_coinbase_tag es)
    × (end.runtime.shares_accepted ≡ (s.runtime.shares_accepted + total taken_count es) % 2 ^ 64)
    × (end.runtime.shares_rejected ≡ (s.runtime.shares_rejected + total refused_count es) % 2 ^ 64)

counted :
    (resp : ShareResponse) (status : ShareStatus) (es : List UpstreamEvent) (s end : Published)
    → resp.status ≡ status
    → Follows es (record s { runtime = count_answer status s.runtime }) end
    → Follows (share_response_event resp ∷ es) s end
unfolding record_share_accepted record_share_rejected
counted resp accepted es s end e (split, floor, tag, taken, refused) =
    rw e (split, floor, tag, omega (arith, taken), omega (arith, refused))
counted resp accepted_tentatively es s end e (split, floor, tag, taken, refused) =
    rw e (split, floor, tag, omega (arith, taken), omega (arith, refused))
counted resp rejected es s end e (split, floor, tag, taken, refused) =
    rw e (split, floor, tag, omega (arith, taken), omega (arith, refused))

publish_blob-runtime :
    (r : Result CoinbaserError CoinbaserBlob) (s : Published)
    → (publish_blob r s).runtime ≡ s.runtime
publish_blob-runtime (ok blob) s = refl
publish_blob-runtime (err e) s = refl

split_said :
    (resp : CoinbaserResponse) (r : Result CoinbaserError CoinbaserBlob) (es : List UpstreamEvent)
    (s end : Published)
    → parse_v2_blob resp.v2_blob resp.coinbase_value ≡ r
    → Follows es (publish_blob r s) end
    → Follows (coinbaser_event resp ∷ es) s end
split_said resp (ok blob) es s end q f = rw q f
split_said resp (err e) es s end q f = rw q f

count_answer-fits :
    (status : ShareStatus) (r : RuntimeStats)
    → r.shares_accepted < 2 ^ 64
    → r.shares_rejected < 2 ^ 64
    → ((count_answer status r).shares_accepted < 2 ^ 64)
      × ((count_answer status r).shares_rejected < 2 ^ 64)
unfolding record_share_accepted record_share_rejected
count_answer-fits accepted r h k = omega arith
count_answer-fits accepted_tentatively r h k = omega arith
count_answer-fits rejected r h k = omega arith

module _ (hex_decode : List ℕ → Option (List ℕ)) where
  event_loop-Follows :
      (inputs : List (TemplateChannel × Input)) (p : Progress) (s : Published)
      → s.runtime.shares_accepted < 2 ^ 64
      → s.runtime.shares_rejected < 2 ^ 64
      → Follows (events_of inputs) s (event_loop hex_decode inputs (p, s)).1
  unfolding event_loop turn publish record_share_accepted record_share_rejected
  event_loop-Follows [] p s h k = (refl, refl, refl, omega arith, omega arith)
  event_loop-Follows ((channel, template_changed) ∷ inputs) p s h k =
      event_loop-Follows inputs _ s h k
  event_loop-Follows ((channel, template_dropped) ∷ inputs) p s h k =
      event_loop-Follows inputs p s h k
  event_loop-Follows ((channel, event (client_config_event cfg)) ∷ inputs) p s h k =
      event_loop-Follows inputs _ _ h k
  event_loop-Follows ((channel, event (share_response_event resp)) ∷ inputs) p s h k =
      counted resp resp.status (events_of inputs) s _ refl (
        event_loop-Follows inputs p (record s { runtime = count_answer resp.status s.runtime })
          (count_answer-fits resp.status s.runtime h k).0
          (count_answer-fits resp.status s.runtime h k).1)
  event_loop-Follows ((channel, event (coinbaser_event resp)) ∷ inputs) p s h k =
      split_said resp (parse_v2_blob resp.v2_blob resp.coinbase_value) (events_of inputs) s _ refl (
        event_loop-Follows inputs p
          (publish_blob (parse_v2_blob resp.v2_blob resp.coinbase_value) s)
          (rw (publish_blob-runtime (parse_v2_blob resp.v2_blob resp.coinbase_value) s) h)
          (rw (publish_blob-runtime (parse_v2_blob resp.v2_blob resp.coinbase_value) s) k))
  event_loop-Follows ((channel, event (block_notify_event body)) ∷ inputs) p s h k =
      event_loop-Follows inputs p s h k
  event_loop-Follows ((channel, event (job_validation_request body)) ∷ inputs) p s h k =
      event_loop-Follows inputs p s h k
  event_loop-Follows ((channel, event (unknown_frame cmd body)) ∷ inputs) p s h k =
      event_loop-Follows inputs p s h k

  -- What a connection itself leaves to the other tasks, whatever came in and in whatever order: the split
  -- of the last response that parses, the difficulty floor of the last configuration, counters that
  -- have grown by the accepted and the rejected shares modulo 2^64, no tag of the pool, and the job
  -- tracker with the send-once flags cleared. What the connection did not speak of is as before.
  pub connection-leaves :
      (inputs : List (TemplateChannel × Input)) (s : Published) (jobs : JobTracker)
      → s.runtime.shares_accepted < 2 ^ 64
      → s.runtime.shares_rejected < 2 ^ 64
      → ((connection hex_decode inputs s jobs).1.coinbaser
          ≡ last_said says_split s.coinbaser (events_of inputs))
        × ((connection hex_decode inputs s jobs).1.pool_min_diff
            ≡ last_said (says_config (λ cfg. cfg.vardiff_min)) s.pool_min_diff (events_of inputs))
        × ((connection hex_decode inputs s jobs).1.pool_coinbase_tag ≡ none)
        × ((connection hex_decode inputs s jobs).1.runtime.shares_accepted
            ≡ (s.runtime.shares_accepted + total taken_count (events_of inputs)) % 2 ^ 64)
        × ((connection hex_decode inputs s jobs).1.runtime.shares_rejected
            ≡ (s.runtime.shares_rejected + total refused_count (events_of inputs)) % 2 ^ 64)
        × ((connection hex_decode inputs s jobs).2 ≡ reset_send_once_flags jobs)
  unfolding connection
  connection-leaves inputs s jobs h k =
      let (split, floor, tag, taken, refused) = event_loop-Follows inputs no_progress s h k in
      (split, floor, refl, taken, refused, refl)
