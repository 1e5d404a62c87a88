-- ===== src/Gateway/Upstream/Requests.antt =====
-- The request for the coinbase split on one connection: run_datum_upstream and maybe_request_coinbaser of
-- crates/datum-bin/src/main.rs.
use datum_rs.Common.{
  ℕ, ◌≡◌, refl, sym, ap, ◌∙◌, Bool, true, false, ◌||◌, List, [], ◌∷◌, ◌++◌, Option, some, none,
  Option-cases, Bool-cases, inl, inr, ◌⊎◌, append-nil,
}
use mathlib.Core.List.{reverse}
use datum_rs.Template.{Template}
use datum_rs.Template.State.{sized}
use datum_rs.Protocol.Events.{
  coinbaser_event, client_config_event, share_response_event, block_notify_event,
  job_validation_request, unknown_frame,
}
use datum_rs.Protocol.Client.{UpstreamCommand, request_coinbaser}
use datum_rs.Gateway.Upstream.{
  Progress, Published, Input, event, template_changed, template_dropped, TemplateChannel,
  has_template, commands_for, maybe_request_coinbaser, on_event, on_template, turn, no_progress,
  event_loop,
}

abbrev pub is_config : Input → Bool
is_config (event (client_config_event cfg)) = true
is_config (event (coinbaser_event resp)) = false
is_config (event (share_response_event resp)) = false
is_config (event (block_notify_event body)) = false
is_config (event (job_validation_request body)) = false
is_config (event (unknown_frame cmd body)) = false
is_config template_changed = false
is_config template_dropped = false

-- The pool's configuration is among the inputs, or was there before.
abbrev pub configured : Bool → List (TemplateChannel × Input) → Bool
configured seen [] = seen
configured seen ((channel, i) ∷ rest) = configured (is_config i || seen) rest

module _ (hex_decode : List ℕ → Option (List ℕ)) where
  -- The commands ask for the split of the template that the channel holds.
  abbrev pub Asks : TemplateChannel → List UpstreamCommand → Type 0
  Asks channel commands =
      (t : Template) × (prevhash : List ℕ) × (channel ≡ some (some t))
      × (sized 32 (hex_decode t.previous_block_hash) ≡ some prevhash)
      × (commands ≡ request_coinbaser t.coinbase_value (reverse prevhash) ∷ [])

  commands_for-Asks :
      (t : Template)
      → (commands_for t (sized 32 (hex_decode t.previous_block_hash)) ≡ [])
        ⊎ Asks (some (some t)) (commands_for t (sized 32 (hex_decode t.previous_block_hash)))
  commands_for-Asks t = elim (Option-cases (sized 32 (hex_decode t.previous_block_hash))) [
    | inl e ↦ inl (rw e)
    | inr (prevhash, e) ↦ inr (t, prevhash, refl, e, rw e)
  ]

  maybe_request-Asks :
      (channel : TemplateChannel)
      → (maybe_request_coinbaser hex_decode channel true ≡ [])
        ⊎ Asks channel (maybe_request_coinbaser hex_decode channel true)
  unfolding maybe_request_coinbaser
  maybe_request-Asks none = inl refl
  maybe_request-Asks (some none) = inl refl
  maybe_request-Asks (some (some t)) = commands_for-Asks t

  -- What a turn does before anything has been asked: it asks nothing and goes on waiting, or the
  -- configuration is there and it has asked, if it could.
  abbrev Turned : TemplateChannel → Input → Bool → List UpstreamCommand → Progress → Type 0
  Turned channel i seen commands p =
      ((commands ≡ [])
        × (p.coinbaser_requested ≡ false)
        × (p.client_config_seen ≡ (is_config i || seen)))
      ⊎ ((p.coinbaser_requested ≡ true)
          × ((is_config i || seen) ≡ true)
          × ((commands ≡ []) ⊎ Asks channel commands))

  quiet :
      (channel : TemplateChannel) (p : Progress)
      → p.coinbaser_requested ≡ false
      → Turned channel template_dropped p.client_config_seen [] p
  quiet channel p e = inl (refl, e, refl)

  on_config :
      (channel : TemplateChannel) (seen : Bool)
      → Turned channel template_changed true
          (maybe_request_coinbaser hex_decode channel true)
          (record { client_config_seen = true; coinbaser_requested = has_template channel })
  unfolding maybe_request_coinbaser has_template
  on_config none seen = inl (refl, refl, refl)
  on_config (some none) seen = inl (refl, refl, refl)
  on_config (some (some t)) seen = inr (refl, refl, commands_for-Asks t)

  turn-Turned :
      (channel : TemplateChannel) (i : Input) (p : Progress) (s : Published)
      → p.coinbaser_requested ≡ false
      → Turned channel i p.client_config_seen
          (turn hex_decode (channel, i) (p, s)).0
          (turn hex_decode (channel, i) (p, s)).1
  unfolding turn on_event on_template
  turn-Turned channel (event (client_config_event cfg)) p s e = rw e (on_config channel true)
  turn-Turned channel (event (coinbaser_event resp)) p s e = quiet channel p e
  turn-Turned channel (event (share_response_event resp)) p s e = quiet channel p e
  turn-Turned channel (event (block_notify_event body)) p s e = quiet channel p e
  turn-Turned channel (event (job_validation_request body)) p s e = quiet channel p e
  turn-Turned channel (event (unknown_frame cmd body)) p s e = quiet channel p e
  turn-Turned channel template_dropped p s e = quiet channel p e
  turn-Turned channel template_changed p s e = elim (Bool-cases p.client_config_seen) [
    | inl seen ↦ rw (seen, e) (inr (refl, refl, maybe_request-Asks channel))
    | inr unseen ↦ rw unseen (inl (refl, e, refl))
  ]

  turn-silent :
      (channel : TemplateChannel) (i : Input) (p : Progress) (s : Published)
      → p.coinbaser_requested ≡ true
      → ((turn hex_decode (channel, i) (p, s)).0 ≡ [])
        × ((turn hex_decode (channel, i) (p, s)).1.coinbaser_requested ≡ true)
  unfolding turn on_event on_template
  turn-silent channel (event (client_config_event cfg)) p s e = rw e (refl, refl)
  turn-silent channel (event (coinbaser_event resp)) p s e = (refl, e)
  turn-silent channel (event (share_response_event resp)) p s e = (refl, e)
  turn-silent channel (event (block_notify_event body)) p s e = (refl, e)
  turn-silent channel (event (job_validation_request body)) p s e = (refl, e)
  turn-silent channel (event (unknown_frame cmd body)) p s e = (refl, e)
  turn-silent channel template_dropped p s e = (refl, e)
  turn-silent channel template_changed p s e = elim (Bool-cases p.client_config_seen) [
    | inl seen ↦ rw (seen, e) (refl, refl)
    | inr unseen ↦ rw unseen (refl, e)
  ]

  event_loop-silent :
      (inputs : List (TemplateChannel × Input)) (p : Progress) (s : Published)
      → p.coinbaser_requested ≡ true
      → (event_loop hex_decode inputs (p, s)).0 ≡ []
  unfolding event_loop
  event_loop-silent [] p s e = refl
  event_loop-silent ((channel, i) ∷ inputs) p s e =
      let (none_now, still) = turn-silent channel i p s e in
      rw none_now (event_loop-silent inputs _ _ still)

  event_loop-from :
      (inputs : List (TemplateChannel × Input)) (p : Progress) (s : Published)
      → p.coinbaser_requested ≡ false
      → ((event_loop hex_decode inputs (p, s)).0 ≡ [])
        ⊎ ((before after : List (TemplateChannel × Input)) × (channel : TemplateChannel)
            × (i : Input) × (inputs ≡ before ++ ((channel, i) ∷ after))
            × (configured p.client_config_seen (before ++ ((channel, i) ∷ [])) ≡ true)
            × Asks channel (event_loop hex_decode inputs (p, s)).0)
  unfolding event_loop
  event_loop-from [] p s e = inl refl
  event_loop-from ((channel, i) ∷ inputs) p s e =
      let (commands, p', s') = turn hex_decode (channel, i) (p, s) in
      elim (turn-Turned channel i p s e) [
        | inl (none_now, unasked, known) ↦
            rw none_now (elim (event_loop-from inputs p' s' unasked) [
              | inl q ↦ inl q
              | inr (before, after, later, j, parts, conf, asks) ↦ inr (
                (channel, i) ∷ before,
                after,
                later,
                j,
                ap (◌∷◌ (channel, i)) parts,
                ap (λ (b : Bool). configured b (before ++ ((later, j) ∷ []))) (sym known) ∙ conf,
                asks,
              )
            ])
        | inr (asked, conf, now) ↦
            rw (event_loop-silent inputs p' s' asked, append-nil)
              (elim now [
                | inl q ↦ inl q
                | inr asks ↦ inr ([], inputs, channel, i, refl, conf, asks)
              ])
      ]

  -- However the pool's events and the changes of the template follow one another on a connection, it
  -- asks for the coinbase split at most once: either never, or by one command, at a turn at which the
  -- pool's configuration is there, with the value and the previous block, its 32 bytes reversed, of the
  -- template that is current at that turn. No later template is asked for.
  pub event_loop-Asks :
      (inputs : List (TemplateChannel × Input)) (s : Published)
      → ((event_loop hex_decode inputs (no_progress, s)).0 ≡ [])
        ⊎ ((before after : List (TemplateChannel × Input)) × (channel : TemplateChannel)
            × (i : Input) × (inputs ≡ before ++ ((channel, i) ∷ after))
            × (configured false (before ++ ((channel, i) ∷ [])) ≡ true)
            × Asks channel (event_loop hex_decode inputs (no_progress, s)).0)
  event_loop-Asks inputs s = event_loop-from inputs no_progress s refl
