-- ===== src/Sv1/Connection/Trace/Difficulty.antt =====
-- The difficulty that the miner was told last, and that of the jobs sent to it:
-- `handle_connection` of crates/datum-stratum-sv1/src/server.rs.
use mathlib.Core.Bool.{true≢false}
use datum_rs.Common.{
  ℕ, ◌≤◌, ◌≡◌, ◌⊎◌, inl, inr, refl, sym, ◌∙◌, arith, max, Bool, true, false, not, ◌&&◌,
  if◌then◌else◌, List, [], ◌∷◌, ◌++◌, ltb, ◌==◌, Option, some, none,
}
use datum_rs.Sv2.Vardiff.{VardiffParams}
use datum_rs.Sv1.{ring_lookup}
use datum_rs.Sv1.Connection.{
  Method, configure, subscribe, authorize, submit, suggest_difficulty, other_method, Json,
  Connection, SubmittedShare, extensions, new_connection, NotifyJob, Request, Output, granted,
  response, error_response, set_version_mask, set_difficulty, notify, forward, Event, blank_line,
  unparsed_line, request_line, peer_closed, notify_changed, notify_dropped, pool_min_changed,
  pool_min_dropped, timer, Watched, Settings,
}
use datum_rs.Sv1.Connection.Requests.{
  patch_coinb1_pot_byte, mask_push, share_of, emit_pending, dispatch, on_subscribe, on_authorize,
  on_request,
}
use datum_rs.Sv1.Connection.Names.{method_of}
use datum_rs.Sv1.Connection.Cases.{on_configure-cases, on_submit-cases}
use datum_rs.Sv1.Connection.Steps.{
  counted_anew, rated_diff, change_diff, on_notify, on_pool_min, on_timer, turn, handle_connection,
}
use datum_rs.Sv1.Connection.Trace.{Trace, Keeps, either_way, IsKept, turns-Trace}

rated_diff-floor :
    (vardiff : VardiffParams) (pool_min elapsed_secs : ℕ) (c : Connection)
    → vardiff.min_diff ≤ rated_diff vardiff pool_min elapsed_secs c
unfolding rated_diff
rated_diff-floor vardiff pool_min elapsed_secs c = omega arith

module _ (json : Json) where
  -- The difficulty in the latest `mining.set_difficulty`.
  abbrev pub announced : List (Output json) → Option ℕ
  announced [] = none
  announced (set_difficulty d ∷ past) = some d
  announced (response id r ∷ past) = announced past
  announced (error_response id e ∷ past) = announced past
  announced (set_version_mask m ∷ past) = announced past
  announced (notify p job d ∷ past) = announced past
  announced (forward s ∷ past) = announced past

  -- A job is sent with the PoT byte of the difficulty that was announced, where one was.
  abbrev pub Announced : ℕ → List (Output json) → Output json → Type 0
  Announced floor past (set_difficulty d) = floor ≤ d
  Announced floor past (notify p job d) =
      (p ≡ patch_coinb1_pot_byte json job.params job.target_pot_index d)
      × ((announced past ≡ none) ⊎ (announced past ≡ some d))
  Announced floor past (response id r) = Unit
  Announced floor past (error_response id e) = Unit
  Announced floor past (set_version_mask m) = Unit
  Announced floor past (forward s) = (d : ℕ) × (announced past ≡ some d)

  abbrev InStep : ℕ → List (Output json) → Connection → Type 0
  InStep floor past c =
      (floor ≤ c.current_diff)
      × ((announced past ≡ none) × (c.subscribed ≡ false)
          ⊎ (announced past ≡ some c.current_diff) × (c.subscribed ≡ true))

  emit_pending-Keeps :
      (floor : ℕ) (pending : Option (NotifyJob json)) (past : List (Output json)) (c : Connection)
      → InStep floor past c
      → Keeps json (Announced floor) (InStep floor) past (emit_pending json pending c)
  emit_pending-Keeps floor none past c h = (tt, h)
  emit_pending-Keeps floor (some job) past c (lo, inl h) = (((refl, inl h.0), tt), (lo, inl h))
  emit_pending-Keeps floor (some job) past c (lo, inr h) = (((refl, inr h.0), tt), (lo, inr h))

  change_diff-Keeps :
      (watched : Watched json) (floor diff : ℕ) (past : List (Output json)) (c : Connection)
      → floor ≤ diff
      → c.subscribed ≡ true
      → Keeps json (Announced floor) (InStep floor) past (change_diff json watched diff c)
  unfolding change_diff
  change_diff-Keeps watched floor diff past c lo on =
      let (sent, after) =
        either_way json (Announced floor) (InStep floor) (set_difficulty diff ∷ past) c.authorized
          (emit_pending json watched.pending changed) ([], changed)
          (λ e. emit_pending-Keeps floor watched.pending (set_difficulty diff ∷ past) changed told)
          (tt, told) in
      ((lo, sent), after)
    where
      changed : Connection
      changed = record c { current_diff = diff }

      told : InStep floor (set_difficulty diff ∷ past) changed
      told = (lo, inr (refl, on))

  on_notify-Keeps :
      (watched : Watched json) (floor : ℕ) (past : List (Output json)) (c : Connection)
      → InStep floor past c
      → Keeps json (Announced floor) (InStep floor) past (on_notify json watched c)
  unfolding on_notify
  on_notify-Keeps watched floor past c h =
      either_way json (Announced floor) (InStep floor) past (c.subscribed && c.authorized)
        (emit_pending json watched.pending c) ([], c)
        (λ e. emit_pending-Keeps floor watched.pending past c h) (tt, h)

  -- What both arms do that may change the difficulty.
  maybe_change :
      (watched : Watched json) (floor diff : ℕ) (past : List (Output json)) (c : Connection)
      (changes : Bool)
      → (changes ≡ true → (floor ≤ diff) × (c.subscribed ≡ true))
      → InStep floor past c
      → Keeps json
          (Announced floor)
          (InStep floor)
          past
          (if changes then change_diff json watched diff c else ([], c))
  maybe_change watched floor diff past c changes sound h =
      either_way json (Announced floor) (InStep floor) past changes
        (change_diff json watched diff c) ([], c)
        (λ e. change_diff-Keeps watched floor diff past c (sound e).0 (sound e).1) (tt, h)

  on_pool_min-Keeps :
      (settings : Settings) (watched : Watched json) (past : List (Output json)) (c : Connection)
      → InStep settings.vardiff.min_diff past c
      → Keeps json
          (Announced settings.vardiff.min_diff)
          (InStep settings.vardiff.min_diff)
          past
          (on_pool_min json settings watched c)
  unfolding on_pool_min
  on_pool_min-Keeps settings watched past c h =
      maybe_change watched settings.vardiff.min_diff
        (max settings.vardiff.min_diff watched.pool_min) past c
        (c.pool_min_rx
          && (ltb c.current_diff (max settings.vardiff.min_diff watched.pool_min) && c.subscribed))
        (λ e. (omega arith, ground arith)) h

  counted_anew-Keeps :
      (floor : ℕ) (past : List (Output json)) (step : List (Output json) × Connection)
      → Keeps json (Announced floor) (InStep floor) past step
      → Keeps json (Announced floor) (InStep floor) past (counted_anew json step)
  counted_anew-Keeps floor past (sent, c) h = h

  on_timer-Keeps :
      (settings : Settings) (watched : Watched json) (elapsed_secs : ℕ) (past : List (Output json))
      (c : Connection)
      → InStep settings.vardiff.min_diff past c
      → Keeps json
          (Announced settings.vardiff.min_diff)
          (InStep settings.vardiff.min_diff)
          past
          (on_timer json settings watched elapsed_secs c)
  unfolding on_timer
  on_timer-Keeps settings watched elapsed_secs past c h =
      counted_anew-Keeps settings.vardiff.min_diff past
        (if not (diff == c.current_diff) && c.subscribed
          then change_diff json watched diff c
          else ([], c))
        (maybe_change watched settings.vardiff.min_diff diff past c
          (not (diff == c.current_diff) && c.subscribed)
          (λ e. (rated_diff-floor settings.vardiff watched.pool_min elapsed_secs c, ground arith))
          h)
    where
      diff : ℕ
      diff = rated_diff settings.vardiff watched.pool_min elapsed_secs c

  mask_push-Keeps :
      (floor : ℕ) (mask : Option ℕ) (past : List (Output json)) (c : Connection)
      → InStep floor past c
      → Keeps json (Announced floor) (InStep floor) past (mask_push json mask, c)
  mask_push-Keeps floor none past c h = (tt, h)
  mask_push-Keeps floor (some mask) past c h = ((tt, tt), h)

  forwarded-Keeps :
      (floor : ℕ) (id : json.Value) (share : SubmittedShare) (wired : Bool)
      (past : List (Output json)) (c : Connection)
      → c.subscribed ≡ true
      → InStep floor past c
      → Keeps json
          (Announced floor)
          (InStep floor)
          past
          ((if wired then forward share ∷ [] else []) ++ (response id granted ∷ []), c)
  forwarded-Keeps floor id share true past c on (lo, inl (a, off)) =
      absurd (true≢false (sym on ∙ off))
  forwarded-Keeps floor id share true past c on (lo, inr (a, o)) =
      (((c.current_diff, a), (tt, tt)), (lo, inr (a, o)))
  forwarded-Keeps floor id share false past c on h = ((tt, tt), h)

  on_request-Keeps :
      (settings : Settings) (watched : Watched json) (floor : ℕ) (req : Request json)
      (past : List (Output json)) (c : Connection)
      → InStep floor past c
      → Keeps json (Announced floor) (InStep floor) past (on_request json settings watched req c)
  unfolding on_request on_subscribe on_authorize
  on_request-Keeps settings watched floor req past c h = by_method (method_of req.method)
    where
      by_method :
          (method : Method)
          → Keeps json
              (Announced floor)
              (InStep floor)
              past
              (dispatch json method settings watched req c)
      by_method configure =
          on_configure-cases json (InStep floor past) (λ conf m k. k) req c
            (Keeps json (Announced floor) (InStep floor) past) h ((tt, tt), h)
            (λ n conf k.
              let (sent, after) =
                mask_push-Keeps floor n.mask (response req.id (extensions n) ∷ past) conf k in
              ((tt, sent), after))
      by_method subscribe = ((tt, (h.0, tt)), (h.0, inr (refl, refl)))
      by_method authorize =
          let (sent, after) =
            emit_pending-Keeps floor watched.pending (response req.id granted ∷ past) _ h in
          ((tt, sent), after)
      by_method submit =
          on_submit-cases json settings req c (Keeps json (Announced floor) (InStep floor) past)
            (λ complaint. ((tt, tt), h))
            (λ s version on known e.
              forwarded-Keeps floor req.id
                (share_of settings c s version (ring_lookup c.emit_ring s.job_id))
                settings.has_submit_tx past c on h)
      by_method suggest_difficulty = ((tt, tt), h)
      by_method (other_method name) = ((tt, tt), h)

  turn-IsKept :
      (settings : Settings) (watched : Watched json) (event : Event json)
      (past : List (Output json)) (c : Connection)
      → InStep settings.vardiff.min_diff past c
      → IsKept json
          (Announced settings.vardiff.min_diff)
          (InStep settings.vardiff.min_diff)
          past
          (turn json settings watched event c)
  unfolding turn
  turn-IsKept settings watched blank_line past c h = (tt, h)
  turn-IsKept settings watched unparsed_line past c h = ((tt, tt), h)
  turn-IsKept settings watched (request_line req) past c h =
      on_request-Keeps settings watched settings.vardiff.min_diff req past c h
  turn-IsKept settings watched peer_closed past c h = (tt, tt)
  turn-IsKept settings watched notify_changed past c h =
      on_notify-Keeps watched settings.vardiff.min_diff past c h
  turn-IsKept settings watched notify_dropped past c h = (tt, tt)
  turn-IsKept settings watched pool_min_changed past c h =
      on_pool_min-Keeps settings watched past c h
  turn-IsKept settings watched pool_min_dropped past c h = (tt, h)
  turn-IsKept settings watched (timer elapsed_secs) past c h =
      on_timer-Keeps settings watched elapsed_secs past c h

  -- Whatever a connection meets, each job that it sends carries the PoT byte of the difficulty that the
  -- miner was told last, unless it was told none yet, no difficulty that it tells is below the
  -- configured minimum, and it sends no share on before it has told the miner a difficulty.
  pub handle_connection-Announced :
      (settings : Settings) (pool_min : ℕ) (events : List (Watched json × Event json))
      → Trace json
          (Announced settings.vardiff.min_diff)
          []
          (handle_connection json settings pool_min events)
  unfolding handle_connection new_connection
  handle_connection-Announced settings pool_min events =
      turns-Trace json (Announced settings.vardiff.min_diff) (InStep settings.vardiff.min_diff)
        settings (λ watched event past c h. turn-IsKept settings watched event past c h) events []
        (new_connection settings.vardiff pool_min) (omega arith, inl (refl, refl))
