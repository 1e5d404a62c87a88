-- ===== src/Sv1/Connection/Answers.antt =====
-- The responses of `handle_connection` of crates/datum-stratum-sv1/src/server.rs.
use datum_rs.Common.{
  ℕ, ◌≡◌, refl, ap, max, Bool, true, false, not, ◌&&◌, List, [], ◌∷◌, ◌++◌, ◌==◌, if◌then◌else◌,
  Option, some, none,
}
use datum_rs.Sv1.{ring_lookup}
use datum_rs.Sv1.Connection.{
  Json, Method, configure, subscribe, authorize, submit, suggest_difficulty, other_method,
  SubmittedShare, Connection, new_connection, NotifyJob, Request, granted, Output, response,
  error_response, set_version_mask, set_difficulty, notify, forward, Event, blank_line,
  unparsed_line, request_line, peer_closed, notify_changed, notify_dropped, pool_min_changed,
  pool_min_dropped, timer, Watched, Settings,
}
use datum_rs.Sv1.Connection.Cases.{on_configure-cases, on_submit-cases}
use datum_rs.Sv1.Connection.Names.{method_of}
use datum_rs.Sv1.Connection.Requests.{
  unwrap_or, authorized_name, share_of, mask_push, emit_pending, dispatch, on_subscribe,
  on_authorize, on_request,
}
use datum_rs.Sv1.Connection.Steps.{
  change_diff, on_notify, on_pool_min, rated_diff, counted_anew, on_timer, turn, turns,
  handle_connection,
}

module _ (json : Json) where
  -- The ids of the responses, in their order.
  abbrev pub answers : List (Output json) → List json.Value
  answers [] = []
  answers (response id r ∷ rest) = id ∷ answers rest
  answers (error_response id e ∷ rest) = id ∷ answers rest
  answers (set_version_mask m ∷ rest) = answers rest
  answers (set_difficulty d ∷ rest) = answers rest
  answers (notify p job d ∷ rest) = answers rest
  answers (forward s ∷ rest) = answers rest

  -- The ids of the requests up to the end of the connection; a line that is no request has none.
  abbrev pub asked : List (Watched json × Event json) → List json.Value
  asked [] = []
  asked ((w, request_line req) ∷ rest) = req.id ∷ asked rest
  asked ((w, unparsed_line) ∷ rest) = json.null ∷ asked rest
  asked ((w, peer_closed) ∷ rest) = []
  asked ((w, notify_dropped) ∷ rest) = []
  asked ((w, blank_line) ∷ rest) = asked rest
  asked ((w, notify_changed) ∷ rest) = asked rest
  asked ((w, pool_min_changed) ∷ rest) = asked rest
  asked ((w, pool_min_dropped) ∷ rest) = asked rest
  asked ((w, timer secs) ∷ rest) = asked rest

  answers-append : (xs ys : List (Output json)) → answers (xs ++ ys) ≡ answers xs ++ answers ys
  answers-append [] ys = refl
  answers-append (response id r ∷ xs) ys = ap (◌∷◌ id) (answers-append xs ys)
  answers-append (error_response id e ∷ xs) ys = ap (◌∷◌ id) (answers-append xs ys)
  answers-append (set_version_mask m ∷ xs) ys = answers-append xs ys
  answers-append (set_difficulty d ∷ xs) ys = answers-append xs ys
  answers-append (notify p job d ∷ xs) ys = answers-append xs ys
  answers-append (forward s ∷ xs) ys = answers-append xs ys

  abbrev IsSilent : List (Output json) × Connection → Type 0
  IsSilent (sent, c) = answers sent ≡ []

  emit_pending-IsSilent :
      (pending : Option (NotifyJob json)) (c : Connection) → IsSilent (emit_pending json pending c)
  emit_pending-IsSilent none c = refl
  emit_pending-IsSilent (some job) c = refl

  either-IsSilent :
      (b : Bool) (r : List (Output json) × Connection) (c : Connection)
      → IsSilent r
      → IsSilent (if b then r else ([], c))
  either-IsSilent true r c h = h
  either-IsSilent false r c h = refl

  change_diff-IsSilent :
      (watched : Watched json) (diff : ℕ) (c : Connection)
      → IsSilent (change_diff json watched diff c)
  unfolding change_diff
  change_diff-IsSilent watched diff c =
      either-IsSilent c.authorized
        (emit_pending json watched.pending (record c { current_diff = diff }))
        (record c { current_diff = diff })
        (emit_pending-IsSilent watched.pending (record c { current_diff = diff }))

  counted_anew-IsSilent :
      (step : List (Output json) × Connection) → IsSilent step → IsSilent (counted_anew json step)
  counted_anew-IsSilent (sent, c) h = h

  mask_push-answers : (mask : Option ℕ) → answers (mask_push json mask) ≡ []
  mask_push-answers none = refl
  mask_push-answers (some mask) = refl

  forwarded-answers :
      (id : json.Value) (share : SubmittedShare) (wired : Bool)
      → answers ((if wired then forward share ∷ [] else []) ++ (response id granted ∷ [])) ≡ id ∷ []
  forwarded-answers id share true = refl
  forwarded-answers id share false = refl

  abbrev AnswersOnce : json.Value → List (Output json) × Connection → Type 0
  AnswersOnce id (sent, c) = answers sent ≡ id ∷ []

  on_request-AnswersOnce :
      (settings : Settings) (watched : Watched json) (req : Request json) (c : Connection)
      → AnswersOnce req.id (on_request json settings watched req c)
  unfolding on_request on_subscribe on_authorize
  on_request-AnswersOnce settings watched req c = by_method (method_of req.method)
    where
      by_method :
          (method : Method) → AnswersOnce req.id (dispatch json method settings watched req c)
      by_method configure =
          on_configure-cases json (λ conf. Unit) (λ conf m k. tt) req c (AnswersOnce req.id) tt refl
            (λ n conf k. ap (◌∷◌ req.id) (mask_push-answers n.mask))
      by_method subscribe = refl
      by_method authorize = ap (◌∷◌ req.id) (
          emit_pending-IsSilent watched.pending (record c {
            authorized_username = unwrap_or (authorized_name json req) c.authorized_username;
            authorized = true;
          }))
      by_method submit =
          on_submit-cases json settings req c (AnswersOnce req.id) (λ complaint. refl)
            (λ s version on known e.
              forwarded-answers req.id
                (share_of settings c s version (ring_lookup c.emit_ring s.job_id))
                settings.has_submit_tx)
      by_method suggest_difficulty = refl
      by_method (other_method name) = refl

  -- A turn that goes on: its own responses, then those of the rest.
  after_turn :
      (settings : Settings) (step : List (Output json) × Connection)
      (rest : List (Watched json × Event json)) (own : List json.Value)
      → answers step.0 ≡ own
      → ((c : Connection) → answers (turns json settings rest c) ≡ asked rest)
      → answers (step.0 ++ turns json settings rest step.1) ≡ own ++ asked rest
  after_turn settings step rest own h later =
      rw (answers-append step.0 (turns json settings rest step.1), h, later step.1) refl

  turns-answers :
      (settings : Settings) (events : List (Watched json × Event json)) (c : Connection)
      → answers (turns json settings events c) ≡ asked events
  unfolding turns turn on_notify on_pool_min on_timer
  turns-answers settings [] c = refl
  turns-answers settings ((w, blank_line) ∷ rest) c = turns-answers settings rest c
  turns-answers settings ((w, unparsed_line) ∷ rest) c =
      ap (◌∷◌ json.null) (turns-answers settings rest c)
  turns-answers settings ((w, request_line req) ∷ rest) c =
      after_turn settings (on_request json settings w req c) rest (req.id ∷ [])
        (on_request-AnswersOnce settings w req c) (λ d. turns-answers settings rest d)
  turns-answers settings ((w, peer_closed) ∷ rest) c = refl
  turns-answers settings ((w, notify_changed) ∷ rest) c =
      after_turn settings
        (if c.subscribed && c.authorized then emit_pending json w.pending c else ([], c)) rest []
        (either-IsSilent (c.subscribed && c.authorized) (emit_pending json w.pending c) c
          (emit_pending-IsSilent w.pending c))
        (λ d. turns-answers settings rest d)
  turns-answers settings ((w, notify_dropped) ∷ rest) c = refl
  turns-answers settings ((w, pool_min_changed) ∷ rest) c =
      after_turn settings (on_pool_min json settings w c) rest []
        (either-IsSilent _ (change_diff json w (max settings.vardiff.min_diff w.pool_min) c) c
          (change_diff-IsSilent w (max settings.vardiff.min_diff w.pool_min) c))
        (λ d. turns-answers settings rest d)
  turns-answers settings ((w, pool_min_dropped) ∷ rest) c = turns-answers settings rest _
  turns-answers settings ((w, timer secs) ∷ rest) c =
      after_turn settings (on_timer json settings w secs c) rest []
        (counted_anew-IsSilent
          (if not (rated_diff settings.vardiff w.pool_min secs c == c.current_diff) && c.subscribed
            then change_diff json w (rated_diff settings.vardiff w.pool_min secs c) c
            else ([], c))
          (either-IsSilent _ (change_diff json w (rated_diff settings.vardiff w.pool_min secs c) c)
            c (change_diff-IsSilent w (rated_diff settings.vardiff w.pool_min secs c) c)))
        (λ d. turns-answers settings rest d)

  -- Whatever a connection meets, it answers each request line once, with the id of the request and in the
  -- order of the requests, and each line that is no request with a null id, until the connection ends.
  pub handle_connection-answers :
      (settings : Settings) (pool_min : ℕ) (events : List (Watched json × Event json))
      → answers (handle_connection json settings pool_min events) ≡ asked events
  unfolding handle_connection
  handle_connection-answers settings pool_min events =
      turns-answers settings events (new_connection settings.vardiff pool_min)
