-- ===== src/Sv1/Connection/Trace/Shares.antt =====
-- The shares that a connection sends on, and the jobs that they were made for:
-- `handle_connection` of crates/datum-stratum-sv1/src/server.rs.
use Prim.Native.Nat.{bit_and-bitwise}
use mathlib.Core.Option.{some-injective, none-ne-some}
use datum_rs.Common.{
  ℕ, ◌-◌, ◌^◌, ◌≡◌, ◌⊎◌, inl, inr, refl, bit_and, Bool, true, false, ◌&&◌, not, Bool-cases, List,
  [], ◌∷◌, ◌++◌, ◌==◌, if◌then◌else◌, Option, some, none, max,
}
use datum_rs.Common.Bits.{bit_and_twice, bit_and_within}
use datum_rs.ShareRelay.Jobs.{same_bytes}
use datum_rs.Sv1.{EmittedJob, in_slot, ring_lookup, ring_push, emit, patch_coinb1_bytes}
use datum_rs.Sv1.Hex.{format_08x}
use datum_rs.Sv1.Connection.{
  Json, pool_version_mask, Method, configure, subscribe, authorize, submit, suggest_difficulty,
  other_method, SubmittedShare, Connection, new_connection, NotifyJob, Request, granted,
  malformed_configure, unknown_method, extensions, Output, response, error_response,
  set_version_mask, set_difficulty, notify, forward, Event, parse_error, blank_line, unparsed_line,
  request_line, peer_closed, notify_changed, notify_dropped, pool_min_changed, pool_min_dropped,
  timer, Watched, Settings,
}
use datum_rs.Sv1.Connection.Cases.{on_configure-cases, on_submit-cases}
use datum_rs.Sv1.Connection.Names.{method_of}
use datum_rs.Sv1.Connection.Requests.{
  unwrap_or, authorized_name, subscription_of, patch_coinb1_pot_byte, ParsedSubmit, accepted_bits,
  accepted_version, share_of, mask_push, emit_pending, dispatch, on_subscribe, on_authorize,
  on_request,
}
use datum_rs.Sv1.Connection.Steps.{
  change_diff, on_notify, on_pool_min, rated_diff, counted_anew, on_timer, turn, handle_connection,
}
use datum_rs.Sv1.Connection.Trace.{Trace, Keeps, either_way, IsKept, turns-Trace}

accepted_bits-within :
    (enabled : Bool) (mask : ℕ) (raw : Option ℕ) (version : ℕ)
    → bit_and mask pool_version_mask ≡ mask
    → accepted_bits enabled mask raw ≡ some version
    → bit_and version pool_version_mask ≡ version
accepted_bits-within false mask raw version h e =
    rw (← some-injective 0 version e) (bit_and-bitwise 0 pool_version_mask)
accepted_bits-within true mask none version h e = absurd (none-ne-some version e)
accepted_bits-within true mask (some nv) version h e =
    elim (Bool-cases (bit_and nv (2 ^ 32 - 1 - mask) == 0)) [
      | inl is ↦
          rw (← some-injective (bit_and nv mask) version (rw is at e))
            (bit_and_within nv mask pool_version_mask h)
      | inr off ↦ absurd (none-ne-some version (rw off at e))
    ]

module _ (json : Json) where
  abbrev snapshot : NotifyJob json → ℕ → EmittedJob
  snapshot job diff = record {
    job_id = job.job_id;
    patched_coinb1_bin = patch_coinb1_bytes job.coinb1_bin job.target_pot_index diff;
    diff = diff;
  }

  -- A `mining.notify` was sent for this job, at this difficulty and with this coinb1.
  abbrev pub Emitted : EmittedJob → List (Output json) → Type 0
  Emitted e [] = ⊥
  Emitted e (notify p job d ∷ past) = (e ≡ snapshot job d) ⊎ Emitted e past
  Emitted e (set_difficulty d ∷ past) = Emitted e past
  Emitted e (response id r ∷ past) = Emitted e past
  Emitted e (error_response id x ∷ past) = Emitted e past
  Emitted e (set_version_mask m ∷ past) = Emitted e past
  Emitted e (forward s ∷ past) = Emitted e past

  -- A share is of a job that was sent, or says that its job is not known.
  abbrev pub IsBacked : List (Output json) → SubmittedShare → Type 0
  IsBacked past s =
      (bit_and s.version_rolling pool_version_mask ≡ s.version_rolling)
      × ((s.patched_coinb1_bin ≡ none)
          ⊎ ((e : EmittedJob) × Emitted e past
              × (s.patched_coinb1_bin ≡ some e.patched_coinb1_bin)
              × (s.current_diff ≡ e.diff)
              × (same_bytes e.job_id s.job_id ≡ true)))

  abbrev pub Backed : List (Output json) → Output json → Type 0
  Backed past (forward s) = IsBacked past s
  Backed past (set_difficulty d) = Unit
  Backed past (notify p job d) = Unit
  Backed past (response id r) = Unit
  Backed past (error_response id e) = Unit
  Backed past (set_version_mask m) = Unit

  abbrev IsKnown : List (Output json) → Option EmittedJob → Type 0
  IsKnown past none = Unit
  IsKnown past (some e) = Emitted e past

  abbrev Known : List (Output json) → Connection → Type 0
  Known past c =
      (bit_and c.version_rolling_mask pool_version_mask ≡ c.version_rolling_mask)
      × IsKnown past c.emit_ring.newest
      × IsKnown past c.emit_ring.previous

  Emitted-weaken :
      (e : EmittedJob) (o : Output json) (past : List (Output json))
      → Emitted e past
      → Emitted e (o ∷ past)
  Emitted-weaken e (notify p job d) past h = inr h
  Emitted-weaken e (set_difficulty d) past h = h
  Emitted-weaken e (response id r) past h = h
  Emitted-weaken e (error_response id x) past h = h
  Emitted-weaken e (set_version_mask m) past h = h
  Emitted-weaken e (forward s) past h = h

  IsKnown-weaken :
      (slot : Option EmittedJob) (o : Output json) (past : List (Output json))
      → IsKnown past slot
      → IsKnown (o ∷ past) slot
  IsKnown-weaken none o past h = tt
  IsKnown-weaken (some e) o past h = Emitted-weaken e o past h

  Known-weaken :
      (c : Connection) (o : Output json) (past : List (Output json))
      → Known past c
      → Known (o ∷ past) c
  Known-weaken c o past (m, n, p) =
      (m, IsKnown-weaken c.emit_ring.newest o past n, IsKnown-weaken c.emit_ring.previous o past p)

  Matches : List (Output json) → List ℕ → Option EmittedJob → Type 0
  Matches past job_id none = Unit
  Matches past job_id (some e) = Emitted e past × (same_bytes e.job_id job_id ≡ true)

  in_slot-Matches :
      (past : List (Output json)) (job_id : List ℕ) (slot otherwise : Option EmittedJob)
      → IsKnown past slot
      → Matches past job_id otherwise
      → Matches past job_id (in_slot slot job_id otherwise)
  unfolding Matches
  in_slot-Matches past job_id none otherwise h k = k
  in_slot-Matches past job_id (some e) otherwise h k = by_test (same_bytes e.job_id job_id) refl
    where
      by_test :
          (b : Bool)
          → same_bytes e.job_id job_id ≡ b
          → Matches past job_id (if b then some e else otherwise)
      by_test true q = (h, q)
      by_test false q = k

  ring_lookup-Matches :
      (past : List (Output json)) (job_id : List ℕ) (c : Connection)
      → Known past c
      → Matches past job_id (ring_lookup c.emit_ring job_id)
  unfolding ring_lookup Matches
  ring_lookup-Matches past job_id c (m, n, p) =
      in_slot-Matches past job_id c.emit_ring.newest (in_slot c.emit_ring.previous job_id none) n
        (in_slot-Matches past job_id c.emit_ring.previous none p tt)

  share_of-IsBacked :
      (settings : Settings) (past : List (Output json)) (c : Connection) (s : ParsedSubmit)
      (version : ℕ) (emitted : Option EmittedJob)
      → bit_and version pool_version_mask ≡ version
      → Matches past s.job_id emitted
      → IsBacked past (share_of settings c s version emitted)
  unfolding Matches
  share_of-IsBacked settings past c s version none m h = (m, inl refl)
  share_of-IsBacked settings past c s version (some e) m h = (m, inr (e, h.0, refl, refl, h.1))

  emit_pending-Known :
      (pending : Option (NotifyJob json)) (past : List (Output json)) (c : Connection)
      → Known past c
      → Keeps json Backed Known past (emit_pending json pending c)
  unfolding emit ring_push
  emit_pending-Known none past c h = (tt, h)
  emit_pending-Known (some job) past c (m, n, p) = (
    (tt, tt),
    (m, inl refl, IsKnown-weaken c.emit_ring.newest (notify patched job c.current_diff) past n),
  )
    where
      patched : json.Value
      patched = patch_coinb1_pot_byte json job.params job.target_pot_index c.current_diff

  change_diff-Known :
      (watched : Watched json) (diff : ℕ) (past : List (Output json)) (c : Connection)
      → Known past c
      → Keeps json Backed Known past (change_diff json watched diff c)
  unfolding change_diff
  change_diff-Known watched diff past c h =
      let (sent, after) =
        either_way json Backed Known (set_difficulty diff ∷ past) c.authorized
          (emit_pending json watched.pending changed) ([], changed)
          (λ e. emit_pending-Known watched.pending (set_difficulty diff ∷ past) changed told)
          (tt, told) in
      ((tt, sent), after)
    where
      changed : Connection
      changed = record c { current_diff = diff }

      told : Known (set_difficulty diff ∷ past) changed
      told = Known-weaken c (set_difficulty diff) past h

  maybe_change :
      (watched : Watched json) (diff : ℕ) (past : List (Output json)) (c : Connection)
      (changes : Bool)
      → Known past c
      → Keeps json Backed Known past (if changes then change_diff json watched diff c else ([], c))
  maybe_change watched diff past c changes h =
      either_way json Backed Known past changes (change_diff json watched diff c) ([], c)
        (λ e. change_diff-Known watched diff past c h) (tt, h)

  counted_anew-Known :
      (past : List (Output json)) (step : List (Output json) × Connection)
      → Keeps json Backed Known past step
      → Keeps json Backed Known past (counted_anew json step)
  counted_anew-Known past (sent, c) h = h

  mask_push-Known :
      (mask : Option ℕ) (past : List (Output json)) (c : Connection)
      → Known past c
      → Keeps json Backed Known past (mask_push json mask, c)
  mask_push-Known none past c h = (tt, h)
  mask_push-Known (some mask) past c h =
      ((tt, tt), Known-weaken c (set_version_mask (format_08x mask)) past h)

  forwarded-Known :
      (id : json.Value) (share : SubmittedShare) (wired : Bool) (past : List (Output json))
      (c : Connection)
      → IsBacked past share
      → Known past c
      → Keeps json Backed Known past
          ((if wired then forward share ∷ [] else []) ++ (response id granted ∷ []), c)
  forwarded-Known id share true past c b h = (
    (b, (tt, tt)),
    Known-weaken c (response id granted) (forward share ∷ past)
        (Known-weaken c (forward share) past h),
  )
  forwarded-Known id share false past c b h =
      ((tt, tt), Known-weaken c (response id granted) past h)

  on_request-Known :
      (settings : Settings) (watched : Watched json) (req : Request json)
      (past : List (Output json)) (c : Connection)
      → Known past c
      → Keeps json Backed Known past (on_request json settings watched req c)
  unfolding on_request on_subscribe on_authorize accepted_version
  on_request-Known settings watched req past c h = by_method (method_of req.method)
    where
      answered : (o : Output json) → Known (o ∷ past) c
      answered o = Known-weaken c o past h

      welcome : Output json
      welcome = response req.id (subscription_of settings)

      by_method :
          (method : Method)
          → Keeps json Backed Known past (dispatch json method settings watched req c)
      by_method configure =
          on_configure-cases json (λ conf. Known past conf)
            (λ conf m k. (bit_and_twice m pool_version_mask, k.1, k.2)) req c
            (Keeps json Backed Known past) h
            ((tt, tt), answered (error_response req.id malformed_configure))
            (λ n conf k.
              let (sent, after) =
                mask_push-Known n.mask (response req.id (extensions n) ∷ past) conf
                  (Known-weaken conf (response req.id (extensions n)) past k) in
              ((tt, sent), after))
      by_method subscribe = (
        (tt, (tt, tt)),
        Known-weaken c (set_difficulty c.current_diff) (welcome ∷ past) (answered welcome),
      )
      by_method authorize =
          let (sent, after) =
            emit_pending-Known watched.pending (response req.id granted ∷ past)
              (record c {
                authorized_username = unwrap_or (authorized_name json req) c.authorized_username;
                authorized = true;
              })
              (answered (response req.id granted)) in
          ((tt, sent), after)
      by_method submit =
          on_submit-cases json settings req c (Keeps json Backed Known past)
            (λ complaint. ((tt, tt), answered (error_response req.id complaint)))
            (λ s version on known e.
              forwarded-Known req.id
                (share_of settings c s version (ring_lookup c.emit_ring s.job_id))
                settings.has_submit_tx past c
                (share_of-IsBacked settings past c s version (ring_lookup c.emit_ring s.job_id)
                  (accepted_bits-within c.version_rolling_enabled c.version_rolling_mask
                    s.version_rolling_raw version h.0 e)
                  (ring_lookup-Matches past s.job_id c h))
                h)
      by_method suggest_difficulty = ((tt, tt), answered (response req.id granted))
      by_method (other_method name) =
          ((tt, tt), answered (error_response req.id (unknown_method name)))

  turn-IsKept :
      (settings : Settings) (watched : Watched json) (event : Event json)
      (past : List (Output json)) (c : Connection)
      → Known past c
      → IsKept json Backed Known past (turn json settings watched event c)
  unfolding turn on_notify on_pool_min on_timer
  turn-IsKept settings watched blank_line past c h = (tt, h)
  turn-IsKept settings watched unparsed_line past c h =
      ((tt, tt), Known-weaken c (error_response json.null parse_error) past h)
  turn-IsKept settings watched (request_line req) past c h =
      on_request-Known settings watched req past c h
  turn-IsKept settings watched peer_closed past c h = (tt, tt)
  turn-IsKept settings watched notify_changed past c h =
      either_way json Backed Known past (c.subscribed && c.authorized)
        (emit_pending json watched.pending c) ([], c)
        (λ e. emit_pending-Known watched.pending past c h) (tt, h)
  turn-IsKept settings watched notify_dropped past c h = (tt, tt)
  turn-IsKept settings watched pool_min_changed past c h =
      maybe_change watched (max settings.vardiff.min_diff watched.pool_min) past c _ h
  turn-IsKept settings watched pool_min_dropped past c h = (tt, h)
  turn-IsKept settings watched (timer elapsed_secs) past c h =
      counted_anew-Known past
        (if not (rated_diff settings.vardiff watched.pool_min elapsed_secs c == c.current_diff)
            && c.subscribed
          then change_diff json watched
              (rated_diff settings.vardiff watched.pool_min elapsed_secs c) c
          else ([], c))
        (maybe_change watched (rated_diff settings.vardiff watched.pool_min elapsed_secs c) past c _
          h)

  -- Whatever a connection meets, each share that it sends on rolls only version bits that the pool
  -- allows, and either says that its job is not known or carries the coinb1 and the difficulty of a
  -- `mining.notify` that the connection sent before for the job id that the share names.
  pub handle_connection-Backed :
      (settings : Settings) (pool_min : ℕ) (events : List (Watched json × Event json))
      → Trace json Backed [] (handle_connection json settings pool_min events)
  unfolding handle_connection new_connection
  handle_connection-Backed settings pool_min events =
      turns-Trace json Backed Known settings
        (λ watched event past c h. turn-IsKept settings watched event past c h) events []
        (new_connection settings.vardiff pool_min) (refl, tt, tt)
