-- ===== src/Sv1/Connection/Steps.antt =====
-- The loop of `handle_connection` of crates/datum-stratum-sv1/src/server.rs: one turn for each event. A write
-- that fails ends the connection; here the writes succeed.
use datum_rs.Common.{
  ℕ, ◌+◌, ◌-◌, ◌*◌, ◌/◌, ◌%◌, ◌^◌, min, max, false, ◌&&◌, not, List, [], ◌∷◌, ◌++◌, leb, ltb, ◌==◌,
  if◌then◌else◌, Option, some, none,
}
use datum_rs.Sv2.Vardiff.{VardiffParams}
use datum_rs.Sv1.Connection.{
  Json, parse_error, Connection, new_connection, Output, error_response, set_difficulty, Event,
  blank_line, unparsed_line, request_line, peer_closed, notify_changed, notify_dropped,
  pool_min_changed, pool_min_dropped, timer, Watched, Settings,
}
use datum_rs.Sv1.Connection.Requests.{emit_pending, on_request}

abbrev pub floor_of : VardiffParams → ℕ → ℕ
floor_of vardiff pool_min = max vardiff.min_diff pool_min

-- The difficulty that the rate of the shares asks for, at least the floor.
unfoldable pub rated_diff : VardiffParams → ℕ → ℕ → Connection → ℕ
rated_diff vardiff pool_min elapsed_secs c =
    let window_secs = max elapsed_secs 1 in
    let expected = max ((vardiff.target_shares_min * window_secs % 2 ^ 64 + 59) / 60) 1 in
    let observed = c.shares_since_snap in
    max
      (if leb 16 observed && ltb (min (expected * 2) (2 ^ 64 - 1)) observed
        then min (min (c.current_diff * 2) (2 ^ 64 - 1)) vardiff.max_diff
        else if ltb (min (observed * 2) (2 ^ 64 - 1)) expected
            && leb vardiff.recheck_secs elapsed_secs
        then max (c.current_diff / 2) vardiff.min_diff
        else c.current_diff)
      (floor_of vardiff pool_min)

module _ (json : Json) where
  -- The new difficulty is told to the miner, and the pending job sent again with it.
  unfoldable pub change_diff : Watched json → ℕ → Connection → List (Output json) × Connection
  change_diff watched diff c =
      let changed = record c { current_diff = diff } in
      let (sent, after) =
        if c.authorized then emit_pending json watched.pending changed else ([], changed) in
      (set_difficulty diff ∷ sent, after)

  unfoldable pub on_notify : Watched json → Connection → List (Output json) × Connection
  on_notify watched c =
      if c.subscribed && c.authorized then emit_pending json watched.pending c else ([], c)

  unfoldable pub on_pool_min :
      Settings → Watched json → Connection → List (Output json) × Connection
  on_pool_min settings watched c =
      let floor = floor_of settings.vardiff watched.pool_min in
      if c.pool_min_rx && (ltb c.current_diff floor && c.subscribed)
      then change_diff watched floor c
      else ([], c)

  abbrev pub counted_anew : List (Output json) × Connection → List (Output json) × Connection
  counted_anew (sent, c) = (sent, record c { shares_since_snap = 0 })

  unfoldable pub on_timer :
      Settings → Watched json → ℕ → Connection → List (Output json) × Connection
  on_timer settings watched elapsed_secs c =
      let diff = rated_diff settings.vardiff watched.pool_min elapsed_secs c in
      counted_anew (
        if not (diff == c.current_diff) && c.subscribed
        then change_diff watched diff c
        else ([], c))

  abbrev pub going_on : List (Output json) × Connection → List (Output json) × Option Connection
  going_on (sent, c) = (sent, some c)

  -- One turn of the loop: what is sent, and the state it goes on with, none where it returns.
  unfoldable pub turn :
      Settings → Watched json → Event json → Connection → List (Output json) × Option Connection
  turn settings watched blank_line c = ([], some c)
  turn settings watched unparsed_line c = (error_response json.null parse_error ∷ [], some c)
  turn settings watched (request_line req) c = going_on (on_request json settings watched req c)
  turn settings watched peer_closed c = ([], none)
  turn settings watched notify_changed c = going_on (on_notify watched c)
  turn settings watched notify_dropped c = ([], none)
  turn settings watched pool_min_changed c = going_on (on_pool_min settings watched c)
  turn settings watched pool_min_dropped c = ([], some (record c { pool_min_rx = false }))
  turn settings watched (timer elapsed_secs) c = going_on (on_timer settings watched elapsed_secs c)

  -- The turns of a connection in their order, to the end of the events or of the loop.
  unfoldable pub turns :
      Settings → List (Watched json × Event json) → Connection → List (Output json)
  turns settings [] c = []
  turns settings ((watched, event) ∷ rest) c =
      let (sent, next) = turn settings watched event c in
      sent ++ elim next [ none ↦ [] | some after ↦ turns settings rest after ]

  unfoldable pub handle_connection :
      Settings → ℕ → List (Watched json × Event json) → List (Output json)
  handle_connection settings pool_min events =
      turns settings events (new_connection settings.vardiff pool_min)
