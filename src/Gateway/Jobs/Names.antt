-- ===== src/Gateway/Jobs/Names.antt =====
-- The job ids of the assembler of crates/datum-bin/src/main.rs, on the tracker that it shares with the
-- relay and with the SV2 server.
use datum_rs.Common.{
  ℕ, zero, suc, bit_xor, ◌+◌, ◌%◌, ◌^◌, ◌<◌, ◌≡◌, refl, sym, ap, ◌∙◌, arith, Bool, true, false,
  ◌&&◌, not, List, [], ◌∷◌, ◌++◌, length, take, take_front, ◌==◌, ==_iff, leb, All, Option, some,
  none, Bool-cases, inl, inr,
}
use mathlib.Core.Bool.{false≢true}
use mathlib.Core.Option.{none-ne-some}
use datum_rs.Template.State.{TemplateState}
use datum_rs.Sv1.Hex.{hex_fixed, format_08x, from_digits}
use datum_rs.Sv1.Hex.RoundTrip.{from_digits-hex_fixed}
use datum_rs.Sv1.Connection.{Json}
use datum_rs.Sv1.Notify.{notify_from_template_state}
use datum_rs.ShareRelay.{JobMeta, job_meta_of_state}
use datum_rs.ShareRelay.Jobs.{
  JobKey, sv1, sv2, JobEntry, JobTracker, same_bytes, same_key, new_tracker, lookup, remove, put,
  evict, next_idx, new_entry, insert, contains, store, cross_protocol_coinbase_already_seen,
  mark_cross_protocol_coinbase_seen, reset_entries, reset_send_once_flags,
}
use datum_rs.ShareRelay.Encoder.{flagged, flag_of}
use datum_rs.ShareRelay.Relay.{tracker_after}
use datum_rs.ShareRelay.Capacity.{keys, same_bytes_refl}
use datum_rs.Gateway.Jobs.{job_id_of, Assembler, assemble}

length-hex_fixed : (w v : ℕ) → length (hex_fixed w v) ≡ w
length-hex_fixed zero v = refl
length-hex_fixed (suc w) v = ap suc (length-hex_fixed w v)

-- The tick that a job id names.
tick_of : List ℕ → Option ℕ
tick_of id = from_digits 0 (take 8 id)

tick_of-job_id_of :
    (tick datum_job_idx height : ℕ)
    → tick < 2 ^ 32
    → tick_of (job_id_of tick datum_job_idx height) ≡ some tick
unfolding tick_of job_id_of
tick_of-job_id_of tick idx height h =
    ap (from_digits 0) (
      take_front 8 (format_08x tick)
        (hex_fixed 2 idx ++ (hex_fixed 4 (bit_xor (height % 2 ^ 16) 0xC0DE) ++ hex_fixed 2 0))
        (length-hex_fixed 8 tick))
    ∙ from_digits-hex_fixed 8 0 tick (omega arith)
    ∙ ap some (omega arith)

-- An id has sixteen digits, and its fifteenth and sixteenth are those of the coinbase id.
pub length-job_id_of :
    (tick datum_job_idx height : ℕ) → length (job_id_of tick datum_job_idx height) ≡ 16
unfolding job_id_of
length-job_id_of tick idx height = refl

same_bytes-eq : (xs ys : List ℕ) → same_bytes xs ys ≡ true → xs ≡ ys
same_bytes-eq [] [] h = refl
same_bytes-eq [] (y ∷ ys) h = cc
same_bytes-eq (x ∷ xs) [] h = cc
same_bytes-eq (x ∷ xs) (y ∷ ys) h = elim (Bool-cases (x == y)) [
  | inl e ↦ rw ((==_iff x y).0 e) (ap (◌∷◌ y) (same_bytes-eq xs ys (rw e at h)))
  | inr e ↦ absurd (false≢true (rw e at h))
]

some-inj : (a b : ℕ) → ◌≡◌ {A = Option ℕ} (some a) (some b) → a ≡ b
some-inj a b e = cc

-- An SV1 key was given out at a tick before this one.
abbrev IsIssued : ℕ → JobKey → Type 0
IsIssued tick (sv1 id) =
    (k : ℕ) × (datum_job_idx : ℕ) × (height : ℕ) × (k < tick)
    × (id ≡ job_id_of k datum_job_idx height)
IsIssued tick (sv2 c j) = Unit {0}

IsIssued-later : (tick : ℕ) (key : JobKey) → IsIssued tick key → IsIssued (suc tick) key
IsIssued-later tick (sv1 id) (k, idx, height, below, is) = (k, idx, height, omega arith, is)
IsIssued-later tick (sv2 c j) h = tt

new-other :
    (tick datum_job_idx height : ℕ) (key : JobKey)
    → tick < 2 ^ 32
    → IsIssued tick key
    → same_key (sv1 (job_id_of tick datum_job_idx height)) key ≡ false
new-other tick idx height (sv2 c j) h w = refl
new-other tick idx height (sv1 id) h (k, i, g, below, is) =
    elim (Bool-cases (same_bytes (job_id_of tick idx height) id)) [
      | inl same ↦
          let at : tick ≡ k = some-inj tick k (
            sym (tick_of-job_id_of tick idx height h)
            ∙ ap tick_of (same_bytes-eq (job_id_of tick idx height) id same ∙ is)
            ∙ tick_of-job_id_of k i g (omega arith)) in
          absurd (omega (arith, at))
      | inr other ↦ other
    ]

new-absent :
    (tick datum_job_idx height : ℕ) (m : List (JobKey × JobEntry))
    → tick < 2 ^ 32
    → All (IsIssued tick) (keys m)
    → lookup (sv1 (job_id_of tick datum_job_idx height)) m ≡ none
new-absent tick idx height [] h w = refl
new-absent tick idx height ((key, e) ∷ m) h (w, ws) =
    rw (new-other tick idx height key h w) (new-absent tick idx height m h ws)

-- A job that was put is found.
lookup-put :
    (key : JobKey) (entry : JobEntry) (m : List (JobKey × JobEntry))
    → same_key key key ≡ true
    → lookup key (put key entry m) ≡ some entry
lookup-put key entry [] e = rw e
lookup-put key entry ((k, f) ∷ m) e = elim (Bool-cases (same_key key k)) [
  | inl same ↦ rw (same, same)
  | inr other ↦ rw (other, other) (lookup-put key entry m e)
]

-- What the operations of the tracker do to its keys.
module _ (P : JobKey → Type 0) where
  remove-All :
      (key : JobKey) (m : List (JobKey × JobEntry)) → All P (keys m) → All P (keys (remove key m))
  remove-All key [] w = tt
  remove-All key ((k, e) ∷ m) (w, ws) = elim (Bool-cases (same_key key k)) [
    | inl same ↦ rw same ws
    | inr other ↦ rw other (w, remove-All key m ws)
  ]

  put-All :
      (key : JobKey) (entry : JobEntry) (m : List (JobKey × JobEntry))
      → P key
      → All P (keys m)
      → All P (keys (put key entry m))
  put-All key entry [] p w = (p, tt)
  put-All key entry ((k, e) ∷ m) p (w, ws) = elim (Bool-cases (same_key key k)) [
    | inl same ↦ rw same (w, ws)
    | inr other ↦ rw other (w, put-All key entry m p ws)
  ]

  put-All_there :
      (key : JobKey) (entry old : JobEntry) (m : List (JobKey × JobEntry))
      → lookup key m ≡ some old
      → All P (keys m)
      → All P (keys (put key entry m))
  put-All_there key entry old [] e w = absurd (none-ne-some old e)
  put-All_there key entry old ((k, f) ∷ m) e (w, ws) = elim (Bool-cases (same_key key k)) [
    | inl same ↦ rw same (w, ws)
    | inr other ↦ rw other (w, put-All_there key entry old m (rw other at e) ws)
  ]

  evict-All :
      (m : List (JobKey × JobEntry)) (order : List JobKey)
      → All P (keys m)
      → All P (keys (evict m order).0)
  evict-All m [] w = w
  evict-All m (oldest ∷ order) w = elim (Bool-cases (leb 256 (length m))) [
    | inl full ↦ rw full (remove-All oldest m w)
    | inr room ↦ rw room w
  ]

  insert-All :
      (key : JobKey) (meta : JobMeta) (template_seed : ℕ) (t : JobTracker)
      → P key
      → All P (keys t.by_key)
      → All P (keys (insert key meta template_seed t).by_key)
  unfolding insert
  insert-All key meta seed t p w =
      put-All key (new_entry meta seed) _ p (evict-All t.by_key t.order w)

  reset-All : (m : List (JobKey × JobEntry)) → All P (keys m) → All P (keys (reset_entries m))
  reset-All [] w = tt
  reset-All ((k, e) ∷ m) (w, ws) = (w, reset-All m ws)

contains-absent :
    (key : JobKey) (t : JobTracker) → lookup key t.by_key ≡ none → contains key t ≡ false
unfolding contains
contains-absent key t e = rw (contains, e)

-- The states of the assembler with the tracker that it shares: from the start on it makes jobs, the SV2
-- server inserts others, the relay takes shares of tracked jobs, and a reconnect clears the flags.
pub data Reach (json : Json) (boolean : Bool → json.Value) (hex_encode : List ℕ → List ℕ)
    (hex_decode : List ℕ → Option (List ℕ)) : Assembler → Type 0 where
  start : Reach json boolean hex_encode hex_decode (record { tick = 0; jobs = new_tracker })
  assembled :
      (a : Assembler) (state : TemplateState)
      → Reach json boolean hex_encode hex_decode a
      → a.tick + 1 < 2 ^ 32
      → Reach json boolean hex_encode hex_decode
          (assemble hex_encode hex_decode json boolean state a).1
  inserted :
      (a : Assembler) (channel_id job_id : ℕ) (meta : JobMeta) (template_seed : ℕ)
      → Reach json boolean hex_encode hex_decode a
      → Reach json boolean hex_encode hex_decode
          (record a { jobs = insert (sv2 channel_id job_id) meta template_seed a.jobs })
  relayed :
      (a : Assembler) (key : JobKey) (template_seed : ℕ) (entry : JobEntry)
      → Reach json boolean hex_encode hex_decode a
      → lookup key a.jobs.by_key ≡ some entry
      → Reach json boolean hex_encode hex_decode
          (record a { jobs = tracker_after key template_seed entry a.jobs })
  reconnected :
      (a : Assembler)
      → Reach json boolean hex_encode hex_decode a
      → Reach json boolean hex_encode hex_decode (record a { jobs = reset_send_once_flags a.jobs })

module _ (json : Json) (boolean : Bool → json.Value) (hex_encode : List ℕ → List ℕ)
    (hex_decode : List ℕ → Option (List ℕ)) where
  tracker_after-All :
      (P : JobKey → Type 0) (key : JobKey) (template_seed : ℕ) (entry : JobEntry) (t : JobTracker)
      → lookup key t.by_key ≡ some entry
      → All P (keys t.by_key)
      → All P (keys (tracker_after key template_seed entry t).by_key)
  unfolding tracker_after store mark_cross_protocol_coinbase_seen
  tracker_after-All P key seed entry t e w =
      elim (Bool-cases (
        not (cross_protocol_coinbase_already_seen seed entry.meta.coinbase_id t)
        && flag_of
            (flagged entry (
              cross_protocol_coinbase_already_seen seed entry.meta.coinbase_id
                t)).server_has_coinbase
            entry.meta.coinbase_id)) [
              | inl marks ↦ rw marks (put-All_there P key _ entry t.by_key e w)
              | inr stays ↦ rw stays (put-All_there P key _ entry t.by_key e w)
            ]

  weakened : (tick : ℕ) (ks : List JobKey) → All (IsIssued tick) ks → All (IsIssued (suc tick)) ks
  weakened tick [] w = tt
  weakened tick (k ∷ ks) (w, ws) = (IsIssued-later tick k w, weakened tick ks ws)

  -- The tracker after the index is taken has the same jobs.
  next_idx-by_key : (t : JobTracker) → (next_idx t).1.by_key ≡ t.by_key
  unfolding next_idx
  next_idx-by_key t = refl

  abbrev id_at : Assembler → TemplateState → List ℕ
  id_at a state = job_id_of a.tick (next_idx a.jobs).0 state.height

  assembled-IsIssued :
      (a : Assembler) (state : TemplateState)
      → a.tick + 1 < 2 ^ 32
      → All (IsIssued a.tick) (keys a.jobs.by_key)
      → All
          (IsIssued (assemble hex_encode hex_decode json boolean state a).1.tick)
          (keys (assemble hex_encode hex_decode json boolean state a).1.jobs.by_key)
  unfolding assemble
  assembled-IsIssued a state h w =
      let next : (a.tick + 1) % 2 ^ 32 ≡ suc a.tick = omega arith in
      rw next (
        insert-All (IsIssued (suc a.tick)) (sv1 (id_at a state)) _ state.job_id_seed
          (next_idx a.jobs).1 (a.tick, (next_idx a.jobs).0, state.height, omega arith, refl)
          (rw (next_idx-by_key a.jobs) (weakened a.tick (keys a.jobs.by_key) w)))

  Reach-IsIssued :
      (a : Assembler)
      → Reach json boolean hex_encode hex_decode a
      → All (IsIssued a.tick) (keys a.jobs.by_key)
  unfolding new_tracker reset_send_once_flags
  Reach-IsIssued _ start = tt
  Reach-IsIssued _ (assembled a state r h) = assembled-IsIssued a state h (Reach-IsIssued a r)
  Reach-IsIssued _ (inserted a channel_id job_id meta seed r) =
      insert-All (IsIssued a.tick) (sv2 channel_id job_id) meta seed a.jobs tt (Reach-IsIssued a r)
  Reach-IsIssued _ (relayed a key seed entry r e) =
      tracker_after-All (IsIssued a.tick) key seed entry a.jobs e (Reach-IsIssued a r)
  Reach-IsIssued _ (reconnected a r) =
      reset-All (IsIssued a.tick) a.jobs.by_key (Reach-IsIssued a r)

  -- Whatever SV2 jobs are inserted, shares relayed and reconnects made in between, below 2^32 jobs: the
  -- job that the assembler sends next has an id of sixteen digits that no tracked job has, so that none
  -- is replaced; and once it is made, its id leads to its own metadata, with the coinb1 and the place of
  -- the difficulty byte that are sent, and to the seed of its state.
  pub assemble-tracks :
      (a : Assembler) (state : TemplateState)
      → Reach json boolean hex_encode hex_decode a
      → a.tick < 2 ^ 32
      → (length (assemble hex_encode hex_decode json boolean state a).0.job_id ≡ 16)
        × (contains (sv1 (assemble hex_encode hex_decode json boolean state a).0.job_id) a.jobs
            ≡ false)
        × ((meta : JobMeta) × (lookup
                (sv1 (assemble hex_encode hex_decode json boolean state a).0.job_id)
                (assemble hex_encode hex_decode json boolean state a).1.jobs.by_key
              ≡ some (new_entry meta state.job_id_seed))
            × (meta.coinb1_bin ≡ (assemble hex_encode hex_decode json boolean state a).0.coinb1_bin)
            × (meta.target_pot_index
                ≡ (assemble hex_encode hex_decode json boolean state a).0.target_pot_index))
  unfolding assemble insert notify_from_template_state
  assemble-tracks a state r h = (
    length-job_id_of a.tick (next_idx a.jobs).0 state.height,
    contains-absent (sv1 (id_at a state)) a.jobs
        (new-absent a.tick (next_idx a.jobs).0 state.height a.jobs.by_key h (Reach-IsIssued a r)),
    (
      job_meta_of_state (next_idx a.jobs).0 0 state,
      lookup-put (sv1 (id_at a state)) _
          (evict (next_idx a.jobs).1.by_key (next_idx a.jobs).1.order).0
          (same_bytes_refl (id_at a state)),
      refl,
      refl,
    ),
  )
