-- ===== src/ShareRelay/Once.antt =====
-- How often the relay of crates/datum-share-relay sends the sub-block with the coinbase.
use datum_rs.Common.{
  ℕ, zero, suc, ◌+◌, ◌≤◌, ◌<◌, ◌≡◌, refl, ◌∙◌, arith, Bool, true, false, ◌&&◌, List, [], ◌∷◌, ◌++◌,
  length, set, length-set, leb, ◌==◌, if◌then◌else◌, some, Option-cases, Bool-cases, inl, inr, All,
}
use datum_rs.ShareRelay.Jobs.{
  JobKey, JobEntry, JobTracker, same_key, lookup, remove, put, evict, insert, store, new_entry,
  seen_in, max_jobs, cross_protocol_coinbase_already_seen, mark_cross_protocol_coinbase_seen,
}
use datum_rs.ShareRelay.Encoder.{flagged, flag_of, sends_coinbase}
use datum_rs.ShareRelay.Relay.{
  Step, insert_job, sv1_share, sv2_share, step, tracker_after, pair_sent, sent_by, sent,
}

-- How often a pair stands in a list.
abbrev pub count : ℕ → ℕ → List (ℕ × ℕ) → ℕ
count s c [] = 0
count s c ((s', c') ∷ ps) = (if (s == s') && (c == c') then 1 else 0) + count s c ps

count-append : (s c : ℕ) (ps qs : List (ℕ × ℕ)) → count s c (ps ++ qs) ≡ count s c ps + count s c qs
count-append s c [] qs = omega arith
count-append s c (p ∷ ps) qs = omega (arith, count-append s c ps qs)

-- Each job has eight flags.
abbrev pub EightFlags : JobKey × JobEntry → Type 0
EightFlags (k, e) = length e.server_has_coinbase ≡ 8

put-EightFlags :
    (key : JobKey) (e : JobEntry) (m : List (JobKey × JobEntry))
    → length e.server_has_coinbase ≡ 8
    → All EightFlags m
    → All EightFlags (put key e m)
put-EightFlags key e [] p h = (p, tt)
put-EightFlags key e ((k, f) ∷ m) p (q, h) = elim (Bool-cases (same_key key k)) [
  | inl s ↦ rw s (p, h)
  | inr s ↦ rw s (q, put-EightFlags key e m p h)
]

remove-EightFlags :
    (key : JobKey) (m : List (JobKey × JobEntry)) → All EightFlags m → All EightFlags (remove key m)
remove-EightFlags key [] h = tt
remove-EightFlags key ((k, f) ∷ m) (q, h) = elim (Bool-cases (same_key key k)) [
  | inl s ↦ rw s h
  | inr s ↦ rw s (q, remove-EightFlags key m h)
]

evict-EightFlags :
    (m : List (JobKey × JobEntry)) (order : List JobKey)
    → All EightFlags m
    → All EightFlags ((evict m order).0)
evict-EightFlags m [] h = h
evict-EightFlags m (oldest ∷ order) h = elim (Bool-cases (leb max_jobs (length m))) [
  | inl s ↦ rw s (remove-EightFlags oldest m h)
  | inr s ↦ rw s h
]

lookup-EightFlags :
    (key : JobKey) (m : List (JobKey × JobEntry)) (e : JobEntry)
    → All EightFlags m
    → lookup key m ≡ some e
    → length e.server_has_coinbase ≡ 8
lookup-EightFlags key [] e h l = ground (arith, l)
lookup-EightFlags key ((k, f) ∷ m) e (q, h) l = elim (Bool-cases (same_key key k)) [
  | inl s ↦ ground (arith, s, l, q)
  | inr s ↦ lookup-EightFlags key m e h (ground (arith, s, l))
]

flagged-EightFlags :
    (e : JobEntry) (seen : Bool)
    → length e.server_has_coinbase ≡ 8
    → length (flagged e seen).server_has_coinbase ≡ 8
unfolding flagged
flagged-EightFlags e seen h = elim (Bool-cases (sends_coinbase e seen)) [
  | inl s ↦ rw s (length-set e.server_has_coinbase e.meta.coinbase_id true ∙ h)
  | inr s ↦ rw s h
]

flag_of-set : (flags : List Bool) (i : ℕ) → i < length flags → flag_of (set flags i true) i ≡ true
flag_of-set [] i h = absurd (omega arith)
flag_of-set (f ∷ flags) zero h = refl
flag_of-set (f ∷ flags) (suc i) h = flag_of-set flags i (omega arith)

abbrev weight : ℕ → ℕ → List (ℕ × ℕ) → ℕ
weight s c seen = if seen_in s c seen then 1 else 0

-- What a share sends of a pair counts against the pair's mark.
share-marks :
    (key : JobKey) (seed : ℕ) (e : JobEntry) (t : JobTracker) (s c : ℕ)
    → c < 8
    → length e.server_has_coinbase ≡ 8
    → count s c (pair_sent seed e t) + weight s c t.seen_template_coinbase
      ≤ weight s c (tracker_after key seed e t).seen_template_coinbase
unfolding pair_sent tracker_after sends_coinbase flagged cross_protocol_coinbase_already_seen
    mark_cross_protocol_coinbase_seen store
share-marks key seed e t s c small eight =
    elim (Bool-cases (seen_in seed e.meta.coinbase_id t.seen_template_coinbase)) [
      | inl seen ↦ rw seen (ground (arith, seen))
      | inr unseen ↦ elim (Bool-cases (flag_of e.server_has_coinbase e.meta.coinbase_id)) [
        | inl has ↦ rw (unseen, has) (ground (arith, unseen, has))
        | inr lacks ↦
            rw (unseen, lacks)
              (elim (Bool-cases ((s == seed) && (c == e.meta.coinbase_id))) [
                | inl same ↦
                    rw
                      (
                        same,
                        flag_of-set e.server_has_coinbase e.meta.coinbase_id
                            (ground (arith, same, small, eight)),
                        same,
                      )
                      (ground (arith, same, unseen))
                | inr other ↦
                    rw other
                      (elim (Bool-cases (
                        flag_of (set e.server_has_coinbase e.meta.coinbase_id true)
                          e.meta.coinbase_id)) [
                            | inl m ↦ rw (m, other) (omega arith)
                            | inr m ↦ rw m (omega arith)
                          ])
              ])
      ]
    ]

-- A field of a conditional.
by_key-if :
    (b : Bool) (x y : JobTracker) → x.by_key ≡ y.by_key → (if b then x else y).by_key ≡ y.by_key
by_key-if true x y e = e
by_key-if false x y e = refl

share-EightFlags :
    (key : JobKey) (seed : ℕ) (e : JobEntry) (t : JobTracker)
    → All EightFlags t.by_key
    → length e.server_has_coinbase ≡ 8
    → All EightFlags (tracker_after key seed e t).by_key
unfolding tracker_after store mark_cross_protocol_coinbase_seen
share-EightFlags key seed e t h eight =
    rw
      (by_key-if _
        (mark_cross_protocol_coinbase_seen seed e.meta.coinbase_id (
          store key (flagged e (cross_protocol_coinbase_already_seen seed e.meta.coinbase_id t)) t))
        (store key (flagged e (cross_protocol_coinbase_already_seen seed e.meta.coinbase_id t)) t)
        refl)
      (put-EightFlags key
        (flagged e (cross_protocol_coinbase_already_seen seed e.meta.coinbase_id t)) t.by_key
        (flagged-EightFlags e (cross_protocol_coinbase_already_seen seed e.meta.coinbase_id t)
          eight)
        h)

step-EightFlags :
    (st : Step) (t : JobTracker) → All EightFlags t.by_key → All EightFlags (step st t).by_key
unfolding step insert tracker_after store mark_cross_protocol_coinbase_seen
step-EightFlags (insert_job key meta seed) t h =
    put-EightFlags key (new_entry meta seed) (evict t.by_key t.order).0 refl
      (evict-EightFlags t.by_key t.order h)
step-EightFlags (sv1_share key) t h = elim (Option-cases (lookup key t.by_key)) [
  | inl none_there ↦ rw (step, none_there) h
  | inr (e, found) ↦
      rw (step, found)
        (share-EightFlags key e.template_seed e t h (lookup-EightFlags key t.by_key e h found))
]
step-EightFlags (sv2_share key seed) t h = elim (Option-cases (lookup key t.by_key)) [
  | inl none_there ↦ rw (step, none_there) h
  | inr (e, found) ↦
      rw (step, found) (share-EightFlags key seed e t h (lookup-EightFlags key t.by_key e h found))
]

step-marks :
    (st : Step) (t : JobTracker) (s c : ℕ)
    → c < 8
    → All EightFlags t.by_key
    → count s c (sent_by st t) + weight s c t.seen_template_coinbase
      ≤ weight s c (step st t).seen_template_coinbase
unfolding step sent_by insert
step-marks (insert_job key meta seed) t s c small h = omega arith
step-marks (sv1_share key) t s c small h = elim (Option-cases (lookup key t.by_key)) [
  | inl none_there ↦ rw (step, sent_by, none_there) (omega arith)
  | inr (e, found) ↦
      rw (step, sent_by, found)
        (share-marks key e.template_seed e t s c small (lookup-EightFlags key t.by_key e h found))
]
step-marks (sv2_share key seed) t s c small h = elim (Option-cases (lookup key t.by_key)) [
  | inl none_there ↦ rw (step, sent_by, none_there) (omega arith)
  | inr (e, found) ↦
      rw (step, sent_by, found)
        (share-marks key seed e t s c small (lookup-EightFlags key t.by_key e h found))
]

sent-marks :
    (steps : List Step) (t : JobTracker) (s c : ℕ)
    → c < 8
    → All EightFlags t.by_key
    → count s c (sent steps t) + weight s c t.seen_template_coinbase ≤ 1
unfolding sent
sent-marks [] t s c small h = ground arith
sent-marks (st ∷ steps) t s c small h = omega (
  arith,
  count-append s c (sent_by st t) (sent steps (step st t)),
  step-marks st t s c small h,
  sent-marks steps (step st t) s c small (step-EightFlags st t h),
)

-- Between two reconnects, whatever jobs are inserted and dropped and whichever protocol the shares
-- come by, the sub-block 0x02 is sent at most once for a template seed and a coinbase id below 8; and
-- it is not sent where the tracker has seen the pair.
pub sent_once :
    (steps : List Step) (t : JobTracker) (template_seed coinbase_id : ℕ)
    → coinbase_id < 8
    → All EightFlags t.by_key
    → (count template_seed coinbase_id (sent steps t) ≤ 1)
      × (cross_protocol_coinbase_already_seen template_seed coinbase_id t ≡ true
          → count template_seed coinbase_id (sent steps t) ≡ 0)
unfolding cross_protocol_coinbase_already_seen
sent_once steps t s c small h = (
  omega (arith, sent-marks steps t s c small h),
  λ seen. ground (arith, sent-marks steps t s c small h, seen),
)
