-- ===== src/ShareRelay/Capacity.antt =====
-- The capacity and the order of the job tracker of crates/datum-share-relay/src/lib.rs.
use datum_rs.Common.{
  ℕ, ◌≤◌, ◌<◌, ◌≡◌, refl, ap, arith, true, false, List, [], ◌∷◌, ◌++◌, length, length-append, leb,
  if◌then◌else◌, some, none, Option-cases, drop, length-drop, Bool-cases, inl, inr,
}
use datum_rs.ShareRelay.{JobMeta}
use datum_rs.ShareRelay.Jobs.{
  JobKey, sv1, sv2, JobEntry, JobTracker, same_bytes, same_key, lookup, put, evict, insert,
  contains, new_entry,
}

pub same_bytes_refl : (bs : List ℕ) → same_bytes bs bs ≡ true
same_bytes_refl [] = refl
same_bytes_refl (b ∷ bs) = ground (arith, same_bytes_refl bs)

same_key_refl : (key : JobKey) → same_key key key ≡ true
same_key_refl (sv1 j) = same_bytes_refl j
same_key_refl (sv2 c j) = ground arith

abbrev pub keys : List (JobKey × JobEntry) → List JobKey
keys [] = []
keys ((k, e) ∷ rest) = k ∷ keys rest

-- The order lists the keys of the map as they came in, and there are at most 256.
pub record Tracked (t : JobTracker) : Type 0 where
  pub ordered : keys t.by_key ≡ t.order
  pub bounded : length t.by_key ≤ 256

put_new :
    (key : JobKey) (e : JobEntry) (m : List (JobKey × JobEntry))
    → lookup key m ≡ none
    → put key e m ≡ m ++ ((key, e) ∷ [])
put_new key e [] h = refl
put_new key e ((k, f) ∷ m) h = elim (Bool-cases (same_key key k)) [
  | inl s ↦ ground (arith, s, h)
  | inr s ↦ rw s (ap (◌∷◌ (k, f)) (put_new key e m (ground (arith, s, h))))
]

keys-append : (m n : List (JobKey × JobEntry)) → keys (m ++ n) ≡ keys m ++ keys n
keys-append [] n = refl
keys-append ((k, e) ∷ m) n = ap (◌∷◌ k) (keys-append m n)

lookup-new :
    (key : JobKey) (e : JobEntry) (m : List (JobKey × JobEntry))
    → lookup key m ≡ none
    → lookup key (m ++ ((key, e) ∷ [])) ≡ some e
lookup-new key e [] h = rw (same_key_refl key) refl
lookup-new key e ((k, f) ∷ m) h = elim (Bool-cases (same_key key k)) [
  | inl s ↦ ground (arith, s, h)
  | inr s ↦ rw s (lookup-new key e m (ground (arith, s, h)))
]

-- What is left when room has been made.
abbrev pub kept : List (JobKey × JobEntry) → List (JobKey × JobEntry)
kept m = if leb 256 (length m) then drop 1 m else m

evict-kept : (m : List (JobKey × JobEntry)) → evict m (keys m) ≡ (kept m, keys (kept m))
evict-kept [] = refl
evict-kept ((k, e) ∷ m) = elim (Bool-cases (leb 256 (length ((k, e) ∷ m)))) [
  | inl full ↦ rw (full, same_key_refl k) refl
  | inr room ↦ rw room refl
]

kept-fits : (m : List (JobKey × JobEntry)) → length m ≤ 256 → length (kept m) < 256
kept-fits m h = ground (arith, h, length-drop 1 m)

lookup-kept :
    (key : JobKey) (m : List (JobKey × JobEntry)) → lookup key m ≡ none → lookup key (kept m) ≡ none
lookup-kept key [] h = refl
lookup-kept key ((k, e) ∷ m) h = elim (Bool-cases (leb 256 (length ((k, e) ∷ m)))) [
  | inl full ↦ rw full (elim (Bool-cases (same_key key k)) [
    | inl s ↦ ground (arith, s, h)
    | inr s ↦ ground (arith, s, h)
  ])
  | inr room ↦ rw room h
]

insert-by_key :
    (key : JobKey) (meta : JobMeta) (template_seed : ℕ) (t : JobTracker)
    → Tracked t
    → lookup key t.by_key ≡ none
    → (insert key meta template_seed t).by_key
      ≡ kept t.by_key ++ ((key, new_entry meta template_seed) ∷ [])
unfolding insert
insert-by_key key meta seed t w h =
    rw (← w.ordered, evict-kept t.by_key)
      (put_new key (new_entry meta seed) (kept t.by_key) (lookup-kept key t.by_key h))

insert-order :
    (key : JobKey) (meta : JobMeta) (template_seed : ℕ) (t : JobTracker)
    → Tracked t
    → (insert key meta template_seed t).order ≡ keys (kept t.by_key) ++ (key ∷ [])
unfolding insert
insert-order key meta seed t w = rw (← w.ordered, evict-kept t.by_key) refl

contains-none :
    (key : JobKey) (t : JobTracker) → contains key t ≡ false → lookup key t.by_key ≡ none
unfolding contains
contains-none key t h = elim (Option-cases (lookup key t.by_key)) [
  | inl e ↦ e
  | inr (a, e) ↦ ground (arith, e, h)
]

-- Where the keys are in order and at most 256, inserting a key that is not there keeps both, appends
-- the job, drops the oldest one when the map is full and no other, and the job is found under its key.
pub insert-Tracked :
    (key : JobKey) (meta : JobMeta) (template_seed : ℕ) (t : JobTracker)
    → Tracked t
    → contains key t ≡ false
    → Tracked (insert key meta template_seed t)
      × ((insert key meta template_seed t).by_key
          ≡ kept t.by_key ++ ((key, new_entry meta template_seed) ∷ []))
      × (lookup key (insert key meta template_seed t).by_key ≡ some (new_entry meta template_seed))
insert-Tracked key meta seed t w h =
    let none_there = contains-none key t h in
    let e = insert-by_key key meta seed t w none_there in
    (
      record {
        ordered =
            rw (e, insert-order key meta seed t w)
              (keys-append (kept t.by_key) ((key, new_entry meta seed) ∷ []));
        bounded = rw e (
            omega (
              arith,
              length-append (kept t.by_key) ((key, new_entry meta seed) ∷ []),
              kept-fits t.by_key w.bounded,
            ));
      },
      e,
      rw e (
          lookup-new key (new_entry meta seed) (kept t.by_key)
            (lookup-kept key t.by_key none_there)),
    )
