-- ===== src/ShareRelay/Jobs.antt =====
-- JobKey, JobEntry and JobTracker of crates/datum-share-relay/src/lib.rs. The hash map from keys to
-- entries is a list of pairs in which a key stands once; the set of seen pairs is a list.
use datum_rs.Common.{
  ℕ, ◌+◌, ◌%◌, ◌^◌, Bool, true, false, ◌&&◌, ◌||◌, List, [], ◌∷◌, ◌++◌, length, replicate, leb,
  ◌==◌, if◌then◌else◌, Option, some, none,
}
use datum_rs.ShareRelay.{JobMeta}

pub data JobKey : Type 0 where
  sv1 : (job_id_hex : List ℕ) → JobKey
  sv2 : (channel_id job_id : ℕ) → JobKey

abbrev pub same_bytes : List ℕ → List ℕ → Bool
same_bytes [] [] = true
same_bytes [] (y ∷ ys) = false
same_bytes (x ∷ xs) [] = false
same_bytes (x ∷ xs) (y ∷ ys) = (x == y) && same_bytes xs ys

abbrev pub same_key : JobKey → JobKey → Bool
same_key (sv1 a) (sv1 b) = same_bytes a b
same_key (sv1 a) (sv2 c j) = false
same_key (sv2 c j) (sv1 b) = false
same_key (sv2 c j) (sv2 d k) = (c == d) && (j == k)

pub record JobEntry : Type 0 where
  pub meta : JobMeta
  pub template_seed : ℕ
  pub server_has_merkle_branches : Bool
  pub server_has_coinbase : List Bool

pub record JobTracker : Type 0 where
  pub by_key : List (JobKey × JobEntry)
  pub order : List JobKey
  pub seen_template_coinbase : List (ℕ × ℕ)
  pub next_datum_idx : ℕ

abbrev pub max_jobs : ℕ
max_jobs = 256

unfoldable pub new_tracker : JobTracker
new_tracker = record { by_key = []; order = []; seen_template_coinbase = []; next_datum_idx = 0 }

-- The hash map: look up, remove, replace or add.
abbrev pub lookup : JobKey → List (JobKey × JobEntry) → Option JobEntry
lookup key [] = none
lookup key ((k, e) ∷ rest) = if same_key key k then some e else lookup key rest

abbrev pub remove : JobKey → List (JobKey × JobEntry) → List (JobKey × JobEntry)
remove key [] = []
remove key ((k, e) ∷ rest) = if same_key key k then rest else ((k, e) ∷ remove key rest)

abbrev pub put : JobKey → JobEntry → List (JobKey × JobEntry) → List (JobKey × JobEntry)
put key entry [] = (key, entry) ∷ []
put key entry ((k, e) ∷ rest) =
    if same_key key k then (k, entry) ∷ rest else ((k, e) ∷ put key entry rest)

unfoldable pub next_idx : JobTracker → ℕ × JobTracker
next_idx t = (
  t.next_datum_idx,
  record {
    by_key = t.by_key;
    order = t.order;
    seen_template_coinbase = t.seen_template_coinbase;
    next_datum_idx = (t.next_datum_idx + 1) % 2 ^ 8;
  },
)

-- The entries and the order after the oldest key has made room, where the map is full.
abbrev pub evict : List (JobKey × JobEntry) → List JobKey → List (JobKey × JobEntry) × List JobKey
evict by_key [] = (by_key, [])
evict by_key (oldest ∷ order) =
    if leb max_jobs (length by_key) then (remove oldest by_key, order) else (by_key, oldest ∷ order)

abbrev pub new_entry : JobMeta → ℕ → JobEntry
new_entry meta template_seed = record {
  meta = meta;
  template_seed = template_seed;
  server_has_merkle_branches = false;
  server_has_coinbase = replicate 8 false;
}

unfoldable pub insert : JobKey → JobMeta → ℕ → JobTracker → JobTracker
insert key meta template_seed t =
    let (by_key, order) = evict t.by_key t.order in
    record {
      by_key = put key (new_entry meta template_seed) by_key;
      order = order ++ (key ∷ []);
      seen_template_coinbase = t.seen_template_coinbase;
      next_datum_idx = t.next_datum_idx;
    }

unfoldable pub contains : JobKey → JobTracker → Bool
contains key t = elim (lookup key t.by_key) [ none ↦ false | some e ↦ true ]

-- `entry` written back through `get_mut`.
unfoldable pub store : JobKey → JobEntry → JobTracker → JobTracker
store key entry t = record {
  by_key = put key entry t.by_key;
  order = t.order;
  seen_template_coinbase = t.seen_template_coinbase;
  next_datum_idx = t.next_datum_idx;
}

abbrev pub seen_in : ℕ → ℕ → List (ℕ × ℕ) → Bool
seen_in seed coinbase_id [] = false
seen_in seed coinbase_id ((s, c) ∷ rest) =
    ((seed == s) && (coinbase_id == c)) || seen_in seed coinbase_id rest

unfoldable pub cross_protocol_coinbase_already_seen : ℕ → ℕ → JobTracker → Bool
cross_protocol_coinbase_already_seen seed coinbase_id t =
    seen_in seed coinbase_id t.seen_template_coinbase

unfoldable pub mark_cross_protocol_coinbase_seen : ℕ → ℕ → JobTracker → JobTracker
mark_cross_protocol_coinbase_seen seed coinbase_id t = record {
  by_key = t.by_key;
  order = t.order;
  seen_template_coinbase = (seed, coinbase_id) ∷ t.seen_template_coinbase;
  next_datum_idx = t.next_datum_idx;
}

abbrev pub reset_entries : List (JobKey × JobEntry) → List (JobKey × JobEntry)
reset_entries [] = []
reset_entries ((k, e) ∷ rest) = (k, new_entry e.meta e.template_seed) ∷ reset_entries rest

unfoldable pub reset_send_once_flags : JobTracker → JobTracker
reset_send_once_flags t = record {
  by_key = reset_entries t.by_key;
  order = t.order;
  seen_template_coinbase = [];
  next_datum_idx = t.next_datum_idx;
}
