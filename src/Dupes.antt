-- ===== src/Dupes.antt =====
-- crates/datum-dupes/src/lib.rs: the filter of duplicate shares. The cache of the lru crate is a parameter;
-- IsLru is what that crate documents of it.
pub mod Window
use datum_rs.Common.{
  ℕ, ◌≡◌, Bool, true, false, ◌&&◌, ◌||◌, not, List, [], ◌∷◌, length, take, max, ◌==◌, if◌then◌else◌,
}

pub record ShareKey : Type 0 where
  pub channel_id : ℕ
  pub sequence : ℕ
  pub ntime : ℕ
  pub version : ℕ
  pub extranonce : ℕ
  pub nonce : ℕ

-- The derived equality.
abbrev pub same_share : ShareKey → ShareKey → Bool
same_share a b =
    (a.channel_id == b.channel_id)
    && ((a.sequence == b.sequence)
        && ((a.ntime == b.ntime)
            && ((a.version == b.version)
                && ((a.extranonce == b.extranonce) && (a.nonce == b.nonce)))))

-- `get` also makes the key the most recent one.
pub record LruCache : Type 1 where
  pub Cache : Type 0
  pub with_capacity : ℕ → Cache
  pub get : ShareKey → Cache → Bool × Cache
  pub put : ShareKey → Cache → Cache

abbrev pub mem : ShareKey → List ShareKey → Bool
mem key [] = false
mem key (k ∷ ks) = same_share key k || mem key ks

abbrev pub without : ShareKey → List ShareKey → List ShareKey
without key [] = []
without key (k ∷ ks) = let rest = without key ks in if same_share key k then rest else (k ∷ rest)

-- A cache of a capacity holds keys, the most recent first: a new one holds none, looking a key up
-- finds whether it is there and moves it to the front, and putting a key moves or adds it to the front,
-- where the last ones beyond the capacity fall out.
pub record IsLru (lru : LruCache) : Type 0 where
  pub keys : lru.Cache → List ShareKey
  pub capacity : lru.Cache → ℕ
  pub new_keys : (n : ℕ) → keys (lru.with_capacity n) ≡ []
  pub new_capacity : (n : ℕ) → capacity (lru.with_capacity n) ≡ n
  pub found : (key : ShareKey) (c : lru.Cache) → (lru.get key c).0 ≡ mem key (keys c)
  pub got_keys :
      (key : ShareKey) (c : lru.Cache)
      → keys (lru.get key c).1 ≡ (if mem key (keys c) then key ∷ without key (keys c) else keys c)
  pub got_capacity : (key : ShareKey) (c : lru.Cache) → capacity (lru.get key c).1 ≡ capacity c
  pub put_keys :
      (key : ShareKey) (c : lru.Cache)
      → keys (lru.put key c) ≡ take (capacity c) (key ∷ without key (keys c))
  pub put_capacity : (key : ShareKey) (c : lru.Cache) → capacity (lru.put key c) ≡ capacity c

module _ (lru : LruCache) where
  -- A capacity of 0 is made 1.
  unfoldable pub new_cache : ℕ → lru.Cache
  new_cache capacity = lru.with_capacity (max capacity 1)

  abbrev pub insert_unless : ShareKey → Bool × lru.Cache → Bool × lru.Cache
  insert_unless key (known, c) = if known then (false, c) else (true, lru.put key c)

  -- Whether the share is novel, and the cache afterwards.
  unfoldable pub check_and_insert : ShareKey → lru.Cache → Bool × lru.Cache
  check_and_insert key c = insert_unless key (lru.get key c)

  -- Shares that are checked one after the other.
  unfoldable pub check_all : List ShareKey → lru.Cache → lru.Cache
  check_all [] c = c
  check_all (key ∷ keys) c = check_all keys (check_and_insert key c).1
