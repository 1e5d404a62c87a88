-- ===== src/Dupes/Window.antt =====
-- For how long a share is remembered: DupeCache::check_and_insert of crates/datum-dupes/src/lib.rs.
use datum_rs.Common.{
  ℕ, zero, suc, ◌+◌, ◌≤◌, ◌<◌, ◌≡◌, refl, sym, ap, ◌∙◌, arith, true, false, not, List, [], ◌∷◌,
  length, take, Bool-cases, inl, inr,
}
use mathlib.Core.Bool.{false≢true}
use datum_rs.Dupes.{
  ShareKey, same_share, LruCache, mem, without, IsLru, check_and_insert, check_all,
}

same_share_refl : (a : ShareKey) → same_share a a ≡ true
same_share_refl a = ground arith

same_share-eq : (a b : ShareKey) → same_share a b ≡ true → a ≡ b
same_share-eq a b h = ground (arith, h)

mem-take_more :
    (key : ShareKey) (m n : ℕ) (ks : List ShareKey)
    → m ≤ n
    → mem key (take m ks) ≡ true
    → mem key (take n ks) ≡ true
mem-take_more key zero n ks le h = absurd (false≢true h)
mem-take_more key (suc m) zero ks le h = absurd (omega arith)
mem-take_more key (suc m) (suc n) [] le h = h
mem-take_more key (suc m) (suc n) (k ∷ ks) le h = elim (Bool-cases (same_share key k)) [
  | inl same ↦ rw same refl
  | inr other ↦ rw other (mem-take_more key m n ks (omega arith) (rw other at h))
]

-- A key among the first `n`, once another is taken out, is among the first `n` still.
mem-take-without :
    (key other : ShareKey) (n : ℕ) (ks : List ShareKey)
    → same_share other key ≡ false
    → mem key (take n ks) ≡ true
    → mem key (take n (without other ks)) ≡ true
mem-take-without key other zero ks d h = h
mem-take-without key other (suc n) [] d h = h
mem-take-without key other (suc n) (k ∷ ks) d h = elim (Bool-cases (same_share other k)) [
  | inl gone ↦ elim (Bool-cases (same_share key k)) [
    | inl same ↦
        absurd (false≢true (sym d ∙ ap (same_share other) (same_share-eq key k same) ∙ gone))
    | inr apart ↦ rw gone (
        mem-take_more key n (suc n) (without other ks) (omega arith)
          (mem-take-without key other n ks d (rw apart at h)))
  ]
  | inr stays ↦ rw stays (elim (Bool-cases (same_share key k)) [
    | inl same ↦ rw same refl
    | inr apart ↦ rw apart (mem-take-without key other n ks d (rw apart at h))
  ])
]

take-take : (m n : ℕ) (ks : List ShareKey) → m ≤ n → take m (take n ks) ≡ take m ks
take-take zero n ks le = refl
take-take (suc m) zero ks le = absurd (omega arith)
take-take (suc m) (suc n) [] le = refl
take-take (suc m) (suc n) (k ∷ ks) le = ap (◌∷◌ k) (take-take m n ks (omega arith))

apart_too : (a b : ShareKey) → same_share a b ≡ false → same_share b a ≡ false
apart_too a b h = elim (Bool-cases (same_share b a)) [
  | inl same ↦
      absurd (false≢true (sym h ∙ ap (same_share a) (same_share-eq b a same) ∙ same_share_refl a))
  | inr apart ↦ apart
]

module _ (lru : LruCache) (laws : IsLru lru) where
  open laws use {keys, capacity, found, got_keys, got_capacity, put_keys, put_capacity}

  checked-capacity :
      (key : ShareKey) (c : lru.Cache) → capacity (check_and_insert lru key c).1 ≡ capacity c
  unfolding check_and_insert
  checked-capacity key c = elim (Bool-cases (lru.get key c).0) [
    | inl known ↦ rw known (got_capacity key c)
    | inr novel ↦ rw novel (put_capacity key (lru.get key c).1 ∙ got_capacity key c)
  ]

  -- The keys as far as the capacity goes.
  checked-keys :
      (m : ℕ) (key : ShareKey) (c : lru.Cache)
      → m ≤ capacity c
      → take m (keys (check_and_insert lru key c).1) ≡ take m (key ∷ without key (keys c))
  unfolding check_and_insert
  checked-keys m key c le = elim (Bool-cases (mem key (keys c))) [
    | inl there ↦
        let known : (lru.get key c).0 ≡ true = found key c ∙ there in
        rw (known, got_keys key c, there) refl
    | inr absent ↦
        let novel : (lru.get key c).0 ≡ false = found key c ∙ absent in
        rw (novel, put_keys key (lru.get key c).1, got_keys key c, absent, got_capacity key c)
          (take-take m (capacity c) (key ∷ without key (keys c)) le)
  ]

  -- Checking a key leaves it at the front.
  checked-first :
      (key : ShareKey) (c : lru.Cache)
      → 1 ≤ capacity c
      → mem key (take 1 (keys (check_and_insert lru key c).1)) ≡ true
  checked-first key c room = rw (checked-keys 1 key c room, same_share_refl key) refl

  -- Checking another key moves a key down by one place at most.
  checked-next :
      (key other : ShareKey) (n : ℕ) (c : lru.Cache)
      → n < capacity c
      → mem key (take n (keys c)) ≡ true
      → mem key (take (suc n) (keys (check_and_insert lru other c).1)) ≡ true
  checked-next key other n c room h =
      rw (checked-keys (suc n) other c (omega arith)) (elim (Bool-cases (same_share key other)) [
        | inl same ↦ rw same refl
        | inr apart ↦ rw apart (mem-take-without key other n (keys c) (apart_too key other apart) h)
      ])

  kept_through :
      (others : List ShareKey) (key : ShareKey) (n : ℕ) (c : lru.Cache)
      → n + length others ≤ capacity c
      → mem key (take n (keys c)) ≡ true
      → mem key (take (n + length others) (keys (check_all lru others c))) ≡ true
  unfolding check_all
  kept_through [] key n c le h = mem-take_more key n (n + 0) (keys c) (omega arith) h
  kept_through (other ∷ others) key n c le h =
      let more : n + suc (length others) ≡ suc n + length others = omega arith in
      rw more (
        kept_through others key (suc n) (check_and_insert lru other c).1
          (rw (checked-capacity other c) (omega arith))
          (checked-next key other n c (omega arith) h))

  mem-of-take :
      (key : ShareKey) (m : ℕ) (ks : List ShareKey) → mem key (take m ks) ≡ true → mem key ks ≡ true
  mem-of-take key zero ks h = absurd (false≢true h)
  mem-of-take key (suc m) [] h = h
  mem-of-take key (suc m) (k ∷ ks) h = elim (Bool-cases (same_share key k)) [
    | inl same ↦ rw same refl
    | inr other ↦ rw other (mem-of-take key m ks (rw other at h))
  ]

  -- A share is novel for a cache exactly when it is not among its keys, and a new cache has none.
  check_and_insert-mem :
      (key : ShareKey) (c : lru.Cache) → (check_and_insert lru key c).0 ≡ not (mem key (keys c))
  unfolding check_and_insert
  check_and_insert-mem key c = elim (Bool-cases (mem key (keys c))) [
    | inl there ↦ rw (found key c, there) refl
    | inr absent ↦ rw (found key c, absent) refl
  ]

  -- A share that comes again is refused, as long as fewer other shares than the capacity were checked
  -- in between, whatever they are and whatever the filter held before.
  pub check_and_insert-twice :
      (key : ShareKey) (others : List ShareKey) (c : lru.Cache)
      → length others < capacity c
      → (check_and_insert lru key (check_all lru others (check_and_insert lru key c).1)).0 ≡ false
  check_and_insert-twice key others c few =
      check_and_insert-mem key (check_all lru others (check_and_insert lru key c).1)
      ∙ ap not (
          mem-of-take key (1 + length others) _ (
            kept_through others key 1 (check_and_insert lru key c).1
              (rw (checked-capacity key c) (omega arith)) (checked-first key c (omega arith))))
