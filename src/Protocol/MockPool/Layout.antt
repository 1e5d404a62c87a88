-- ===== src/Protocol/MockPool/Layout.antt =====
-- Where the fields of the hello and of the pool's response stand: find_nk of
-- crates/datum-protocol/src/mock_pool.rs and the slices that both sides take.
use datum_rs.Common.{
  ℕ, ◌^◌, ◌<◌, ◌≡◌, refl, ap, ◌∙◌, arith, true, false, List, [], ◌∷◌, ◌++◌, length, take, drop,
  slice, length-append, take_front, drop_front, drop_add, some, Option, to_le_bytes,
  length-to_le_bytes, from_le_bytes-to_le_bytes, ltb, append_assoc,
}
use datum_rs.Protocol.Handshake.{contains_nul}
use datum_rs.Protocol.Client.{until_nul, same_bytes}
use datum_rs.Protocol.MockPool.{nul_offset, nk_behind, nk_found, nk_after, find_nk}

pub same_bytes_self : (xs : List ℕ) → same_bytes xs xs ≡ true
same_bytes_self [] = refl
same_bytes_self (x ∷ xs) = ground (arith, same_bytes_self xs)

pub until_nul-text :
    (text : List ℕ) → contains_nul text ≡ false → until_nul (text ++ (0 ∷ [])) ≡ text
unfolding until_nul contains_nul
until_nul-text [] h = refl
until_nul-text (b ∷ bs) h = ground (arith, until_nul-text bs)

nul_offset-text :
    (text rest : List ℕ)
    → contains_nul text ≡ false
    → nul_offset (text ++ (0 ∷ rest)) ≡ some (length text)
unfolding nul_offset contains_nul
nul_offset-text [] rest h = refl
nul_offset-text (b ∷ bs) rest h = ground (arith, nul_offset-text bs rest)

pub contains_nul-append :
    (xs ys : List ℕ)
    → contains_nul xs ≡ false
    → contains_nul ys ≡ false
    → contains_nul (xs ++ ys) ≡ false
unfolding contains_nul
contains_nul-append [] ys h k = k
contains_nul-append (x ∷ xs) ys h k = ground (arith, contains_nul-append xs ys)

-- The text without a NUL, its NUL, the sentinel and `nk`.
nk_after-text :
    (text rest : List ℕ) (nk : ℕ)
    → contains_nul text ≡ false
    → nk < 2 ^ 32
    → nk_after (text ++ (0 ∷ (0xfe ∷ (to_le_bytes 4 nk ++ rest)))) ≡ some nk
unfolding nk_after nk_behind
nk_after-text text rest nk plain small =
    ap (λ (o : Option ℕ). nk_found o (text ++ behind)) (nul_offset-text text tail plain)
    ∙ ap nk_behind (drop_front (length text) text behind refl)
    ∙ found
  where
    tail : List ℕ
    tail = 0xfe ∷ (to_le_bytes 4 nk ++ rest)

    behind : List ℕ
    behind = 0 ∷ tail

    enough : ltb (length (to_le_bytes 4 nk ++ rest)) 4 ≡ false
    enough = ground (arith, length-append (to_le_bytes 4 nk) rest, length-to_le_bytes 4 nk)

    found : nk_behind behind ≡ some nk
    found = rw (
      enough,
      take_front 4 (to_le_bytes 4 nk) rest (length-to_le_bytes 4 nk),
      from_le_bytes-to_le_bytes 4 nk (omega arith),
    )

-- Four keys and what stands behind them.
abbrev pub keys_then : List ℕ → List ℕ → List ℕ → List ℕ → List ℕ → List ℕ
keys_then a b d e t = a ++ (b ++ (d ++ (e ++ t)))

-- The keys have 32 bytes.
module _ (a b d e t : List ℕ) (la : length a ≡ 32) (lb : length b ≡ 32) (ld : length d ≡ 32)
    (le : length e ≡ 32) where
  abbrev keyed : List ℕ
  keyed = keys_then a b d e t

  from_second : drop 32 keyed ≡ b ++ (d ++ (e ++ t))
  from_second = drop_front 32 a (b ++ (d ++ (e ++ t))) la

  from_third : drop 64 keyed ≡ d ++ (e ++ t)
  from_third = drop_add 32 32 keyed ∙ ap (drop 32) from_second ∙ drop_front 32 b (d ++ (e ++ t)) lb

  from_fourth : drop 96 keyed ≡ e ++ t
  from_fourth = drop_add 64 32 keyed ∙ ap (drop 32) from_third ∙ drop_front 32 d (e ++ t) ld

  pub drop-keyed : drop 128 keyed ≡ t
  drop-keyed = drop_add 96 32 keyed ∙ ap (drop 32) from_fourth ∙ drop_front 32 e t le

  pub first_key : slice keyed 0 32 ≡ a
  first_key = take_front 32 a (b ++ (d ++ (e ++ t))) la

  pub second_key : slice keyed 32 32 ≡ b
  second_key = ap (take 32) from_second ∙ take_front 32 b (d ++ (e ++ t)) lb

  pub third_key : slice keyed 64 32 ≡ d
  third_key = ap (take 32) from_third ∙ take_front 32 d (e ++ t) ld

  pub fourth_key : slice keyed 96 32 ≡ e
  fourth_key = ap (take 32) from_fourth ∙ take_front 32 e t le

  pub take-keyed : take 128 keyed ≡ a ++ (b ++ (d ++ e))
  take-keyed =
      ap (take 128) (simp append_assoc)
      ∙ take_front 128 (a ++ (b ++ (d ++ e))) t (
          omega
            (arith, length-append a (b ++ (d ++ e)), length-append b (d ++ e), length-append d e))

  pub find_nk-keyed :
      (text rest : List ℕ) (nk : ℕ)
      → contains_nul text ≡ false
      → nk < 2 ^ 32
      → t ≡ text ++ (0 ∷ (0xfe ∷ (to_le_bytes 4 nk ++ rest)))
      → find_nk keyed 128 ≡ some nk
  unfolding find_nk
  find_nk-keyed text rest nk plain small is =
      ap nk_after (drop-keyed ∙ is) ∙ nk_after-text text rest nk plain small
