-- ===== src/ShareRelay/Encoder/Header.antt =====
-- The header that the relay hashes, with the tree that the template's branches come from.
use datum_rs.Common.{
  ℕ, zero, suc, ◌^◌, ◌≤◌, ◌<◌, ◌≡◌, refl, ◌∙◌, arith, List, [], ◌∷◌, ◌++◌, map, length, some, leb,
  ◌==◌, Bool-cases, inl, inr, false,
}
use mathlib.Core.List.{reverse, reverse-reverse}
use datum_rs.Template.Merkle.{merkle_branches_le}
use datum_rs.Template.Merkle.Root.{merkle_root, fold_branches, folded, folded-merkle_root}
use datum_rs.ShareRelay.Encoder.{compute_merkle_root, fold_siblings, floor_pot, log2_below}

fold_siblings-reverse :
    (double_sha256 : List ℕ → List ℕ) (acc : List ℕ) (branches : List (List ℕ))
    → fold_siblings double_sha256 acc (map reverse branches)
      ≡ fold_branches double_sha256 acc branches
unfolding fold_siblings
fold_siblings-reverse h acc [] = refl
fold_siblings-reverse h acc (b ∷ branches) =
    rw (fold_siblings, reverse-reverse b) (fold_siblings-reverse h (h (acc ++ b)) branches)

-- The display-order branches that the template builder makes of at most three transaction ids give the
-- relay the merkle root of the block that has the coinbase, with the share's extranonce, first.
pub compute_merkle_root-merkle_root :
    (double_sha256 : List ℕ → List ℕ) (coinb1 extranonce coinb2 : List ℕ)
    (txids branches : List (List ℕ))
    → length txids ≤ 3
    → merkle_branches_le double_sha256 txids ≡ some branches
    → compute_merkle_root double_sha256 coinb1 extranonce coinb2 (map reverse branches)
      ≡ merkle_root double_sha256
          (length txids)
          (double_sha256 (coinb1 ++ (extranonce ++ coinb2)) ∷ txids)
unfolding compute_merkle_root
compute_merkle_root-merkle_root h c1 xn c2 txids branches few e =
    fold_siblings-reverse h (h (c1 ++ (xn ++ c2))) branches
    ∙ some-injective (folded_here ∙ folded-merkle_root h (h (c1 ++ (xn ++ c2))) txids few)
  where
    folded_here :
        some (fold_branches h (h (c1 ++ (xn ++ c2))) branches)
        ≡ folded h (h (c1 ++ (xn ++ c2))) txids
    folded_here = rw (folded, e) refl

    some-injective : {x y : List ℕ} → some x ≡ some y → x ≡ y
    some-injective q = cc

log2_below-bounds :
    (k x : ℕ) → 0 < x → x < 2 ^ suc k → (2 ^ log2_below k x ≤ x) × (x < 2 ^ suc (log2_below k x))
unfolding log2_below
log2_below-bounds zero x pos lt = (omega arith, lt)
log2_below-bounds (suc k) x pos lt = elim (Bool-cases (leb (2 ^ suc k) x)) [
  | inl e ↦ rw e (ground (arith, e), lt)
  | inr e ↦ rw e (log2_below-bounds k x pos (ground (arith, e)))
]

-- The PoT byte of a difficulty from 1 up to 2^64 - 1 is its base two logarithm, rounded down; that of
-- 0 is 0.
pub floor_pot-log2 :
    (x : ℕ)
    → x < 2 ^ 64
    → (0 < x → (2 ^ floor_pot x ≤ x) × (x < 2 ^ suc (floor_pot x))) × (x ≡ 0 → floor_pot x ≡ 0)
unfolding floor_pot
floor_pot-log2 x small =
    (λ pos. rw (nonzero pos) (log2_below-bounds 63 x pos small), λ z. rw z refl)
  where
    nonzero : 0 < x → (x == 0) ≡ false
    nonzero pos = ground (arith, pos)
