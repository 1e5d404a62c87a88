-- ===== src/Template/Merkle/Root.antt =====
-- The branches against the merkle tree of Bitcoin.
use datum_rs.Common.{
  ℕ, zero, suc, ◌≤◌, List, [], ◌∷◌, ◌++◌, length, ◌≡◌, refl, Option, some, none, arith,
}
use datum_rs.Template.Merkle.{merkle_branches_le, branch_loop, next_level, next_entry}

module _ (double_sha256 : List ℕ → List ℕ) where
  -- One level of the tree: hashes pairwise, the last one with itself where it has no partner.
  abbrev pub pair_up : List (List ℕ) → List (List ℕ)
  pair_up [] = []
  pair_up (a ∷ []) = double_sha256 (a ++ a) ∷ []
  pair_up (a ∷ b ∷ hs) = double_sha256 (a ++ b) ∷ pair_up hs

  abbrev pub merkle_root : ℕ → List (List ℕ) → List ℕ
  merkle_root fuel [] = []
  merkle_root fuel (h ∷ []) = h
  merkle_root zero (a ∷ b ∷ hs) = []
  merkle_root (suc fuel) (a ∷ b ∷ hs) = merkle_root fuel (pair_up (a ∷ b ∷ hs))

  -- A miner's way up: each branch is the right partner.
  abbrev pub fold_branches : List ℕ → List (List ℕ) → List ℕ
  fold_branches acc [] = acc
  fold_branches acc (sibling ∷ branches) = fold_branches (double_sha256 (acc ++ sibling)) branches

  -- The merkle root that a miner folds out of the branches, none where there are no branches.
  abbrev pub folded : List ℕ → List (List ℕ) → Option (List ℕ)
  folded coinbase txids = elim (merkle_branches_le double_sha256 txids) [
    | none ↦ none
    | some branches ↦ some (fold_branches coinbase branches)
  ]

-- With at most three transactions, what is folded from the branches is the merkle root of the block.
pub folded-merkle_root :
    (double_sha256 : List ℕ → List ℕ) (coinbase : List ℕ) (txids : List (List ℕ))
    → length txids ≤ 3
    → folded double_sha256 coinbase txids
      ≡ some (merkle_root double_sha256 (length txids) (coinbase ∷ txids))
unfolding merkle_branches_le branch_loop next_level next_entry
folded-merkle_root h c [] e = refl
folded-merkle_root h c (t ∷ []) e = refl
folded-merkle_root h c (t ∷ u ∷ []) e = refl
folded-merkle_root h c (t ∷ u ∷ v ∷ []) e = refl
folded-merkle_root h c (t ∷ u ∷ v ∷ w ∷ txids) e = absurd (omega arith)

-- With four transactions, the third branch hashes the pair (t u), (v v): each later level of the code
-- pairs the entries 1 and 2, which follow the coinbase's place, where the tree pairs 2 and 3. The
-- merkle root of the block has (v v) with itself there.
pub folded_four :
    (double_sha256 : List ℕ → List ℕ) (coinbase s t u v : List ℕ)
    → (folded double_sha256 coinbase (s ∷ t ∷ u ∷ v ∷ [])
        ≡ some (
            double_sha256 (
              double_sha256 (double_sha256 (coinbase ++ s) ++ double_sha256 (t ++ u))
              ++ double_sha256 (double_sha256 (t ++ u) ++ double_sha256 (v ++ v)))))
      × (merkle_root double_sha256 4 (coinbase ∷ s ∷ t ∷ u ∷ v ∷ [])
          ≡ double_sha256 (
              double_sha256 (double_sha256 (coinbase ++ s) ++ double_sha256 (t ++ u))
              ++ double_sha256 (double_sha256 (v ++ v) ++ double_sha256 (v ++ v))))
unfolding merkle_branches_le branch_loop next_level next_entry
folded_four h c s t u v = (refl, refl)
