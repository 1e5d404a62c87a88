-- ===== src/Template/Merkle.antt =====
-- build_merkle_branches of crates/datum-blocktemplates/src/template_state.rs. The double SHA-256 and the
-- hex decoder are third-party code: parameters.
pub mod Root
pub mod Count
use datum_rs.Common.{
  ℕ, zero, suc, ◌+◌, ◌-◌, ◌*◌, ◌/◌, ◌%◌, Bool, List, [], ◌∷◌, ◌++◌, map, length, replicate, get_or,
  ltb, ◌==◌, if◌then◌else◌, not, Option, some, none,
}
use mathlib.Core.List.{reverse}
use datum_rs.Template.{Template, TemplateTransaction}

abbrev pub zero_hash : List ℕ
zero_hash = replicate 32 0

-- Txids are display hex, big-endian; the tree takes them reversed. An id that does not decode, or to
-- another length, is zero.
unfoldable pub txid_le : (List ℕ → Option (List ℕ)) → TemplateTransaction → List ℕ
txid_le hex_decode t = elim (hex_decode t.txid) [
  | none ↦ zero_hash
  | some b ↦ if length b == 32 then reverse b else zero_hash
]

abbrev pub next_size : ℕ → ℕ
next_size effective_size =
    (if not (effective_size % 2 == 0) then effective_size + 1 else effective_size) / 2

module _ (double_sha256 : List ℕ → List ℕ) where
  -- Entry `i` of the next level; entry 0 is the coinbase's place, and holds zeros.
  unfoldable pub next_entry : List (List ℕ) → ℕ → List ℕ
  next_entry current_level zero = zero_hash
  next_entry current_level (suc j) =
      let left = get_or current_level (suc j * 2 - 1) zero_hash in
      let right =
        (if ltb (suc j * 2) (length current_level)
          then get_or current_level (suc j * 2) zero_hash
          else left) in
      double_sha256 (left ++ right)

  -- `for i in start..start + count`.
  unfoldable pub next_level : List (List ℕ) → ℕ → ℕ → List (List ℕ)
  next_level current_level start zero = []
  next_level current_level start (suc count) =
      next_entry current_level start ∷ next_level current_level (suc start) count

  -- `while effective_size > 1`; none says that the fuel ran out.
  unfoldable pub branch_loop : ℕ → List (List ℕ) → ℕ → List (List ℕ) → Option (List (List ℕ))
  branch_loop zero current_level effective_size branch =
      if ltb 1 effective_size then none else some branch
  branch_loop (suc fuel) current_level effective_size branch =
      let size = next_size effective_size in
      let level = next_level current_level 0 size in
      let branch' = (if ltb 1 size then branch ++ (get_or level 1 zero_hash ∷ []) else branch) in
      let more = branch_loop fuel level size branch' in
      if ltb 1 effective_size then more else some branch

  unfoldable pub merkle_branches_le : List (List ℕ) → Option (List (List ℕ))
  merkle_branches_le [] = some []
  merkle_branches_le (t ∷ ts) =
      branch_loop (suc (length (t ∷ ts))) (t ∷ ts) (length (t ∷ ts) + 1) (t ∷ [])

  unfoldable pub build_merkle_branches :
      (List ℕ → Option (List ℕ)) → Template → Option (List (List ℕ))
  build_merkle_branches hex_decode template =
      elim (merkle_branches_le (map (txid_le hex_decode) template.transactions)) [
        | none ↦ none
        | some branch ↦ some (map reverse branch)
      ]
