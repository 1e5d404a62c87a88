-- ===== src/Template/Merkle/Count.antt =====
-- The number of branches that build_merkle_branches makes, and its loop over the levels.
use native.Mathlib.Nat.{pow-succ'}
use datum_rs.Common.{
  ℕ, zero, suc, ◌+◌, ◌*◌, ◌^◌, ◌≤◌, ◌<◌, ◌≡◌, refl, List, [], ◌∷◌, ◌++◌, length, length-append,
  Option, some, arith, ltb, get_or, Bool-cases, true, false, inl, inr,
}
use datum_rs.Template.Merkle.{merkle_branches_le, branch_loop, next_level, next_size, zero_hash}

-- `some`, and `extra` more entries than before, the logarithm of the size rounded up, less one.
record Ends (effective_size : ℕ) (branch : List (List ℕ)) (r : Option (List (List ℕ)))
    : Type 0 where
  result : List (List ℕ)
  returned : r ≡ some result
  extra : ℕ
  counted : length result ≡ length branch + extra
  enough : effective_size ≤ 2 ^ suc extra
  least : 2 ^ suc extra < 2 * effective_size

next_size-bounds : (n : ℕ) → 2 ≤ n → (n ≤ 2 * next_size n) × (2 * next_size n ≤ n + 1)
next_size-bounds n h = ground arith

branch_loop_one :
    (double_sha256 : List ℕ → List ℕ) (fuel : ℕ) (level branch : List (List ℕ))
    → branch_loop double_sha256 fuel level 1 branch ≡ some branch
unfolding branch_loop
branch_loop_one h zero level branch = refl
branch_loop_one h (suc fuel) level branch = refl

-- One more level.
Ends-level :
    (n : ℕ) (branch : List (List ℕ)) (sibling : List ℕ) (r : Option (List (List ℕ)))
    → 2 ≤ n
    → Ends (next_size n) (branch ++ (sibling ∷ [])) r
    → Ends n branch r
Ends-level n branch sibling r two e = record {
  result = e.result;
  returned = e.returned;
  extra = suc e.extra;
  counted = omega (arith, e.counted, length-append branch (sibling ∷ []));
  enough = omega (arith, e.enough, next_size-bounds n two, pow-succ' 2 (suc e.extra));
  least =
      omega
        (arith, e.least, next_size-bounds n two, pow-succ' 2 (suc e.extra), pow-succ' 2 e.extra);
}

branch_loop-Ends :
    (double_sha256 : List ℕ → List ℕ) (fuel : ℕ) (level : List (List ℕ)) (n : ℕ)
    (branch : List (List ℕ))
    → 2 ≤ n
    → n ≤ fuel
    → Ends n branch (branch_loop double_sha256 fuel level n branch)
unfolding branch_loop
branch_loop-Ends h zero level n branch two room = absurd (omega arith)
branch_loop-Ends h (suc fuel) level n branch two room = elim (Bool-cases (ltb 1 (next_size n))) [
  | inl e ↦
      rw (more, e)
        (Ends-level n branch (get_or (next_level h level 0 (next_size n)) 1 zero_hash) _ two (
          branch_loop-Ends h fuel (next_level h level 0 (next_size n)) (next_size n)
            (branch ++ (get_or (next_level h level 0 (next_size n)) 1 zero_hash ∷ []))
            (ground (arith, e)) (omega (arith, next_size-bounds n two))))
  | inr e ↦
      rw (more, e)
        (record {
          result = branch;
          returned = rw (one e) (branch_loop_one h fuel (next_level h level 0 1) branch);
          extra = 0;
          counted = omega arith;
          enough = omega (arith, one e, next_size-bounds n two);
          least = omega (arith, two);
        })
]
  where
    more : ltb 1 n ≡ true
    more = ground (arith, two)

    one : ltb 1 (next_size n) ≡ false → next_size n ≡ 1
    one e = ground (arith, e, next_size-bounds n two)

-- The loop over the levels always ends, and the number of branches is the depth of the tree: the
-- least k for which the coinbase and the transactions are at most 2^k.
pub merkle_branches_depth :
    (double_sha256 : List ℕ → List ℕ) (txids : List (List ℕ))
    → (branches : List (List ℕ)) × (merkle_branches_le double_sha256 txids ≡ some branches)
      × (length txids + 1 ≤ 2 ^ length branches)
      × (2 ^ length branches < 2 * (length txids + 1))
unfolding merkle_branches_le
merkle_branches_depth h [] = ([], refl, omega arith, omega arith)
merkle_branches_depth h (t ∷ ts) =
    let e =
      branch_loop-Ends h (suc (length (t ∷ ts))) (t ∷ ts) (length (t ∷ ts) + 1) (t ∷ [])
        (omega arith) (omega arith) in
    (e.result, e.returned, rw (depth e) e.enough, rw (depth e) e.least)
  where
    depth :
        (e : Ends
          (length (t ∷ ts) + 1)
          (t ∷ [])
          (branch_loop h (suc (length (t ∷ ts))) (t ∷ ts) (length (t ∷ ts) + 1) (t ∷ [])))
        → length e.result ≡ suc e.extra
    depth e = omega (arith, e.counted)
