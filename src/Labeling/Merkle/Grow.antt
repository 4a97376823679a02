-- ===== src/Labeling/Merkle/Grow.antt =====
-- The walk in the left part of a tree, which is perfect: the same as in the part alone, and it ends
-- one level below the root.
use teardrop.Common.{
  Bool-cases, List, [], arith, false, inl, inr, some, suc, zero, ℕ, ◌%◌, ◌*◌, ◌-◌, ◌/◌, ◌<◌, ◌==◌,
  ◌∷◌, ◌≡◌, ◌≤◌,
}
use teardrop.Labeling.Merkle.{climb, shl_1, walk}
use teardrop.Labeling.Merkle.Pow.{shl_1-pos}
use teardrop.Labeling.Merkle.Shift.{strip-odd}

climb_perfect :
    (node : ℕ → ℕ → ℕ) (m fn sn result sibling : ℕ)
    → fn < shl_1 (suc m)
    → shl_1 (suc m) ≤ sn
    → (result' : ℕ) × (climb node fn (shl_1 (suc m) - 1) result sibling
        ≡ (fn / 2, shl_1 m - 1, result'))
      × (climb node fn sn result sibling ≡ (fn / 2, sn / 2, result'))
unfolding climb shl_1
climb_perfect node m fn sn result sibling small large = elim (Bool-cases (fn % 2 == 1)) [
  | inl odd ↦
      let here = strip-odd fn fn (shl_1 (suc m) - 1) (ground arith) in
      let there = strip-odd fn fn sn (ground arith) in
      (node sibling result, ground (arith, here), ground (arith, there))
  | inr even ↦ (node result sibling, ground arith, ground arith)
]

pub walk_perfect :
    (node : ℕ → ℕ → ℕ) (path : List ℕ) (m fn sn result end root : ℕ)
    → fn < shl_1 m
    → shl_1 m ≤ sn
    → sn < 2 * shl_1 m
    → walk node path fn (shl_1 m - 1) result ≡ some (end, 0, root)
    → walk node path fn sn result ≡ some (0, 1, root)
unfolding walk shl_1
walk_perfect node [] zero fn sn result end root small low high h = ground arith
walk_perfect node [] (suc m) fn sn result end root small low high h =
    absurd (ground (arith, shl_1-pos m))
walk_perfect node (s ∷ path) zero fn sn result end root small low high h = cc
walk_perfect node (s ∷ path) (suc m) fn sn result end root small low high h =
    let (result', here, there) = climb_perfect node m fn sn result s small low in
    let more : (shl_1 (suc m) - 1 == 0) ≡ false = ground (arith, shl_1-pos m) in
    let h' : walk node path (fn / 2) (shl_1 m - 1) result' ≡ some (end, 0, root) =
      ground (arith, here) in
    let rest =
      walk_perfect node path m (fn / 2) (sn / 2) result' end root (omega arith) (omega arith)
        (omega arith) h' in
    ground (arith, there, rest)
