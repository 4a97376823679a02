-- ===== src/Labeling/Merkle/Total.antt =====
-- The recursions over a tree: the length of the list is enough fuel, and more changes nothing.
use teardrop.Common.{
  List, [], arith, drop, length, length-drop, length-take, refl, some, suc, sym, take, zero, ℕ, ◌*◌,
  ◌-◌, ◌<◌, ◌∷◌, ◌≡◌, ◌≤◌,
}
use teardrop.Labeling.Merkle.{merkle_root, root_on, shl_1, split}
use teardrop.Labeling.Merkle.Pow.{shl_1-pos, split-shl_1}

-- Both parts of a list are shorter than it, and not empty.
pub parts :
    (xs : List ℕ)
    → 1 < length xs
    → (m : ℕ) × (split (length xs) ≡ shl_1 m)
      × (shl_1 m < length xs)
      × (length xs ≤ 2 * shl_1 m)
      × (length (take (shl_1 m) xs) ≡ shl_1 m)
      × (length (drop (shl_1 m) xs) ≡ length xs - shl_1 m)
      × (0 < shl_1 m)
parts xs h =
    let (m, e, low, high) = split-shl_1 (length xs) h in
    (m, e, low, high, length-take (shl_1 m) xs (omega arith), length-drop (shl_1 m) xs, shl_1-pos m)

pub root_on-join :
    (node : ℕ → ℕ → ℕ) (f k x y l r : ℕ) (xs : List ℕ)
    → split (length (x ∷ y ∷ xs)) ≡ k
    → root_on node f (take k (x ∷ y ∷ xs)) ≡ some l
    → root_on node f (drop k (x ∷ y ∷ xs)) ≡ some r
    → root_on node (suc f) (x ∷ y ∷ xs) ≡ some (node l r)
unfolding root_on
root_on-join node f k x y l r xs at left right =
    let left' = rw (sym at) at left in let right' = rw (sym at) at right in rw (left', right') refl

pub root_on_total :
    (node : ℕ → ℕ → ℕ) (f g : ℕ) (xs : List ℕ)
    → 0 < length xs
    → length xs ≤ f
    → length xs ≤ g
    → (r : ℕ) × (root_on node f xs ≡ some r) × (root_on node g xs ≡ some r)
unfolding root_on
root_on_total node f g [] some_leaf enough enough' = absurd (omega arith)
root_on_total node zero g (x ∷ xs) some_leaf enough enough' = absurd (omega arith)
root_on_total node (suc f) zero (x ∷ xs) some_leaf enough enough' = absurd (omega arith)
root_on_total node (suc f) (suc g) (x ∷ []) some_leaf enough enough' = (x, refl, refl)
root_on_total node (suc f) (suc g) (x ∷ y ∷ xs) some_leaf enough enough' =
    let leaves = x ∷ y ∷ xs in
    let (m, at, low, high, left, right, pos) = parts leaves (omega arith) in
    let (l, lf, lg) =
      root_on_total node f g (take (shl_1 m) leaves) (omega arith) (omega arith) (omega arith) in
    let (r, rf, rg) =
      root_on_total node f g (drop (shl_1 m) leaves) (omega arith) (omega arith) (omega arith) in
    (
      node l r,
      root_on-join node f (shl_1 m) x y l r xs at lf rf,
      root_on-join node g (shl_1 m) x y l r xs at lg rg,
    )

pub merkle_root-root_on :
    (node : ℕ → ℕ → ℕ) (f : ℕ) (xs : List ℕ)
    → 0 < length xs
    → length xs ≤ f
    → (r : ℕ) × (merkle_root node xs ≡ some r) × (root_on node f xs ≡ some r)
unfolding merkle_root
merkle_root-root_on node f xs h enough = root_on_total node (length xs) f xs h (omega arith) enough
