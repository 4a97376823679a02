-- ===== src/Labeling/Merkle/Paths.antt =====
-- The path of every leaf verifies.
use teardrop.Common.{
  ==_refl, Bool-cases, List, [], arith, drop, false, get_elem?, inl, inr, length, ltb, lt→ltb, none,
  refl, some, suc, sym, take, true, zero, ℕ, ◌++◌, ◌+◌, ◌-◌, ◌<◌, ◌∷◌, ◌≡◌, ◌≤◌, ◌⊎◌,
}
use teardrop.Labeling.Merkle.{
  audit_path, merkle_root, path_on, root_on, shl_1, split, verify_path, walk,
}
use teardrop.Labeling.Merkle.Inclusion.{Proves, Proves-left, Proves-right}
use teardrop.Labeling.Merkle.Total.{merkle_root-root_on, parts, root_on-join}

path_on_left :
    (node : ℕ → ℕ → ℕ) (f k x y i r : ℕ) (path xs : List ℕ)
    → split (length (x ∷ y ∷ xs)) ≡ k
    → i < k
    → path_on node f (take k (x ∷ y ∷ xs)) i ≡ some path
    → merkle_root node (drop k (x ∷ y ∷ xs)) ≡ some r
    → path_on node (suc f) (x ∷ y ∷ xs) i ≡ some (path ++ r ∷ [])
unfolding path_on
path_on_left node f k x y i r path xs at side here other_root =
    let here' = rw (sym at) at here in
    let root' = rw (sym at) at other_root in
    let side' = lt→ltb i (split (length (x ∷ y ∷ xs))) (rw (sym at) at side) in
    rw (side', here', root') refl

path_on_right :
    (node : ℕ → ℕ → ℕ) (f k x y i l : ℕ) (path xs : List ℕ)
    → split (length (x ∷ y ∷ xs)) ≡ k
    → k ≤ i
    → path_on node f (drop k (x ∷ y ∷ xs)) (i - k) ≡ some path
    → merkle_root node (take k (x ∷ y ∷ xs)) ≡ some l
    → path_on node (suc f) (x ∷ y ∷ xs) i ≡ some (path ++ l ∷ [])
unfolding path_on
path_on_right node f k x y i l path xs at side here other_root =
    let here' = rw (sym at) at here in
    let root' = rw (sym at) at other_root in
    let side' : ltb i (split (length (x ∷ y ∷ xs))) ≡ false = ground (arith, at) in
    rw (side', here', root') refl

-- Its path, its root and itself, for a leaf of the tree.
abbrev Included : (ℕ → ℕ → ℕ) → ℕ → List ℕ → ℕ → Type 0
Included node f leaves i =
    (leaf : ℕ) × (path : List ℕ) × (root : ℕ) × (path_on node f leaves i ≡ some path)
    × (root_on node f leaves ≡ some root)
    × Proves node leaves path i leaf root

pub path_on-Included :
    (node : ℕ → ℕ → ℕ) (f : ℕ) (leaves : List ℕ) (i : ℕ)
    → i < length leaves
    → length leaves ≤ f
    → Included node f leaves i
unfolding path_on root_on walk
path_on-Included node f [] i inside enough = absurd (omega arith)
path_on-Included node zero (x ∷ xs) i inside enough = absurd (omega arith)
path_on-Included node (suc f) (x ∷ []) zero inside enough = (x, [], x, refl, refl, (0, refl, refl))
path_on-Included node (suc f) (x ∷ []) (suc i) inside enough = absurd (omega arith)
path_on-Included node (suc f) (x ∷ y ∷ xs) i inside enough =
    let leaves = x ∷ y ∷ xs in
    let (m, at, low, high, left, right, pos) = parts leaves (omega arith) in
    elim (Bool-cases (ltb i (shl_1 m))) [
      | inl small ↦
          let below : i < shl_1 m = ground arith in
          let (leaf, path, l, is_path, is_root, proves) =
            path_on-Included node f (take (shl_1 m) leaves) i (omega arith) (omega arith) in
          let (r, whole, part) =
            merkle_root-root_on node f (drop (shl_1 m) leaves) (omega arith) (omega arith) in
          (
            leaf,
            path ++ r ∷ [],
            node l r,
            path_on_left node f (shl_1 m) x y i r path xs at below is_path whole,
            root_on-join node f (shl_1 m) x y l r xs at is_root part,
            Proves-left node leaves path m i leaf l r low high below proves,
          )
      | inr large ↦
          let above : shl_1 m ≤ i = ground arith in
          let (leaf, path, r, is_path, is_root, proves) =
            path_on-Included node f (drop (shl_1 m) leaves) (i - shl_1 m) (omega arith)
              (omega arith) in
          let (l, whole, part) =
            merkle_root-root_on node f (take (shl_1 m) leaves) (omega arith) (omega arith) in
          (
            leaf,
            path ++ l ∷ [],
            node l r,
            path_on_right node f (shl_1 m) x y i l path xs at above is_path whole,
            root_on-join node f (shl_1 m) x y l r xs at part is_root,
            Proves-right node leaves path m i leaf l r low high above inside proves,
          )
    ]

-- The round trip of an inclusion proof, for a tree of any size: for every position inside the list,
-- `audit_path` and `merkle_root` return, and `verify_path` accepts that path for the leaf at that
-- position and that root.
pub verify_path-audit_path :
    (node : ℕ → ℕ → ℕ) (leaves : List ℕ) (index : ℕ)
    → index < length leaves
    → (leaf : ℕ) × (path : List ℕ) × (root : ℕ) × (get_elem? leaves index ≡ some leaf)
      × (audit_path node leaves index ≡ some path)
      × (merkle_root node leaves ≡ some root)
      × (verify_path node leaf index (length leaves) path root ≡ true)
unfolding audit_path merkle_root verify_path
verify_path-audit_path node leaves index inside =
    let (leaf, path, root, is_path, is_root, (end, at_index, walks)) =
      path_on-Included node (length leaves) leaves index inside (omega arith) in
    let within = lt→ltb index (length leaves) inside in
    (leaf, path, root, at_index, rw within is_path, is_root, rw (within, walks) (==_refl root))

-- The recursion of `merkle_root` ends: a list without a leaf raises, a list with one has a root, and
-- the root is the same with any more fuel than the length of the list.
pub merkle_root_total :
    (node : ℕ → ℕ → ℕ) (leaves : List ℕ) (more : ℕ)
    → ((leaves ≡ []) × (merkle_root node leaves ≡ none))
      ⊎ ((root : ℕ) × (merkle_root node leaves ≡ some root)
          × (root_on node (length leaves + more) leaves ≡ some root))
unfolding merkle_root root_on
merkle_root_total node [] more = inl (refl, refl)
merkle_root_total node (x ∷ xs) more =
    inr (merkle_root-root_on node (length (x ∷ xs) + more) (x ∷ xs) (omega arith) (omega arith))
