-- ===== src/Labeling/Merkle/Inclusion.antt =====
-- The walk along a whole path: from the path of a part to the path of the tree.
use teardrop.Common.{
  Bool-cases, List, [], arith, drop, get_elem?, get_elem?-drop, get_elem?-take, inl, inr, length,
  length-drop, length-take, refl, some, suc, sym, take, zero, ℕ, ◌*◌, ◌++◌, ◌+◌, ◌-◌, ◌/◌, ◌<◌,
  ◌==◌, ◌∙◌, ◌∷◌, ◌≡◌, ◌≤◌,
}
use teardrop.Labeling.Merkle.{climb, shl_1, strip, walk}
use teardrop.Labeling.Merkle.Grow.{walk_perfect}
use teardrop.Labeling.Merkle.Pow.{shl_1-pos}
use teardrop.Labeling.Merkle.Shift.{walk-shl_1}

walk-append :
    (node : ℕ → ℕ → ℕ) (path : List ℕ) (s fn sn result fn' sn' result' : ℕ)
    → walk node path fn sn result ≡ some (fn', sn', result')
    → walk node (path ++ s ∷ []) fn sn result ≡ walk node (s ∷ []) fn' sn' result'
unfolding walk
walk-append node [] s fn sn result fn' sn' result' h = ground arith
walk-append node (t ∷ path) s fn sn result fn' sn' result' h = elim (Bool-cases (sn == 0)) [
  | inl stop ↦ cc (rw (stop, walk) at h)
  | inr go ↦
      let c = climb node fn sn result t in
      let h' = rw (go, walk) at h in
      rw (go, walk) (walk-append node path s c.0 c.1 c.2 fn' sn' result' h')
]

-- The step to the root, from a perfect left part and from a right part.
last_left :
    (node : ℕ → ℕ → ℕ) (result sibling : ℕ)
    → walk node (sibling ∷ []) 0 1 result ≡ some (0, 0, node result sibling)
unfolding walk climb
last_left node result sibling = refl

strip-to-one : (m f : ℕ) → shl_1 m ≤ f → strip f (shl_1 m) (shl_1 m) ≡ (1, 1)
unfolding strip shl_1
strip-to-one zero zero h = absurd (omega arith)
strip-to-one zero (suc f) h = refl
strip-to-one (suc m) zero h = absurd (omega (arith, shl_1-pos m))
strip-to-one (suc m) (suc f) h =
    let half : 2 * shl_1 m / 2 ≡ shl_1 m = omega arith in
    ground (arith, half, shl_1-pos m, strip-to-one m f (omega (arith, shl_1-pos m)))

last_right :
    (node : ℕ → ℕ → ℕ) (m result sibling : ℕ)
    → walk node (sibling ∷ []) (shl_1 m) (shl_1 m) result ≡ some (0, 0, node sibling result)
unfolding walk climb
last_right node m result sibling =
    ground (arith, shl_1-pos m, strip-to-one m (shl_1 m) (omega arith))

-- What the verifier needs of a leaf and its path, at some root.
abbrev pub Proves : (node : ℕ → ℕ → ℕ) (leaves path : List ℕ) (i leaf root : ℕ) → Type 0
Proves node leaves path i leaf root =
    (end : ℕ) × (get_elem? leaves i ≡ some leaf)
    × (walk node path i (length leaves - 1) leaf ≡ some (end, 0, root))

pub Proves-left :
    (node : ℕ → ℕ → ℕ) (leaves path : List ℕ) (m i leaf l r : ℕ)
    → shl_1 m < length leaves
    → length leaves ≤ 2 * shl_1 m
    → i < shl_1 m
    → Proves node (take (shl_1 m) leaves) path i leaf l
    → Proves node leaves (path ++ r ∷ []) i leaf (node l r)
Proves-left node leaves path m i leaf l r low high small (end, at_i, walks) =
    let size : length (take (shl_1 m) leaves) ≡ shl_1 m =
      length-take (shl_1 m) leaves (omega arith) in
    let wide =
      walk_perfect node path m i (length leaves - 1) leaf end l small (omega arith) (omega arith)
        (rw size at walks) in
    (
      0,
      sym (get_elem?-take (shl_1 m) i leaves small) ∙ at_i,
      walk-append node path r i (length leaves - 1) leaf 0 1 l wide ∙ last_left node l r,
    )

pub Proves-right :
    (node : ℕ → ℕ → ℕ) (leaves path : List ℕ) (m i leaf l r : ℕ)
    → shl_1 m < length leaves
    → length leaves ≤ 2 * shl_1 m
    → shl_1 m ≤ i
    → i < length leaves
    → Proves node (drop (shl_1 m) leaves) path (i - shl_1 m) leaf r
    → Proves node leaves (path ++ l ∷ []) i leaf (node l r)
Proves-right node leaves path m i leaf l r low high large inside (end, at_i, walks) =
    let size = length-drop (shl_1 m) leaves in
    let back : shl_1 m + (i - shl_1 m) ≡ i = omega arith in
    let last : shl_1 m + (length leaves - shl_1 m - 1) ≡ length leaves - 1 = omega arith in
    let (m', wide) =
      walk-shl_1 node path m (i - shl_1 m) (length leaves - shl_1 m - 1) leaf end r (omega arith)
        (omega (arith, shl_1-pos m)) (rw size at walks) in
    let wide' = rw (back, last) at wide in
    (
      0,
      rw back at (sym (get_elem?-drop (shl_1 m) (i - shl_1 m) leaves) ∙ at_i),
      walk-append node path l i (length leaves - 1) leaf (shl_1 m') (shl_1 m') r wide'
          ∙ last_right node m' r l,
    )
