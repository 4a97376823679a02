-- ===== src/Labeling/Merkle.antt =====
-- The Merkle trees of labeling/commitments.py (RFC 6962) and the inclusion proofs of RFC 9162. A
-- digest is a number; `node` is `_node`, sha256 over a tag and two digests that are 64 hex digits,
-- which the columns guarantee.
pub mod Pow
pub mod Shift
pub mod Grow
pub mod Inclusion
pub mod Paths
pub mod Total
use teardrop.Common.{
  Bool, List, Option, [], drop, false, if◌then◌else◌, length, ltb, none, not, some, suc, take, zero,
  ℕ, ◌%◌, ◌&&◌, ◌*◌, ◌++◌, ◌+◌, ◌-◌, ◌/◌, ◌==◌, ◌||◌, ◌∷◌,
}

-- int.bit_length, on fuel: one round for each bit.
unfoldable pub bit_length : ℕ → ℕ → ℕ
bit_length zero n = 0
bit_length (suc f) n = let rest = bit_length f (n / 2) in if n == 0 then 0 else 1 + rest

-- 1 << m
unfoldable pub shl_1 : ℕ → ℕ
shl_1 zero = 1
shl_1 (suc m) = 2 * shl_1 m

unfoldable pub split : ℕ → ℕ
split size = shl_1 (bit_length size (size - 1) - 1)

-- while not fn & 1 and fn != 0: fn >>= 1; sn >>= 1
unfoldable pub strip : ℕ → ℕ → ℕ → ℕ × ℕ
strip zero fn sn = (fn, sn)
strip (suc f) fn sn =
    let rest = strip f (fn / 2) (sn / 2) in if fn % 2 == 0 && not (fn == 0) then rest else (fn, sn)

module _ (node : ℕ → ℕ → ℕ) where
  -- `none` is an exception, or fuel that ran out.
  unfoldable pub root_on : ℕ → List ℕ → Option ℕ
  root_on zero leaves = none
  root_on (suc f) [] = none
  root_on (suc f) (x ∷ []) = some x
  root_on (suc f) (x ∷ y ∷ rest) =
      let leaves = x ∷ y ∷ rest in
      let k = split (length leaves) in
      elim (root_on f (take k leaves)) [
        | none ↦ none
        | some l ↦ elim (root_on f (drop k leaves)) [ none ↦ none | some r ↦ some (node l r) ]
      ]

  -- Each call is on a shorter list, so the length is enough.
  unfoldable pub merkle_root : List ℕ → Option ℕ
  merkle_root leaves = root_on (length leaves) leaves

  abbrev with_sibling : Option (List ℕ) → Option ℕ → Option (List ℕ)
  with_sibling none s = none
  with_sibling (some p) none = none
  with_sibling (some p) (some s) = some (p ++ s ∷ [])

  unfoldable pub path_on : ℕ → List ℕ → ℕ → Option (List ℕ)
  path_on zero leaves index = none
  path_on (suc f) [] index = none
  path_on (suc f) (x ∷ []) index = if index == 0 then some [] else none
  path_on (suc f) (x ∷ y ∷ rest) index =
      let leaves = x ∷ y ∷ rest in
      let k = split (length leaves) in
      let in_left = with_sibling (path_on f (take k leaves) index) (merkle_root (drop k leaves)) in
      let in_right =
        with_sibling (path_on f (drop k leaves) (index - k)) (merkle_root (take k leaves)) in
      if ltb index k then in_left else in_right

  unfoldable pub audit_path : List ℕ → ℕ → Option (List ℕ)
  audit_path leaves index =
      if ltb index (length leaves) then path_on (length leaves) leaves index else none

  -- The body of the loop over the path, past its first test.
  unfoldable pub climb : ℕ → ℕ → ℕ → ℕ → ℕ × ℕ × ℕ
  unfolding strip
  climb fn sn result sibling =
      if fn % 2 == 1 || fn == sn
      then (let (fn', sn') = strip fn fn sn in (fn' / 2, sn' / 2, node sibling result))
      else (fn / 2, sn / 2, node result sibling)

  -- `none` is the `return False` inside the loop.
  unfoldable pub walk : List ℕ → ℕ → ℕ → ℕ → Option (ℕ × ℕ × ℕ)
  walk [] fn sn result = some (fn, sn, result)
  walk (sibling ∷ path) fn sn result =
      let (fn', sn', result') = climb fn sn result sibling in
      let rest = walk path fn' sn' result' in if sn == 0 then none else rest

  unfoldable pub verify_path : ℕ → ℕ → ℕ → List ℕ → ℕ → Bool
  unfolding walk climb
  verify_path leaf index tree_size path root =
      if not (ltb index tree_size) then false else elim (walk path index (tree_size - 1) leaf) [
        | none ↦ false
        | some (_, sn, result) ↦ sn == 0 && result == root
      ]
