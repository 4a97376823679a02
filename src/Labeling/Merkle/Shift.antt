-- ===== src/Labeling/Merkle/Shift.antt =====
-- The walk in the right part of a tree: the same as in the part alone, with a power of two, that
-- shrinks with every level, on top of both counters.
use teardrop.Common.{
  Bool-cases, List, [], arith, false, inl, inr, refl, some, suc, zero, ℕ, ◌%◌, ◌+◌, ◌/◌, ◌<◌, ◌==◌,
  ◌∷◌, ◌≡◌, ◌≤◌,
}
use teardrop.Labeling.Merkle.{climb, shl_1, strip, walk}

pub strip-odd : (f fn sn : ℕ) → fn % 2 ≡ 1 → strip f fn sn ≡ (fn, sn)
unfolding strip
strip-odd zero fn sn odd = refl
strip-odd (suc f) fn sn odd = ground arith

strip-shl_1 :
    (m f g fn : ℕ)
    → 0 < fn
    → fn < shl_1 m
    → fn ≤ f
    → shl_1 m + fn ≤ g
    → (m' : ℕ) × (fn' : ℕ) × (strip f fn fn ≡ (fn', fn'))
      × (strip g (shl_1 m + fn) (shl_1 m + fn) ≡ (shl_1 m' + fn', shl_1 m' + fn'))
      × (fn' < shl_1 m')
      × (fn' % 2 ≡ 1)
unfolding strip shl_1
strip-shl_1 zero f g fn pos small enough enough' = absurd (omega arith)
strip-shl_1 (suc m) zero g fn pos small enough enough' = absurd (omega arith)
strip-shl_1 (suc m) (suc f) zero fn pos small enough enough' = absurd (omega arith)
strip-shl_1 (suc m) (suc f) (suc g) fn pos small enough enough' = elim (Bool-cases (fn % 2 == 0)) [
  | inr odd ↦ (suc m, fn, ground arith, ground arith, small, ground arith)
  | inl even ↦
      let half : (shl_1 (suc m) + fn) / 2 ≡ shl_1 m + fn / 2 = ground arith in
      let (m', fn', here, there, below, last) =
        strip-shl_1 m f g (fn / 2) (ground arith) (omega arith) (omega arith) (omega arith) in
      (m', fn', ground (arith, here), ground (arith, there, half), below, last)
]

-- The last shift of a round, from an odd number.
halve-shl_1 :
    (m fn : ℕ)
    → fn < shl_1 m
    → fn % 2 ≡ 1
    → (m' : ℕ) × ((shl_1 m + fn) / 2 ≡ shl_1 m' + fn / 2) × (fn / 2 < shl_1 m')
unfolding shl_1
halve-shl_1 zero fn small odd = absurd (omega arith)
halve-shl_1 (suc m) fn small odd = (m, omega arith, omega arith)

climb_same :
    (node : ℕ → ℕ → ℕ) (m fn result sibling : ℕ)
    → 0 < fn
    → fn < shl_1 m
    → (fn % 2 == 1) ≡ false
    → (m' : ℕ) × (fn' : ℕ) × (sn' : ℕ) × (result' : ℕ) × (climb node fn fn result sibling
        ≡ (fn', sn', result'))
      × (climb node (shl_1 m + fn) (shl_1 m + fn) result sibling
          ≡ (shl_1 m' + fn', shl_1 m' + sn', result'))
      × (fn' ≤ sn')
      × (sn' < shl_1 m')
unfolding climb
climb_same node m fn result sibling pos small even =
    let (m', fn', here, there, below, last) =
      strip-shl_1 m fn (shl_1 m + fn) fn pos small (omega arith) (omega arith) in
    let (m1, half, less) = halve-shl_1 m' fn' below last in
    (
      m1,
      fn' / 2,
      fn' / 2,
      node sibling result,
      ground (arith, here),
      ground (arith, there, half),
      omega arith,
      less,
    )

climb-shl_1 :
    (node : ℕ → ℕ → ℕ) (m fn sn result sibling : ℕ)
    → fn ≤ sn
    → 0 < sn
    → sn < shl_1 m
    → (m' : ℕ) × (fn' : ℕ) × (sn' : ℕ) × (result' : ℕ) × (climb node fn sn result sibling
        ≡ (fn', sn', result'))
      × (climb node (shl_1 m + fn) (shl_1 m + sn) result sibling
          ≡ (shl_1 m' + fn', shl_1 m' + sn', result'))
      × (fn' ≤ sn')
      × (sn' < shl_1 m')
unfolding climb shl_1
climb-shl_1 node zero fn sn result sibling le pos small = absurd (omega arith)
climb-shl_1 node (suc m) fn sn result sibling le pos small = elim (Bool-cases (fn % 2 == 1)) [
  | inl odd ↦
      let here = strip-odd fn fn sn (ground arith) in
      let there =
        strip-odd (shl_1 (suc m) + fn) (shl_1 (suc m) + fn) (shl_1 (suc m) + sn) (ground arith) in
      (
        m,
        fn / 2,
        sn / 2,
        node sibling result,
        ground (arith, here),
        ground (arith, there),
        omega arith,
        omega arith,
      )
  | inr even ↦ elim (Bool-cases (fn == sn)) [
    | inl same ↦
        let e : sn ≡ fn = ground arith in
        rw e (climb_same node (suc m) fn result sibling (omega arith) (omega arith) (ground arith))
    | inr less ↦ (
      m,
      fn / 2,
      sn / 2,
      node result sibling,
      ground arith,
      ground arith,
      omega arith,
      omega arith,
    )
  ]
]

pub walk-shl_1 :
    (node : ℕ → ℕ → ℕ) (path : List ℕ) (m fn sn result end root : ℕ)
    → fn ≤ sn
    → sn < shl_1 m
    → walk node path fn sn result ≡ some (end, 0, root)
    → (m' : ℕ) × (walk node path (shl_1 m + fn) (shl_1 m + sn) result
        ≡ some (shl_1 m', shl_1 m', root))
unfolding walk
walk-shl_1 node [] m fn sn result end root le small h = (m, ground arith)
walk-shl_1 node (s ∷ path) m fn sn result end root le small h = elim (Bool-cases (sn == 0)) [
  | inl stop ↦ cc (rw (stop, walk) at h)
  | inr go ↦
      let (m', fn', sn', result', here, there, le', small') =
        climb-shl_1 node m fn sn result s le (ground arith) small in
      let h' : walk node path fn' sn' result' ≡ some (end, 0, root) = ground (arith, here) in
      let (m1, ends) = walk-shl_1 node path m' fn' sn' result' end root le' small' h' in
      (m1, ground (arith, there, ends))
]
