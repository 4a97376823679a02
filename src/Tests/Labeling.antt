-- ===== src/Tests/Labeling.antt =====
-- A tree of five leaves, with a node function that tells its two sides apart.
use teardrop.Common.{List, [], arith, false, get_elem?, refl, some, true, ℕ, ◌*◌, ◌+◌, ◌∷◌, ◌≡◌}
use teardrop.Labeling.Merkle.{
  audit_path, bit_length, climb, merkle_root, path_on, root_on, shl_1, split, strip, verify_path,
  walk,
}
use teardrop.Labeling.Merkle.Paths.{verify_path-audit_path}

abbrev mix : ℕ → ℕ → ℕ
mix l r = 2 * l + 3 * r + 1

abbrev five : List ℕ
five = 10 ∷ 20 ∷ 30 ∷ 40 ∷ 50 ∷ []

five_root : merkle_root mix five ≡ some 1563
unfolding merkle_root root_on split bit_length shl_1
five_root = refl

last_path :
    (audit_path mix five 4 ≡ some (706 ∷ [])) × (verify_path mix 40 4 5 (706 ∷ []) 1563 ≡ false)
unfolding audit_path path_on merkle_root root_on split bit_length shl_1 verify_path walk climb strip
last_path = (refl, refl)

verify_path-audit_path_example :
    (leaf : ℕ) × (path : List ℕ) × (root : ℕ) × (get_elem? five 4 ≡ some leaf)
    × (audit_path mix five 4 ≡ some path)
    × (merkle_root mix five ≡ some root)
    × (verify_path mix leaf 4 5 path root ≡ true)
verify_path-audit_path_example = verify_path-audit_path mix five 4 (omega arith)
