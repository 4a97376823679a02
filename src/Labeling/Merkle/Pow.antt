-- ===== src/Labeling/Merkle/Pow.antt =====
-- The split point is the largest power of two below the size.
use teardrop.Common.{
  Bool-cases, arith, inl, inr, refl, suc, zero, ℕ, ◌*◌, ◌-◌, ◌/◌, ◌<◌, ◌==◌, ◌≡◌, ◌≤◌,
}
use teardrop.Labeling.Merkle.{bit_length, shl_1, split}

pub shl_1-pos : (m : ℕ) → 0 < shl_1 m
unfolding shl_1
shl_1-pos zero = omega arith
shl_1-pos (suc m) = omega (arith, shl_1-pos m)

bit_length-zero : (f : ℕ) → bit_length f 0 ≡ 0
unfolding bit_length
bit_length-zero zero = refl
bit_length-zero (suc f) = refl

-- A positive number lies between two powers of two.
bit_length-bounds :
    (f n : ℕ)
    → 0 < n
    → n ≤ f
    → (m : ℕ) × (bit_length f n ≡ suc m) × (shl_1 m ≤ n) × (n < 2 * shl_1 m)
unfolding bit_length shl_1
bit_length-bounds zero n pos h = absurd (omega arith)
bit_length-bounds (suc f) n pos h = elim (Bool-cases (n / 2 == 0)) [
  | inl last ↦
      let e : n / 2 ≡ 0 = ground arith in
      (0, rw (e, bit_length-zero f) (ground arith), omega arith, omega arith)
  | inr more ↦
      let (m, e, low, high) = bit_length-bounds f (n / 2) (ground arith) (omega arith) in
      (suc m, ground arith, omega arith, omega arith)
]

pub split-shl_1 :
    (n : ℕ) → 1 < n → (m : ℕ) × (split n ≡ shl_1 m) × (shl_1 m < n) × (n ≤ 2 * shl_1 m)
unfolding split
split-shl_1 n h =
    let (m, e, low, high) = bit_length-bounds n (n - 1) (omega arith) (omega arith) in
    (m, rw e (ground arith), omega arith, omega arith)
