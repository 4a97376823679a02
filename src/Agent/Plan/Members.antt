-- ===== src/Agent/Plan/Members.antt =====
-- Membership of lists of ids.
use teardrop.Agent.Plan.{discard, elem}
use teardrop.Common.{
  ==_refl, Bool-cases, List, [], arith, false, inl, inr, length, refl, true, ℕ, ◌<◌, ◌==◌, ◌∷◌, ◌≡◌,
  ◌≤◌,
}

abbrev pub Distinct : List ℕ → Type 0
Distinct [] = Unit
Distinct (x ∷ xs) = (elem x xs ≡ false) × Distinct xs

abbrev pub Within : List ℕ → List ℕ → Type 0
Within xs ys = (x : ℕ) → elem x xs ≡ true → elem x ys ≡ true

pub discard-absent : (n : ℕ) (xs : List ℕ) → elem n xs ≡ false → discard n xs ≡ xs
discard-absent n [] h = refl
discard-absent n (x ∷ xs) h = ground (arith, discard-absent n xs)

elem-discard :
    (n y : ℕ) (xs : List ℕ) → (n == y) ≡ false → elem y xs ≡ true → elem y (discard n xs) ≡ true
elem-discard n y [] differ h = cc
elem-discard n y (x ∷ xs) differ h = ground (arith, elem-discard n y xs differ)

length-discard_le : (n : ℕ) (xs : List ℕ) → length (discard n xs) ≤ length xs
length-discard_le n [] = omega arith
length-discard_le n (x ∷ xs) = ground (arith, length-discard_le n xs)

length-discard : (n : ℕ) (xs : List ℕ) → elem n xs ≡ true → length (discard n xs) < length xs
length-discard n [] h = cc
length-discard n (x ∷ xs) h = ground (arith, length-discard n xs, length-discard_le n xs)

pub elem_more : (y x : ℕ) (xs : List ℕ) → elem y xs ≡ true → elem y (x ∷ xs) ≡ true
elem_more y x xs h = elim (Bool-cases (x == y)) [ inl e ↦ rw e refl | inr e ↦ rw e h ]

pub elem_first : (x : ℕ) (xs : List ℕ) → elem x (x ∷ xs) ≡ true
elem_first x xs = rw (==_refl x) refl

elem_differ : (x y : ℕ) (xs : List ℕ) → elem x xs ≡ false → elem y xs ≡ true → (x == y) ≡ false
elem_differ x y xs absent present = elim (Bool-cases (x == y)) [
  | inr differ ↦ differ
  | inl same ↦ let e : x ≡ y = ground arith in let absent' = rw e at absent in cc
]

-- Distinct ids of a list are no more than the list is long.
pub Distinct-length : (xs ys : List ℕ) → Distinct xs → Within xs ys → length xs ≤ length ys
Distinct-length [] ys distinct within = omega arith
Distinct-length (x ∷ xs) ys (fresh, distinct) within =
    let member = within x (elem_first x xs) in
    let rest =
      Distinct-length xs (discard x ys) distinct
        (λ y h. elem-discard x y ys (elem_differ x y xs fresh h) (within y (elem_more y x xs h))) in
    omega (arith, length-discard x ys member)
