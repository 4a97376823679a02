-- ===== src/Common/Positions.antt =====
-- Positions in a list: slices and indexing.
use Prim.Native.Nat.{ℕ, zero, suc, ◌+◌, ◌-◌, ◌≤◌, ◌<◌}
use mathlib.Core.Path.{◌≡◌, refl, ap}
use mathlib.Core.Option
use mathlib.Core.Option.{Option, none, some}
use mathlib.Core.List.{List, [], ◌∷◌, ◌++◌}
use native.Mathlib.Omega.{arith}
use teardrop.Common.Table.{length, take}
use teardrop.Common.Tests.{◌==◌, if◌then◌else◌}

module _ {ℓ} {A : Type ℓ} where
  -- xs[n:]
  abbrev pub drop : ℕ → List A → List A
  drop zero xs = xs
  drop (suc n) [] = []
  drop (suc n) (x ∷ xs) = drop n xs

  abbrev pub get_elem? : List A → ℕ → Option A
  get_elem? [] i = none
  get_elem? (x ∷ xs) zero = some x
  get_elem? (x ∷ xs) (suc i) = get_elem? xs i

  pub length-take : (n : ℕ) (xs : List A) → n ≤ length xs → length (take n xs) ≡ n
  length-take zero xs h = refl
  length-take (suc n) [] h = absurd (omega arith)
  length-take (suc n) (x ∷ xs) h = omega (arith, length-take n xs)

  pub length-drop : (n : ℕ) (xs : List A) → length (drop n xs) ≡ length xs - n
  length-drop zero xs = omega arith
  length-drop (suc n) [] = omega arith
  length-drop (suc n) (x ∷ xs) = omega (arith, length-drop n xs)

  pub get_elem?-take : (n i : ℕ) (xs : List A) → i < n → get_elem? (take n xs) i ≡ get_elem? xs i
  get_elem?-take zero i xs h = absurd (omega arith)
  get_elem?-take (suc n) i [] h = refl
  get_elem?-take (suc n) zero (x ∷ xs) h = refl
  get_elem?-take (suc n) (suc i) (x ∷ xs) h = get_elem?-take n i xs (omega arith)

  pub get_elem?-drop : (n j : ℕ) (xs : List A) → get_elem? (drop n xs) j ≡ get_elem? xs (n + j)
  get_elem?-drop zero j xs = let e : 0 + j ≡ j = omega arith in rw e
  get_elem?-drop (suc n) j [] = refl
  get_elem?-drop (suc n) j (x ∷ xs) =
      let e : suc n + j ≡ suc (n + j) = omega arith in rw e (get_elem?-drop n j xs)

  pub length-append : (xs ys : List A) → length (xs ++ ys) ≡ length xs + length ys
  length-append [] ys = omega arith
  length-append (x ∷ xs) ys = omega (arith, length-append xs ys)

  -- xs[n] = f(xs[n])
  abbrev pub modify : ℕ → (A → A) → List A → List A
  modify n f [] = []
  modify zero f (x ∷ xs) = f x ∷ xs
  modify (suc n) f (x ∷ xs) = x ∷ modify n f xs

  pub length-modify : (n : ℕ) (f : A → A) (xs : List A) → length (modify n f xs) ≡ length xs
  length-modify n f [] = refl
  length-modify zero f (x ∷ xs) = refl
  length-modify (suc n) f (x ∷ xs) = ap suc (length-modify n f xs)

  pub get_elem?-modify :
      (n i : ℕ) (f : A → A) (xs : List A)
      → get_elem? (modify n f xs) i
        ≡ (if n == i then Option.map f (get_elem? xs i) else get_elem? xs i)
  get_elem?-modify n i f [] = ground arith
  get_elem?-modify zero zero f (x ∷ xs) = refl
  get_elem?-modify zero (suc i) f (x ∷ xs) = ground arith
  get_elem?-modify (suc n) zero f (x ∷ xs) = ground arith
  get_elem?-modify (suc n) (suc i) f (x ∷ xs) = ground (arith, get_elem?-modify n i f xs)

  pub get_elem?-append :
      (i : ℕ) (xs : List A) (y : A)
      → get_elem? (xs ++ y ∷ []) i ≡ (if length xs == i then some y else get_elem? xs i)
  get_elem?-append zero [] y = refl
  get_elem?-append (suc i) [] y = ground arith
  get_elem?-append zero (x ∷ xs) y = ground arith
  get_elem?-append (suc i) (x ∷ xs) y = ground (arith, get_elem?-append i xs y)

  pub get_elem?-inside : (i : ℕ) (xs : List A) {x : A} → get_elem? xs i ≡ some x → i < length xs
  get_elem?-inside i [] h = cc
  get_elem?-inside zero (y ∷ xs) h = omega arith
  get_elem?-inside (suc i) (y ∷ xs) h = omega (arith, get_elem?-inside i xs h)

  pub get_elem?-some : (i : ℕ) (xs : List A) → i < length xs → (x : A) × (get_elem? xs i ≡ some x)
  get_elem?-some i [] h = absurd (omega arith)
  get_elem?-some zero (x ∷ xs) h = (x, refl)
  get_elem?-some (suc i) (x ∷ xs) h = get_elem?-some i xs (omega arith)
