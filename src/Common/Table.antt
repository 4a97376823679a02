-- ===== src/Common/Table.antt =====
-- Tables of rows: the SELECT, UPDATE … WHERE and SUM that the SQL statements of the program use.
use Prim.Native.Nat.{ℕ, zero, suc, ◌+◌, ◌≤◌}
use mathlib.Core.Path.{◌≡◌, refl}
use mathlib.Core.Bool.{Bool, true, false}
use mathlib.Core.Option.{Option, none, some}
use mathlib.Core.List.{List, [], ◌∷◌}
use native.Mathlib.Omega.{arith}
use teardrop.Common.Tests.{◌==◌, if◌then◌else◌, Bool-cases}
use mathlib.Core.Logic.{inl, inr}

module _ {ℓ} {A : Type ℓ} where
  abbrev pub length : List A → ℕ
  length [] = 0
  length (x ∷ xs) = suc (length xs)

  -- SELECT … WHERE p LIMIT 1
  abbrev pub find? : (A → Bool) → List A → Option A
  find? p [] = none
  find? p (x ∷ xs) = if p x then some x else find? p xs

  -- EXISTS (SELECT … WHERE p)
  abbrev pub exists : (A → Bool) → List A → Bool
  exists p [] = false
  exists p (x ∷ xs) = if p x then true else exists p xs

  -- SELECT … WHERE p
  abbrev pub select : (A → Bool) → List A → List A
  select p [] = []
  select p (x ∷ xs) = let rest = select p xs in if p x then x ∷ rest else rest

  -- UPDATE … SET f WHERE p
  abbrev pub update_where : (A → Bool) → (A → A) → List A → List A
  update_where p f [] = []
  update_where p f (x ∷ xs) = (if p x then f x else x) ∷ update_where p f xs

  -- SELECT COALESCE(SUM(f), 0) … WHERE p
  abbrev pub sum_where : (A → Bool) → (A → ℕ) → List A → ℕ
  sum_where p f [] = 0
  sum_where p f (x ∷ xs) = (if p x then f x else 0) + sum_where p f xs

  -- SELECT COUNT(*) … WHERE p
  abbrev pub count_where : (A → Bool) → List A → ℕ
  count_where p [] = 0
  count_where p (x ∷ xs) = (if p x then 1 else 0) + count_where p xs

  -- A statement about every row.
  abbrev pub All {κ} : (A → Type κ) → List A → Type κ
  All P [] = Unit
  All P (x ∷ xs) = P x × All P xs

  pub length-update_where :
      (p : A → Bool) (f : A → A) (xs : List A) → length (update_where p f xs) ≡ length xs
  length-update_where p f [] = refl
  length-update_where p f (x ∷ xs) = omega (arith, length-update_where p f xs)

  pub sum_where_congr :
      (p q : A → Bool) (f : A → ℕ) (xs : List A)
      → ((x : A) → p x ≡ q x)
      → sum_where p f xs ≡ sum_where q f xs
  sum_where_congr p q f [] h = refl
  sum_where_congr p q f (x ∷ xs) h = ground (arith, h x, sum_where_congr p q f xs h)

  pub All-update_where {κ} :
      (P : A → Type κ) (p : A → Bool) (f : A → A) (xs : List A)
      → ((x : A) → p x ≡ true → P x → P (f x))
      → All P xs
      → All P (update_where p f xs)
  All-update_where P p f [] keep h = h
  All-update_where P p f (x ∷ xs) keep (hx, hs) = elim (Bool-cases (p x)) [
    | inl e ↦ rw e (keep x e hx, All-update_where P p f xs keep hs)
    | inr e ↦ rw e (hx, All-update_where P p f xs keep hs)
  ]

-- A table with a primary key, as an association list.
abbrev pub Keyed {ℓ} : Type ℓ → Type ℓ
Keyed V = List (ℕ × V)

module _ {ℓ} {V : Type ℓ} where
  abbrev pub lookup : ℕ → Keyed V → Option V
  lookup k [] = none
  lookup k ((j, v) ∷ t) = if j == k then some v else lookup k t

  -- INSERT … ON CONFLICT (key) DO UPDATE
  abbrev pub upsert : ℕ → V → Keyed V → Keyed V
  upsert k v [] = (k, v) ∷ []
  upsert k v ((j, w) ∷ t) = if j == k then (k, v) ∷ t else (j, w) ∷ upsert k v t

  pub lookup-upsert :
      (k j : ℕ) (v : V) (t : Keyed V)
      → lookup j (upsert k v t) ≡ (if k == j then some v else lookup j t)
  lookup-upsert k j v [] = refl
  lookup-upsert k j v ((i, w) ∷ t) = ground (arith, lookup-upsert k j v t)

  pub length-upsert : (k : ℕ) (v : V) (t : Keyed V) → length (upsert k v t) ≤ suc (length t)
  length-upsert k v [] = omega arith
  length-upsert k v ((j, w) ∷ t) = ground (arith, length-upsert k v t)

module _ {ℓ} {V : Type ℓ} where
  -- DELETE … WHERE key = k
  abbrev pub remove : ℕ → Keyed V → Keyed V
  remove k [] = []
  remove k ((j, v) ∷ t) = let rest = remove k t in if j == k then rest else (j, v) ∷ rest

  pub lookup-remove :
      (k j : ℕ) (t : Keyed V) → lookup j (remove k t) ≡ (if k == j then none else lookup j t)
  lookup-remove k j [] = ground arith
  lookup-remove k j ((i, w) ∷ t) = ground (arith, lookup-remove k j t)

module _ {ℓ} {V : Type ℓ} where
  -- Replacing one row of a table changes a sum over the rows by that row alone.
  pub sum_where-upsert :
      (p : ℕ × V → Bool) (f : ℕ × V → ℕ) (k : ℕ) (w : V) (t : Keyed V) {v : V}
      → lookup k t ≡ some v
      → sum_where p f (upsert k w t) + (if p (k, v) then f (k, v) else 0)
        ≡ sum_where p f t + (if p (k, w) then f (k, w) else 0)
  sum_where-upsert p f k w [] h = cc
  sum_where-upsert p f k w ((j, x) ∷ t) {v} h = ground (arith, sum_where-upsert p f k w t {v = v})

-- LIMIT n
module _ {ℓ} {A : Type ℓ} where
  abbrev pub take : ℕ → List A → List A
  take zero xs = []
  take (suc n) [] = []
  take (suc n) (x ∷ xs) = x ∷ take n xs
