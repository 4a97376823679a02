-- ===== src/Common/Selected.antt =====
-- SELECT … ORDER BY … LIMIT n, and UPDATE of one row: which rows they take and what they keep.
use Prim.Native.Nat.{ℕ, zero, suc, ◌+◌, ◌≤◌, ◌<◌, min}
use mathlib.Core.Path.{◌≡◌, refl, sym, subst, ◌∙◌}
use mathlib.Core.Bool.{Bool, true, false}
use mathlib.Core.Logic.{inl, inr}
use mathlib.Core.Option.{Option, none, some}
use mathlib.Core.List.{List, [], ◌∷◌}
use native.Mathlib.Omega.{arith}
use mathlib.Core.Option
use teardrop.Common.Tests.{◌==◌, if◌then◌else◌, Bool-cases, Option-cases, ==_iff, ==_refl}
use teardrop.Common.Table.{
  length, take, select, find?, count_where, Keyed, lookup, upsert, lookup-upsert, All,
}

module _ {ℓ} {A : Type ℓ} (before : A → A → Bool) where
  abbrev pub insert_by : A → List A → List A
  insert_by x [] = x ∷ []
  insert_by x (y ∷ ys) = if before x y then x ∷ y ∷ ys else y ∷ insert_by x ys

  -- ORDER BY
  abbrev pub sort_by : List A → List A
  sort_by [] = []
  sort_by (x ∷ xs) = insert_by x (sort_by xs)

  length-insert_by : (x : A) (xs : List A) → length (insert_by x xs) ≡ suc (length xs)
  length-insert_by x [] = refl
  length-insert_by x (y ∷ ys) = ground (arith, length-insert_by x ys)

  pub length-sort_by : (xs : List A) → length (sort_by xs) ≡ length xs
  length-sort_by [] = refl
  length-sort_by (x ∷ xs) = omega (arith, length-insert_by x (sort_by xs), length-sort_by xs)

  All-insert_by {κ} :
      (P : A → Type κ) (x : A) (xs : List A) → P x → All P xs → All P (insert_by x xs)
  All-insert_by P x [] hx hs = (hx, hs)
  All-insert_by P x (y ∷ ys) hx (hy, hs) = elim (Bool-cases (before x y)) [
    | inl e ↦ rw e (hx, (hy, hs))
    | inr e ↦ rw e (hy, All-insert_by P x ys hx hs)
  ]

  pub All-sort_by {κ} : (P : A → Type κ) (xs : List A) → All P xs → All P (sort_by xs)
  All-sort_by P [] h = h
  All-sort_by P (x ∷ xs) (hx, hs) = All-insert_by P x (sort_by xs) hx (All-sort_by P xs hs)

  -- The same for what holds of one row at least.
  insert_by-here :
      (p : A → Bool) (x : A) (xs : List A)
      → count_where p (insert_by x xs) ≡ (if p x then 1 else 0) + count_where p xs
  insert_by-here p x [] = refl
  insert_by-here p x (y ∷ ys) = ground (arith, insert_by-here p x ys)

  pub count_where-sort_by :
      (p : A → Bool) (xs : List A) → count_where p (sort_by xs) ≡ count_where p xs
  count_where-sort_by p [] = refl
  count_where-sort_by p (x ∷ xs) =
      omega (arith, insert_by-here p x (sort_by xs), count_where-sort_by p xs)

module _ {ℓ} {A : Type ℓ} where
  pub All-select : (p : A → Bool) (xs : List A) → All (λ x. p x ≡ true) (select p xs)
  All-select p [] = tt
  All-select p (x ∷ xs) = elim (Bool-cases (p x)) [
    | inl e ↦ rw e (e, All-select p xs)
    | inr e ↦ rw e (All-select p xs)
  ]

  pub All-take {κ} : (P : A → Type κ) (n : ℕ) (xs : List A) → All P xs → All P (take n xs)
  All-take P zero xs h = tt
  All-take P (suc n) [] h = tt
  All-take P (suc n) (x ∷ xs) (hx, hs) = (hx, All-take P n xs hs)

  pub length-take-min : (n : ℕ) (xs : List A) → length (take n xs) ≡ min n (length xs)
  length-take-min zero xs = omega arith
  length-take-min (suc n) [] = omega arith
  length-take-min (suc n) (x ∷ xs) = omega (arith, length-take-min n xs)

  pub take_all : (n : ℕ) (xs : List A) → length xs ≤ n → take n xs ≡ xs
  take_all zero [] h = refl
  take_all zero (x ∷ xs) h = absurd (omega arith)
  take_all (suc n) [] h = refl
  take_all (suc n) (x ∷ xs) h = let e : take n xs ≡ xs = take_all n xs (omega arith) in rw e refl

  pub length-select : (p : A → Bool) (xs : List A) → length (select p xs) ≡ count_where p xs
  length-select p [] = refl
  length-select p (x ∷ xs) = ground (arith, length-select p xs)

-- UPDATE … SET f WHERE key = k
module _ {ℓ} {V : Type ℓ} where
  abbrev pub update_key : ℕ → (V → V) → Keyed V → Keyed V
  update_key k f t = elim (lookup k t) [ none ↦ t | some v ↦ upsert k (f v) t ]

  pub lookup-update_key :
      (k j : ℕ) (f : V → V) (t : Keyed V)
      → lookup j (update_key k f t) ≡ (if k == j then Option.map f (lookup j t) else lookup j t)
  lookup-update_key k j f t = elim (Option-cases (lookup k t)) [
    | inl e ↦ elim (Bool-cases (k == j)) [
      | inl k=j ↦
          let same : k ≡ j = (==_iff k j).0 k=j in
          let there : lookup j t ≡ none = subst (λ i. lookup i t ≡ none) same e in
          rw (e, update_key, k=j, there) refl
      | inr k≠j ↦ rw (e, update_key, k≠j) refl
    ]
    | inr (v, e) ↦ elim (Bool-cases (k == j)) [
      | inl k=j ↦
          let same : k ≡ j = (==_iff k j).0 k=j in
          let there : lookup j t ≡ some v = subst (λ i. lookup i t ≡ some v) same e in
          rw (e, update_key, lookup-upsert k j (f v) t, k=j, there) refl
      | inr k≠j ↦ rw (e, update_key, lookup-upsert k j (f v) t, k≠j) refl
    ]
  ]

  -- Replacing one row changes the number of the rows with a property by that row alone.
  pub count_where-upsert :
      (p : ℕ × V → Bool) (k : ℕ) (w : V) (t : Keyed V) {v : V}
      → lookup k t ≡ some v
      → count_where p (upsert k w t) + (if p (k, v) then 1 else 0)
        ≡ count_where p t + (if p (k, w) then 1 else 0)
  count_where-upsert p k w [] h = cc
  count_where-upsert p k w ((j, x) ∷ t) {v} h = ground (arith, count_where-upsert p k w t {v = v})

  pub count_where-append :
      (p : ℕ × V → Bool) (k : ℕ) (w : V) (t : Keyed V)
      → lookup k t ≡ none
      → count_where p (upsert k w t) ≡ count_where p t + (if p (k, w) then 1 else 0)
  count_where-append p k w [] h = omega arith
  count_where-append p k w ((j, x) ∷ t) h = ground (arith, count_where-append p k w t)

  -- A primary key: no two rows have the same.
  abbrev pub Unique : Keyed V → Type ℓ
  Unique [] = Unit
  Unique ((k, v) ∷ t) = (lookup k t ≡ none) × Unique t

  Unique-upsert_fresh :
      (k j : ℕ) (w : V) (t : Keyed V)
      → lookup j t ≡ none
      → (k == j) ≡ false
      → lookup j (upsert k w t) ≡ none
  Unique-upsert_fresh k j w t h k≠j = rw (lookup-upsert k j w t, k≠j) h

  pub Unique-upsert : (k : ℕ) (w : V) (t : Keyed V) → Unique t → Unique (upsert k w t)
  Unique-upsert k w [] h = (refl, tt)
  Unique-upsert k w ((j, v) ∷ t) (fresh, h) = elim (Bool-cases (j == k)) [
    | inl e ↦
        let same : j ≡ k = (==_iff j k).0 e in rw e (subst (λ i. lookup i t ≡ none) same fresh, h)
    | inr e ↦ rw e (Unique-upsert_fresh k j w t fresh (ground (arith, e)), Unique-upsert k w t h)
  ]

  pub Unique-update_key : (k : ℕ) (f : V → V) (t : Keyed V) → Unique t → Unique (update_key k f t)
  Unique-update_key k f t h = elim (Option-cases (lookup k t)) [
    | inl e ↦ rw (e, update_key) h
    | inr (v, e) ↦ rw (e, update_key) (Unique-upsert k (f v) t h)
  ]

  -- A row that a statement reads is the one that its key finds.
  Found-weaken :
      (t s : Keyed V) (k : ℕ) (v : V)
      → lookup k s ≡ none
      → All (λ row. lookup row.0 s ≡ some row.1) t
      → All (λ row. lookup row.0 ((k, v) ∷ s) ≡ some row.1) t
  Found-weaken [] s k v fresh h = tt
  Found-weaken ((j, w) ∷ t) s k v fresh (hj, hs) = elim (Bool-cases (k == j)) [
    | inl e ↦
        let same : k ≡ j = (==_iff k j).0 e in
        let gone : lookup j s ≡ none = subst (λ i. lookup i s ≡ none) same fresh in
        absurd (let clash : none ≡ some w = sym gone ∙ hj in cc)
    | inr e ↦ (rw e hj, Found-weaken t s k v fresh hs)
  ]

  pub Unique-Found : (t : Keyed V) → Unique t → All (λ row. lookup row.0 t ≡ some row.1) t
  Unique-Found [] h = tt
  Unique-Found ((k, v) ∷ t) (fresh, h) =
      (rw (==_refl k) refl, Found-weaken t t k v fresh (Unique-Found t h))

module _ {ℓ κ} {A : Type ℓ} where
  -- The rows that a SELECT takes have its condition and what holds of every row.
  pub All-selected :
      (P : A → Type κ) (p : A → Bool) (xs : List A)
      → All P xs
      → All (λ x. P x × (p x ≡ true)) (select p xs)
  All-selected P p [] h = tt
  All-selected P p (x ∷ xs) (hx, hs) = elim (Bool-cases (p x)) [
    | inl e ↦ rw e ((hx, e), All-selected P p xs hs)
    | inr e ↦ rw e (All-selected P p xs hs)
  ]

module _ {ℓ κ μ} {A : Type ℓ} where
  pub All-map :
      (P : A → Type κ) (Q : A → Type μ) (xs : List A) → ((x : A) → P x → Q x) → All P xs → All Q xs
  All-map P Q [] f h = tt
  All-map P Q (x ∷ xs) f (hx, hs) = (f x hx, All-map P Q xs f hs)

module _ {ℓ} {V : Type ℓ} where
  -- A row with the condition is one that the SELECT takes.
  pub count_where-found :
      (p : ℕ × V → Bool) (k : ℕ) (t : Keyed V) {v : V}
      → lookup k t ≡ some v
      → p (k, v) ≡ true
      → 0 < count_where (λ row. row.0 == k) (select p t)
  count_where-found p k [] h hp = cc
  count_where-found p k ((j, w) ∷ t) {v} h hp = elim (Bool-cases (j == k)) [
    | inl e ↦
        let same : j ≡ k = (==_iff j k).0 e in
        let it : some w ≡ some v = rw e at h in
        let taken_row : p (j, w) ≡ true =
          let row_is : w ≡ v = cc in
          subst (λ i. p (i, w) ≡ true) (sym same) (subst (λ x. p (k, x) ≡ true) (sym row_is) hp) in
        ground (arith, taken_row, e)
    | inr e ↦
        let found : lookup k t ≡ some v = rw e at h in
        ground (arith, count_where-found p k t {v = v} found hp)
  ]

  pub All-counted {κ} :
      (P : ℕ → Type κ) (k : ℕ) (t : Keyed V)
      → 0 < count_where (λ row. row.0 == k) t
      → All (λ row. P row.0) t
      → P k
  All-counted P k [] h hs = absurd (omega arith)
  All-counted P k ((j, w) ∷ t) h (hj, hs) = elim (Bool-cases (j == k)) [
    | inl e ↦ subst P ((==_iff j k).0 e) hj
    | inr e ↦
        let h' : 0 < count_where (λ row. row.0 == k) t = ground (arith, h, e) in
        All-counted P k t h' hs
  ]

module _ {ℓ} {V : Type ℓ} where
  -- The rows of a SELECT … ORDER BY … LIMIT are found by their keys and have its condition.
  pub selected_rows_found :
      (before : ℕ × V → ℕ × V → Bool) (p : ℕ × V → Bool) (n : ℕ) (t : Keyed V)
      → Unique t
      → All
          (λ row. (lookup row.0 t ≡ some row.1) × (p row ≡ true))
          (take n (sort_by before (select p t)))
  selected_rows_found before p n t unique = All-take _ n (sort_by before (select p t)) (
      All-sort_by before _ (select p t)
        (All-selected (λ row. lookup row.0 t ≡ some row.1) p t (Unique-Found t unique)))

  -- A row without the condition is not among them.
  pub unselected_row :
      (p : ℕ × V → Bool) (id : ℕ) (v : V) (t rows : Keyed V)
      → lookup id t ≡ some v
      → p (id, v) ≡ false
      → All (λ row. (lookup row.0 t ≡ some row.1) × (p row ≡ true)) rows
      → All (λ row. (row.0 == id) ≡ false) rows
  unselected_row p id v t rows found fails_p = All-map _ _ rows λ (i, w) (there, holds).
      elim (Bool-cases (i == id)) [
        | inl e ↦
            let it : i ≡ id = (==_iff i id).0 e in
            let there' : lookup id t ≡ some w = subst (λ j. lookup j t ≡ some w) it there in
            let same : some w ≡ some v = sym there' ∙ found in
            absurd (
              let it_is : w ≡ v = cc in
              let holds' : p (id, v) ≡ true =
                subst (λ x. p (id, x) ≡ true) it_is (subst (λ j. p (j, w) ≡ true) it holds) in
              let clash : true ≡ false = sym holds' ∙ fails_p in cc)
        | inr e ↦ e
      ]

-- DELETE … WHERE: what stays is found as before.
module _ {ℓ} {A : Type ℓ} where
  pub find?-select :
      (f p : A → Bool) (xs : List A) {x : A}
      → find? f xs ≡ some x
      → p x ≡ true
      → find? f (select p xs) ≡ some x
  find?-select f p [] found kept = cc
  find?-select f p (y ∷ ys) {x} found kept = elim (Bool-cases (f y)) [
    | inl e ↦
        let it : some y ≡ some x = rw e at found in
        let it_is : y ≡ x = cc in
        let kept' : p y ≡ true = subst (λ z. p z ≡ true) (sym it_is) kept in rw (kept', e) it
    | inr e ↦
        let rest = find?-select f p ys {x = x} (rw e at found) kept in
        elim (Bool-cases (p y)) [ inl stays ↦ rw (stays, e) rest | inr goes ↦ rw goes rest ]
  ]

module _ {ℓ} {V : Type ℓ} where
  pub lookup-select :
      (p : ℕ × V → Bool) (k : ℕ) (t : Keyed V) {v : V}
      → lookup k t ≡ some v
      → p (k, v) ≡ true
      → lookup k (select p t) ≡ some v
  lookup-select p k [] found kept = cc
  lookup-select p k ((j, w) ∷ t) {v} found kept = elim (Bool-cases (j == k)) [
    | inl e ↦
        let same : j ≡ k = (==_iff j k).0 e in
        let it : some w ≡ some v = rw e at found in
        let it_is : w ≡ v = cc in
        let kept' : p (j, w) ≡ true =
          subst (λ i. p (i, w) ≡ true) (sym same) (subst (λ x. p (k, x) ≡ true) (sym it_is) kept) in
        rw (kept', e) it
    | inr e ↦
        let rest = lookup-select p k t {v = v} (rw e at found) kept in
        elim (Bool-cases (p (j, w))) [ inl stays ↦ rw (stays, e) rest | inr goes ↦ rw goes rest ]
  ]

  select_keeps_none :
      (p : ℕ × V → Bool) (k : ℕ) (t : Keyed V) → lookup k t ≡ none → lookup k (select p t) ≡ none
  select_keeps_none p k [] gone = refl
  select_keeps_none p k ((j, w) ∷ t) gone = elim (Bool-cases (j == k)) [
    | inl e ↦ cc (rw e at gone)
    | inr e ↦
        let rest = select_keeps_none p k t (rw e at gone) in
        elim (Bool-cases (p (j, w))) [ inl stays ↦ rw (stays, e) rest | inr goes ↦ rw goes rest ]
  ]

  pub Unique-select : (p : ℕ × V → Bool) (t : Keyed V) → Unique t → Unique (select p t)
  Unique-select p [] h = tt
  Unique-select p ((j, w) ∷ t) (fresh, h) = elim (Bool-cases (p (j, w))) [
    | inl e ↦ rw e (select_keeps_none p j t fresh, Unique-select p t h)
    | inr e ↦ rw e (Unique-select p t h)
  ]
