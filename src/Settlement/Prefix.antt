-- ===== src/Settlement/Prefix.antt =====
-- A top-up re-arms no more than its cap: the re-armed settlements are a first part of the org's
-- candidates, in their order, and the running total of the last one is the sum of all.
use teardrop.Common.{
  All, Bool, Bool-cases, Keyed, List, [], arith, false, inl, inr, refl, sum_where, true,
  update_where, ℕ, ◌&&◌, ◌+◌, ◌==◌, ◌∷◌, ◌≡◌, ◌≤◌, ◌⊎◌,
}
use teardrop.Schema.{Db, PendingSettlement}
use teardrop.Settlement.Rearm.{
  is_candidate, is_rearmed, not_after, rearm_exhausted_credit_settlements, running_total,
}
use teardrop.Settlement.Retry.{rearmed}

-- The last of the selected rows, by an order.
module _ {ℓ} {A : Type ℓ} (le : A → A → Bool) (total : (x y : A) → le x y ≡ false → le y x ≡ true)
    (trans : (x y z : A) → le x y ≡ true → le y z ≡ true → le x z ≡ true) (p : A → Bool) where
  abbrev AllUpTo : A → List A → Type 0
  AllUpTo e = All (λ x. p x ≡ true → le x e ≡ true)

  up_to_trans : (e x : A) (xs : List A) → le e x ≡ true → AllUpTo e xs → AllUpTo x xs
  up_to_trans e x [] h all = tt
  up_to_trans e x (y ∷ ys) h (hy, hys) = ((λ q. trans y e x (hy q) h), up_to_trans e x ys h hys)

  none_up_to : (x : A) (xs : List A) → All (λ y. p y ≡ false) xs → AllUpTo x xs
  none_up_to x [] h = tt
  none_up_to x (y ∷ ys) (passed, rest) = ((λ chosen. cc), none_up_to x ys rest)

  le_refl : (x : A) → le x x ≡ true
  le_refl x = elim (Bool-cases (le x x)) [ inl chosen ↦ chosen | inr passed ↦ total x x passed ]

  last_selected :
      (xs : List A) → All (λ x. p x ≡ false) xs ⊎ ((e : A) × (p e ≡ true) × AllUpTo e xs)
  last_selected [] = inl tt
  last_selected (x ∷ xs) = elim (Bool-cases (p x)) [
    | inr passed ↦ elim (last_selected xs) [
      | inl unselected ↦ inl (passed, unselected)
      | inr (e, chosen, all) ↦ inr (e, chosen, ((λ chosen. cc), all))
    ]
    | inl chosen ↦ elim (last_selected xs) [
      | inl unselected ↦ inr (x, chosen, ((λ _. le_refl x), none_up_to x xs unselected))
      | inr (e, chosen', all) ↦ elim (Bool-cases (le x e)) [
        | inl before ↦ inr (e, chosen', ((λ _. before), all))
        | inr after ↦ inr (x, chosen, ((λ _. le_refl x), up_to_trans e x xs (total x e after) all))
      ]
    ]
  ]

sum_where-le {ℓ} :
    {A : Type ℓ} (p q : A → Bool) (f : A → ℕ) (xs : List A)
    → All (λ x. p x ≡ true → q x ≡ true) xs
    → sum_where p f xs ≤ sum_where q f xs
sum_where-le p q f [] h = omega arith
sum_where-le p q f (x ∷ xs) (hx, hs) = elim (Bool-cases (p x)) [
  | inl e ↦ ground (arith, e, hx e, sum_where-le p q f xs hs)
  | inr e ↦ ground (arith, e, sum_where-le p q f xs hs)
]

sum_where-none {ℓ} :
    {A : Type ℓ} (p : A → Bool) (f : A → ℕ) (xs : List A)
    → All (λ x. p x ≡ false) xs
    → sum_where p f xs ≡ 0
sum_where-none p f [] h = refl
sum_where-none p f (x ∷ xs) (hx, hs) = ground (arith, sum_where-none p f xs hs)

-- Rows that leave the selection `p` take their amounts with them.
sum_where-update_where {ℓ} :
    {A : Type ℓ} (p q : A → Bool) (f : A → ℕ) (g : A → A) (xs : List A)
    → ((x : A) → q x ≡ true → p x ≡ true)
    → ((x : A) → q x ≡ true → p (g x) ≡ false)
    → sum_where p f (update_where q g xs) + sum_where q f xs ≡ sum_where p f xs
sum_where-update_where p q f g [] before after = refl
sum_where-update_where p q f g (x ∷ xs) before after = elim (Bool-cases (q x)) [
  | inl e ↦ ground (arith, e, before x e, after x e, sum_where-update_where p q f g xs before after)
  | inr e ↦ ground (arith, e, sum_where-update_where p q f g xs before after)
]

not_after-total : (e f : ℕ × PendingSettlement) → not_after e f ≡ false → not_after f e ≡ true
not_after-total (i, e) (j, f) h = ground arith

not_after_trans :
    (e f g : ℕ × PendingSettlement)
    → not_after e f ≡ true
    → not_after f g ≡ true
    → not_after e g ≡ true
not_after_trans (i, e) (j, f) (k, g) h h' = ground arith

module _ (org cap now : ℕ) (table : Keyed PendingSettlement) where
  is_rearmed-is_candidate :
      (e : ℕ × PendingSettlement)
      → is_rearmed org cap now table e ≡ true
      → is_candidate org now e ≡ true
  unfolding is_rearmed
  is_rearmed-is_candidate e h = ground arith

  up_to-running_total :
      (e : ℕ × PendingSettlement) (t : Keyed PendingSettlement)
      → All (λ x. is_rearmed org cap now table x ≡ true → not_after x e ≡ true) t
      → All
          (λ x.
            is_rearmed org cap now table x ≡ true
            → (is_candidate org now x && not_after x e) ≡ true)
          t
  up_to-running_total e [] h = tt
  up_to-running_total e (x ∷ t) (hx, ht) = (
    (λ chosen. ground (arith, hx chosen, is_rearmed-is_candidate x chosen)),
    up_to-running_total e t ht,
  )

  rearmed_total-le : sum_where (is_rearmed org cap now table) (λ e. e.1.amount_usdc) table ≤ cap
  unfolding is_rearmed running_total
  rearmed_total-le =
      elim (last_selected not_after not_after-total not_after_trans (is_rearmed org cap now table)
        table) [
          | inl unselected ↦ omega (
            arith,
            sum_where-none (is_rearmed org cap now table) (λ e. e.1.amount_usdc) table unselected,
          )
          | inr (e, chosen, all) ↦ ground (
            arith,
            sum_where-le (is_rearmed org cap now table)
                (λ x. is_candidate org now x && not_after x e) (λ x. x.1.amount_usdc) table
                (up_to-running_total e table all),
          )
        ]

candidate-rearmed :
    (org now : ℕ) (e : ℕ × PendingSettlement) → is_candidate org now (e.0, rearmed now e.1) ≡ false
unfolding is_candidate
candidate-rearmed org now e = ground arith

-- What an org owes in exhausted credit settlements of the last 7 days.
unfoldable pub exhausted_total : ℕ → ℕ → Db → ℕ
exhausted_total org now db =
    sum_where (is_candidate org now) (λ e. e.1.amount_usdc) db.pending_settlements

-- Re-arming takes at most the cap out of what the org owes in exhausted credit settlements of the
-- last 7 days, and adds nothing to it.
pub rearm_exhausted_credit_settlements-within_cap :
    (org cap now : ℕ) (db : Db)
    → let after = (rearm_exhausted_credit_settlements org cap now db).1 in
      (exhausted_total org now db ≤ exhausted_total org now after + cap)
      × (exhausted_total org now after ≤ exhausted_total org now db)
unfolding rearm_exhausted_credit_settlements exhausted_total
rearm_exhausted_credit_settlements-within_cap org cap now db = elim (Bool-cases (cap == 0)) [
  | inl zero_cap ↦ rw (zero_cap, rearm_exhausted_credit_settlements) (omega arith, omega arith)
  | inr positive ↦
      let table = db.pending_settlements in
      let moved =
        sum_where-update_where (is_candidate org now) (is_rearmed org cap now table)
          (λ e. e.1.amount_usdc) (λ e. (e.0, rearmed now e.1)) table
          (is_rearmed-is_candidate org cap now table) (λ e _. candidate-rearmed org now e) in
      let bounded = rearmed_total-le org cap now table in
      rw (positive, rearm_exhausted_credit_settlements) (omega arith, omega arith)
]
