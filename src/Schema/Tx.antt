-- ===== src/Schema/Tx.antt =====
-- What a statement of a transaction raises, and transactions: the body works on a state that is
-- kept only if it returns, as `async with conn.transaction()` does.
use teardrop.Common.{Bool, false, if◌then◌else◌, inl, inr, refl, subst, true, ◌≡◌, ◌⊎◌}

pub data Failure : Type 0 where
  check_violation unique_violation foreign_key_violation out_of_range : Failure
  value_error runtime_error claim_lost : Failure

-- What a statement gives: a value, or the exception that ends the transaction.
pub data Result {ℓ} (Value : Type ℓ) : Type ℓ where
  err : Failure → Result Value
  ok : Value → Result Value

-- The next statement, unless one has raised before it.
infixl 10 ◌>>=◌
abbrev pub ◌>>=◌ {ℓ κ} :
    {Row : Type ℓ} {Out : Type κ} → Result Row → (Row → Result Out) → Result Out
err raised >>= next = err raised
ok row >>= next = next row

module _ {ℓ} {A S : Type ℓ} where
  -- A transaction whose failure the caller catches: the value `fallback`, and the state untouched.
  abbrev pub or_rollback : S → A → Result (A × S) → A × S
  or_rollback before fallback (err raised) = (fallback, before)
  or_rollback before fallback (ok answered) = answered

-- Whether a statement returned or raised, with the equation.
pub Result-cases {ℓ} :
    {Value : Type ℓ} (answer : Result Value)
    → ((v : Value) × (answer ≡ ok v)) ⊎ ((raised : Failure) × (answer ≡ err raised))
Result-cases (err raised) = inr (raised, refl)
Result-cases (ok v) = inl (v, refl)

-- A chain of statements that returned: what its first statement returned, and that the rest
-- returned from there.
pub >>=-eq-ok {ℓ κ} :
    {Row : Type ℓ} {Out : Type κ} (first : Result Row) (rest : Row → Result Out) {out : Out}
    → (first >>= rest) ≡ ok out
    → (row : Row) × (first ≡ ok row) × (rest row ≡ ok out)
>>=-eq-ok (err raised) rest returned = cc
>>=-eq-ok (ok row) rest returned = (row, refl, returned)

-- What holds of the value if the statement returns.
module _ {ℓ} {Value : Type ℓ} (P : Value → Type 0) where
  abbrev pub OnOk : Result Value → Type 0
  OnOk (err raised) = Unit
  OnOk (ok v) = P v

  pub OnOk-returned : (answer : Result Value) {v : Value} → answer ≡ ok v → OnOk answer → P v
  OnOk-returned answer returned holds = subst OnOk returned holds

pub OnOk->>= :
    {Row Out : Type 0} (P : Row → Type 0) (Q : Out → Type 0) (first : Result Row)
    (rest : Row → Result Out)
    → OnOk P first
    → ((row : Row) → P row → OnOk Q (rest row))
    → OnOk Q (first >>= rest)
OnOk->>= P Q (err raised) rest holds next = tt
OnOk->>= P Q (ok row) rest holds next = next row holds

pub OnOk-map :
    {Out : Type 0} (P Q : Out → Type 0) (answer : Result Out)
    → ((out : Out) → P out → Q out)
    → OnOk P answer
    → OnOk Q answer
OnOk-map P Q (err raised) weaken holds = tt
OnOk-map P Q (ok out) weaken holds = weaken out holds

pub OnOk-if :
    {Out : Type 0} (P : Out → Type 0) (test : Bool) (a b : Result Out)
    → OnOk P a
    → OnOk P b
    → OnOk P (if test then a else b)
OnOk-if P true a b holds_a holds_b = holds_a
OnOk-if P false a b holds_a holds_b = holds_b

pub OnOk-and :
    {Out : Type 0} (P Q : Out → Type 0) (answer : Result Out)
    → OnOk P answer
    → OnOk Q answer
    → OnOk (λ out. P out × Q out) answer
OnOk-and P Q (err raised) holds holds' = tt
OnOk-and P Q (ok out) holds holds' = (holds, holds')
