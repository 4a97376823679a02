-- ===== src/Pricing/Tokens.antt =====
-- Token costs: rounding up once, and what that does to splits.
use teardrop.Common.{arith, ℕ, ◌*◌, ◌+◌, ◌<◌, ◌≡◌, ◌≤◌}
use teardrop.Pricing.{PricingRule, per_unit_token_cost, scaled_cost}

-- The cost is the least number of atomic units that covers the exact cost.
per_unit_token_cost-least :
    (r : PricingRule) (tokens_in tokens_out cache : ℕ)
    → let exact = scaled_cost r tokens_in tokens_out cache in
      let cost = per_unit_token_cost r tokens_in tokens_out cache in
      (exact ≤ 4000 * cost) × (4000 * cost < exact + 4000)
unfolding per_unit_token_cost
per_unit_token_cost-least r tokens_in tokens_out cache = (omega arith, omega arith)

scaled_cost-add :
    (r : PricingRule) (a b c a' b' c' : ℕ)
    → scaled_cost r (a + a') (b + b') (c + c') ≡ scaled_cost r a b c + scaled_cost r a' b' c'
unfolding scaled_cost
scaled_cost-add r a b c a' b' c' = grind arith

-- The tokens of one call priced as two calls cost no less, and at most one unit more.
pub per_unit_token_cost-add :
    (r : PricingRule) (a b c a' b' c' : ℕ)
    → let whole = per_unit_token_cost r (a + a') (b + b') (c + c') in
      let parts = per_unit_token_cost r a b c + per_unit_token_cost r a' b' c' in
      (whole ≤ parts) × (parts ≤ whole + 1)
unfolding per_unit_token_cost
per_unit_token_cost-add r a b c a' b' c' = (
  omega (arith, scaled_cost-add r a b c a' b' c'),
  omega (arith, scaled_cost-add r a b c a' b' c'),
)
