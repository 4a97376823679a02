-- ===== src/Tests/Pricing.antt =====
-- Pricing at small numbers.
use teardrop.Common.{[], if◌then◌else◌, none, refl, some, true, ◌==◌, ◌∷◌, ◌≡◌}
use teardrop.Pricing.{
  PricingRule, ToolPrices, calculate_tool_cost_usdc, mcp, named_cost, per_unit_token_cost, plain,
  qualified, resolve_tool_cost, scaled_cost,
}

abbrev rule : PricingRule
rule = record {
  id = 1;
  run_price_usdc = 10_000;
  tokens_in_cost_per_1k = 150;
  tokens_out_cost_per_1k = 600;
  tool_call_cost = 0;
}

one_token_rounds_up : per_unit_token_cost rule 1 0 0 ≡ 1
unfolding per_unit_token_cost scaled_cost
one_token_rounds_up = refl

-- An override for tool 8; tool 5 is another org's, 6 is an MCP tool.
abbrev prices : ToolPrices
prices = record {
  overrides = (8, 15_000) ∷ [];
  default_cost = 100;
  marketplace_enabled = true;
  org_tool_price = λ n. if n == 5 then some 700 else none;
  platform_tool_price = λ n. none;
}

tool_costs_run : calculate_tool_cost_usdc prices 5 (qualified 5 9 ∷ mcp 6 ∷ plain 8 ∷ []) ≡ 15_900
unfolding calculate_tool_cost_usdc named_cost resolve_tool_cost
tool_costs_run = refl
