-- ===== src/Pricing.antt =====
-- billing/pricing.py: what a run's tokens and tool calls cost, in atomic USDC. Rules and prices
-- are naturals; the tables and caches that give them are arguments.
pub mod Tokens
pub mod Tools
use teardrop.Common.{
  Bool, Keyed, List, Option, [], if◌then◌else◌, length, lookup, map, none, some, upsert, ℕ, ◌&&◌,
  ◌*◌, ◌+◌, ◌-◌, ◌/◌, ◌==◌, ◌^◌, ◌∷◌,
}

pub record PricingRule : Type 0 where
  pub id : ℕ
  pub run_price_usdc : ℕ
  pub tokens_in_cost_per_1k : ℕ
  pub tokens_out_cost_per_1k : ℕ
  pub tool_call_cost : ℕ

-- -(-a // b)
abbrev pub ceil_div : ℕ → ℕ → ℕ
ceil_div a b = (a + (b - 1)) / b

unfoldable pub is_flat_rate : PricingRule → Bool
is_flat_rate r =
    r.tokens_in_cost_per_1k == 0 && r.tokens_out_cost_per_1k == 0 && r.tool_call_cost == 0

-- Four times the pro-rata cost times 1000, with the cache-write premium.
unfoldable pub scaled_cost : PricingRule → ℕ → ℕ → ℕ → ℕ
scaled_cost r tokens_in tokens_out cache_creation =
    4 * (tokens_in * r.tokens_in_cost_per_1k + tokens_out * r.tokens_out_cost_per_1k)
    + cache_creation * r.tokens_in_cost_per_1k

unfoldable pub per_unit_token_cost : PricingRule → ℕ → ℕ → ℕ → ℕ
per_unit_token_cost r tokens_in tokens_out cache_creation =
    ceil_div (scaled_cost r tokens_in tokens_out cache_creation) 4000

-- A non-negative `Decimal`: units / 10 ^ places.
pub record Decimal : Type 0 where
  pub units : ℕ
  pub places : ℕ

-- The settings that price a gateway's reported cost.
pub record Markup : Type 0 where
  pub openrouter_actual_cost_billing_enabled : Bool
  pub llm_cost_markup : Decimal
  pub openrouter_credit_fee_rate : Decimal

-- One LLM turn of a run. `upstream_cost_usd` is none where the value is no number or is negative.
pub record Turn : Type 0 where
  pub provider : ℕ
  pub model : ℕ
  pub is_openrouter : Bool
  pub upstream_cost_usd : Option Decimal
  pub tokens_in : ℕ
  pub tokens_out : ℕ
  pub cache_creation_tokens : ℕ

-- cost * markup * (1 + fee) * 1_000_000, rounded up.
scaled_upstream : Markup → Decimal → ℕ
scaled_upstream m cost =
    let fee = m.openrouter_credit_fee_rate in
    ceil_div (cost.units * m.llm_cost_markup.units * (10 ^ fee.places + fee.units) * 1_000_000)
      (10 ^ (cost.places + m.llm_cost_markup.places + fee.places))

unfoldable pub upstream_turn_cost_usdc : Markup → Turn → Option ℕ
unfolding scaled_upstream
upstream_turn_cost_usdc m t =
    if m.openrouter_actual_cost_billing_enabled && t.is_openrouter
    then elim t.upstream_cost_usd [ none ↦ none | some cost ↦ some (scaled_upstream m cost) ]
    else none

-- What one turn adds: an amount, the price of a flat rule that is charged once, or nothing.
pub data TurnPrice : Type 0 where
  metered : ℕ → TurnPrice
  flat : ℕ → ℕ → TurnPrice
  unpriced : TurnPrice

abbrev price_by_rule : Turn → Option PricingRule → TurnPrice
price_by_rule t none = unpriced
price_by_rule t (some r) =
    if is_flat_rate r
    then flat r.id r.run_price_usdc
    else metered (per_unit_token_cost r t.tokens_in t.tokens_out t.cache_creation_tokens)

-- `rules` is get_live_pricing_for_model.
unfoldable pub turn_price : Markup → (ℕ → ℕ → Option PricingRule) → Turn → TurnPrice
turn_price m rules t = elim (upstream_turn_cost_usdc m t) [
  | some c ↦ metered c
  | none ↦ price_by_rule t (rules t.provider t.model)
]

-- sum(flat_prices.values())
unfoldable pub sum_values : Keyed ℕ → ℕ
sum_values [] = 0
sum_values ((_, v) ∷ t) = v + sum_values t

-- The loop over the turns, with per_unit_cost and the dict flat_prices.
unfoldable pub turns_loop : List TurnPrice → ℕ → Keyed ℕ → ℕ
turns_loop [] per_unit flat_prices = per_unit + sum_values flat_prices
turns_loop (metered c ∷ ts) per_unit flat_prices = turns_loop ts (per_unit + c) flat_prices
turns_loop (flat id price ∷ ts) per_unit flat_prices =
    turns_loop ts per_unit (upsert id price flat_prices)
turns_loop (unpriced ∷ ts) per_unit flat_prices = turns_loop ts per_unit flat_prices

unfoldable pub calculate_turns_token_cost_usdc :
    Markup → (ℕ → ℕ → Option PricingRule) → List Turn → ℕ
calculate_turns_token_cost_usdc m rules turns = turns_loop (map (turn_price m rules) turns) 0 []

-- The tool's name as the program reads it: with a slash, with a "__" and no slash, or plain.
-- The bare name is what follows the first slash.
pub data ToolName : Type 0 where
  qualified : ℕ → ℕ → ToolName
  mcp plain : ℕ → ToolName

-- The dict key of a whole name.
abbrev pub name_key : ToolName → ℕ
name_key (qualified name bare) = name
name_key (mcp name) = name
name_key (plain name) = name

-- What a tool is priced from: overrides, the flag, and the two catalogue lookups.
pub record ToolPrices : Type 0 where
  pub overrides : Keyed ℕ
  pub default_cost : ℕ
  pub marketplace_enabled : Bool
  pub org_tool_price : ℕ → Option ℕ
  pub platform_tool_price : ℕ → Option ℕ

abbrev or_else : Option ℕ → ℕ → ℕ
or_else none d = d
or_else (some c) d = c

unlisted_cost : ToolPrices → ToolName → ℕ
unlisted_cost p (qualified name bare) = elim (lookup bare p.overrides) [
  | some c ↦ c
  | none ↦
      if p.marketplace_enabled
      then or_else (p.org_tool_price name) p.default_cost
      else p.default_cost
]
unlisted_cost p (mcp name) = 0
unlisted_cost p (plain name) =
    if p.marketplace_enabled then or_else (p.platform_tool_price name) 0 else p.default_cost

unfoldable pub resolve_tool_cost : ToolPrices → ToolName → ℕ
unfolding unlisted_cost
resolve_tool_cost p t = elim (lookup (name_key t) p.overrides) [
  | some c ↦ c
  | none ↦ unlisted_cost p t
]

unfoldable pub named_cost : ToolPrices → List ToolName → ℕ → ℕ
named_cost p [] acc = acc
named_cost p (t ∷ ts) acc = named_cost p ts (acc + resolve_tool_cost p t)

-- `tool_calls - len(tool_names)` stops at 0, as max(0, …) does.
unfoldable pub calculate_tool_cost_usdc : ToolPrices → ℕ → List ToolName → ℕ
calculate_tool_cost_usdc p tool_calls [] = tool_calls * p.default_cost
calculate_tool_cost_usdc p tool_calls (t ∷ ts) =
    named_cost p (t ∷ ts) 0 + (tool_calls - length (t ∷ ts)) * p.default_cost

unfoldable pub calculate_run_cost_usdc :
    Option PricingRule → ToolPrices → ℕ → ℕ → ℕ → ℕ → List ToolName → ℕ
calculate_run_cost_usdc rule p tokens_in tokens_out cache_creation tool_calls tool_names =
    elim rule [
      | none ↦ 0
      | some r ↦
          if is_flat_rate r
          then r.run_price_usdc
          else per_unit_token_cost r tokens_in tokens_out cache_creation
    ]
    + calculate_tool_cost_usdc p tool_calls tool_names
