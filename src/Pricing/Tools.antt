-- ===== src/Pricing/Tools.antt =====
-- Tools: the order of the calls does not matter, and calls without a name cost the default.
use teardrop.Common.{List, [], arith, length, length-append, refl, ℕ, ◌*◌, ◌++◌, ◌+◌, ◌-◌, ◌∷◌, ◌≡◌}
use teardrop.Pricing.{ToolName, ToolPrices, calculate_tool_cost_usdc, named_cost, resolve_tool_cost}

pub named_cost-add :
    (p : ToolPrices) (ts : List ToolName) (acc : ℕ) → named_cost p ts acc ≡ acc + named_cost p ts 0
unfolding named_cost
named_cost-add p [] acc = omega arith
named_cost-add p (t ∷ ts) acc = omega (
  arith,
  named_cost-add p ts (acc + resolve_tool_cost p t),
  named_cost-add p ts (0 + resolve_tool_cost p t),
)

named_cost-append :
    (p : ToolPrices) (ts us : List ToolName) (acc : ℕ)
    → named_cost p (ts ++ us) acc ≡ named_cost p us (named_cost p ts acc)
unfolding named_cost
named_cost-append p [] us acc = refl
named_cost-append p (t ∷ ts) us acc = named_cost-append p ts us (acc + resolve_tool_cost p t)

-- With no names the sum is over nothing, so one equation covers both branches.
calculate_tool_cost_usdc-sum :
    (p : ToolPrices) (tool_calls : ℕ) (ts : List ToolName)
    → calculate_tool_cost_usdc p tool_calls ts
      ≡ named_cost p ts 0 + (tool_calls - length ts) * p.default_cost
unfolding calculate_tool_cost_usdc named_cost
calculate_tool_cost_usdc-sum p tool_calls [] = grind arith
calculate_tool_cost_usdc-sum p tool_calls (t ∷ ts) = refl

-- The cost of a run's tool calls does not depend on which of two parts was called first.
pub calculate_tool_cost_usdc_comm :
    (p : ToolPrices) (tool_calls : ℕ) (ts us : List ToolName)
    → calculate_tool_cost_usdc p tool_calls (ts ++ us)
      ≡ calculate_tool_cost_usdc p tool_calls (us ++ ts)
calculate_tool_cost_usdc_comm p tool_calls ts us =
    let same_cost : named_cost p (ts ++ us) 0 ≡ named_cost p (us ++ ts) 0 = omega (
      arith,
      named_cost-append p ts us 0,
      named_cost-append p us ts 0,
      named_cost-add p us (named_cost p ts 0),
      named_cost-add p ts (named_cost p us 0),
    ) in
    let same_length : length (ts ++ us) ≡ length (us ++ ts) =
      omega (arith, length-append ts us, length-append us ts) in
    rw
      (
        calculate_tool_cost_usdc-sum p tool_calls (ts ++ us),
        calculate_tool_cost_usdc-sum p tool_calls (us ++ ts),
        same_cost,
        same_length,
      )
      refl
