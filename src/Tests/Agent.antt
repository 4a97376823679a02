-- ===== src/Tests/Agent.antt =====
-- Two small plans: one in two stages, and one whose calls wait for each other.
use teardrop.Agent.Plan.{
  PlanCall, PlanStage, all_calls, check_calls, check_depends_on, dependency_cycle, dfs, elem,
  graph_of, invalid, no_fuel, valid, validate_plan_dag,
}
use teardrop.Agent.Plan.Acyclic.{
  validate_plan_dag-IsOrder, validate_plan_dag-cycle, validate_plan_dag_total,
}
use teardrop.Agent.Plan.Members.{Distinct, Within}
use teardrop.Agent.Plan.Order.{DependsOn, IsOrder}
use teardrop.Agent.Plan.Valid.{plan_graph}
use teardrop.Agent.Shortlist.{
  Token, Tool, by_name, emit, names, score, select_shortlisted_tools, selected_names, sort_scored,
  tokens,
}
use teardrop.Agent.Shortlist.Emit.{tool_names}
use teardrop.Agent.Shortlist.Kept.{select_shortlisted_tools_le}
use teardrop.Common.{
  List, [], length, map, none, refl, select, some, true, ℕ, ◌+◌, ◌<◌, ◌↔◌, ◌∷◌, ◌≡◌, ◌≤◌, ◌⊎◌,
}

abbrev call : ℕ → List ℕ → PlanCall
call id ds = record { call_id = id; tool = 5; depends_on = ds }

abbrev staged : List PlanStage
staged =
    record { stage_id = 1; calls = call 1 [] ∷ call 2 [] ∷ [] }
    ∷ record { stage_id = 2; calls = call 3 (1 ∷ 2 ∷ []) ∷ [] }
    ∷ []

abbrev circular : List PlanStage
circular = record { stage_id = 1; calls = call 1 (2 ∷ []) ∷ call 2 (1 ∷ []) ∷ [] } ∷ []

staged_valid : validate_plan_dag staged ≡ valid
unfolding validate_plan_dag all_calls check_calls check_depends_on graph_of dfs
staged_valid = refl

circular_invalid : validate_plan_dag circular ≡ invalid dependency_cycle
unfolding validate_plan_dag all_calls check_calls check_depends_on graph_of dfs
circular_invalid = refl

validate_plan_dag_total_example : ¬ (validate_plan_dag circular ≡ no_fuel)
validate_plan_dag_total_example = validate_plan_dag_total circular

validate_plan_dag-IsOrder_example :
    (order : List ℕ) × IsOrder (plan_graph staged) order
    × Within (map (λ c. c.call_id) (all_calls staged)) order
    × ((v : ℕ) → ¬ DependsOn (plan_graph staged) v v)
validate_plan_dag-IsOrder_example = validate_plan_dag-IsOrder staged staged_valid

validate_plan_dag-cycle_example :
    ((validate_plan_dag circular ≡ invalid dependency_cycle)
      ↔ ((v : ℕ) × DependsOn (plan_graph circular) v v))
    × ((validate_plan_dag circular ≡ valid)
        ⊎ (validate_plan_dag circular ≡ invalid dependency_cycle))
unfolding all_calls check_calls check_depends_on
validate_plan_dag-cycle_example = validate_plan_dag-cycle circular refl refl

-- Four tools for two places; the tool 1 is always kept, and the request speaks of the tool 4.
abbrev tool : ℕ → Tool
tool n = record { name = n; described = record { text = 10 + n; size = 4 } ∷ [] }

abbrev toolbox : List Tool
toolbox = tool 1 ∷ tool 2 ∷ tool 3 ∷ tool 4 ∷ []

abbrev request : List Token
request = record { text = 14; size = 4 } ∷ record { text = 99; size = 3 } ∷ []

toolbox_shortlisted :
    select_shortlisted_tools (99 ∷ []) (1 ∷ 7 ∷ []) request toolbox 2 ≡ some (tool 1 ∷ tool 4 ∷ [])
unfolding select_shortlisted_tools by_name tokens score sort_scored selected_names emit
toolbox_shortlisted = refl

select_shortlisted_tools_le_example :
    let always = select (λ n. elem n (names (by_name [] toolbox))) (1 ∷ 7 ∷ []) in
    let outcome = select_shortlisted_tools (99 ∷ []) (1 ∷ 7 ∷ []) request toolbox 2 in
    ((outcome ≡ none) × (2 < length always))
    ⊎ ((out : List Tool) × (outcome ≡ some out)
        × (length out ≤ 2)
        × ((out ≡ toolbox) ⊎ Distinct (tool_names out))
        × ((n : ℕ)
            → elem n (1 ∷ 7 ∷ []) ≡ true
            → elem n (tool_names toolbox) ≡ true
            → elem n (tool_names out) ≡ true))
select_shortlisted_tools_le_example =
    select_shortlisted_tools_le (99 ∷ []) (1 ∷ 7 ∷ []) request toolbox 2
