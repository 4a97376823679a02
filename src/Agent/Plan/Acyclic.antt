-- ===== src/Agent/Plan/Acyclic.antt =====
-- What a validated plan may rely on.
use teardrop.Agent.Plan.{
  PlanStage, all_calls, check_calls, check_depends_on, dependency_cycle, deps, elem, invalid,
  no_fuel, valid, validate_plan_dag,
}
use teardrop.Agent.Plan.Members.{Within}
use teardrop.Agent.Plan.Order.{DependsOn, IsOrder, IsOrder-acyclic, edge, longer}
use teardrop.Agent.Plan.Valid.{plan_graph, validate_plan_dag-cases}
use teardrop.Common.{Keyed, List, [], inl, inr, map, none, true, ℕ, ◌↔◌, ◌≡◌, ◌⊎◌}

-- The validation returns for every plan: its search has the fuel that it needs.
pub validate_plan_dag_total : (stages : List PlanStage) → ¬ (validate_plan_dag stages ≡ no_fuel)
validate_plan_dag_total stages stuck = elim (validate_plan_dag-cases stages) [
  | inl (e, early, _) ↦ cc
  | inr (inl (cyclic, found)) ↦ cc
  | inr (inr (order, passes, _, _, _)) ↦ cc
]

-- A chain of dependencies ends at a call that another depends on.
DependsOn-end :
    (graph : Keyed (List ℕ)) (ids : List ℕ) {v w : ℕ}
    → ((u : ℕ) → Within (deps graph u) ids)
    → DependsOn graph v w
    → elem w ids ≡ true
DependsOn-end graph ids {v} {w} known (edge e) = known v w e
DependsOn-end graph ids {v} {w = x} known (longer {w = w} c e) = known w x e

-- The calls of a plan that is valid can be listed so that each stands before all that it depends on,
-- and no call depends on itself, in any number of steps.
pub validate_plan_dag-IsOrder :
    (stages : List PlanStage)
    → validate_plan_dag stages ≡ valid
    → (order : List ℕ) × IsOrder (plan_graph stages) order
      × Within (map (λ c. c.call_id) (all_calls stages)) order
      × ((v : ℕ) → ¬ DependsOn (plan_graph stages) v v)
validate_plan_dag-IsOrder stages passed = elim (validate_plan_dag-cases stages) [
  | inl (e, early, _) ↦ cc
  | inr (inl (cyclic, found)) ↦ cc
  | inr (inr (order, passes, ordered, has_ids, known)) ↦ (
    order,
    ordered,
    has_ids,
    λ v c.
        IsOrder-acyclic (plan_graph stages) order v ordered
          (has_ids v
            (DependsOn-end (plan_graph stages) (map (λ c. c.call_id) (all_calls stages)) known c))
          c,
  )
]

-- A plan that passes the checks of its ids, tools and dependencies is refused for a cycle exactly
-- when one of its calls depends on itself, in some number of steps, and is valid otherwise.
pub validate_plan_dag-cycle :
    (stages : List PlanStage)
    → check_calls [] (all_calls stages) ≡ none
    → check_depends_on (map (λ c. c.call_id) (all_calls stages)) (all_calls stages) ≡ none
    → ((validate_plan_dag stages ≡ invalid dependency_cycle)
        ↔ ((v : ℕ) × DependsOn (plan_graph stages) v v))
      × ((validate_plan_dag stages ≡ valid) ⊎ (validate_plan_dag stages ≡ invalid dependency_cycle))
validate_plan_dag-cycle stages good known = elim (validate_plan_dag-cases stages) [
  | inl (e, _, inl bad) ↦ cc
  | inl (e, _, inr bad) ↦ cc
  | inr (inl (cyclic, found)) ↦ (((λ _. found), (λ _. cyclic)), inr cyclic)
  | inr (inr (order, passes, _, _, _)) ↦
      let (_, _, _, acyclic) = validate_plan_dag-IsOrder stages passes in
      (((λ cyclic. cc), (λ (v, c). absurd (acyclic v c))), inl passes)
]
