-- ===== src/Agent/Plan.antt =====
-- Staged plans, of agent/planner_ir.py: `validate_plan_dag`. Call ids and tool names are numbers,
-- and the empty text is 0; the arguments of a call are not looked at.
pub mod Members
pub mod Order
pub mod Search
pub mod Valid
pub mod Acyclic
use teardrop.Common.{
  Bool, Keyed, List, Option, [], exists, false, if◌then◌else◌, length, lookup, map, none, not,
  select, some, suc, true, upsert, zero, ℕ, ◌++◌, ◌==◌, ◌∷◌,
}

pub record PlanCall : Type 0 where
  pub call_id : ℕ
  pub tool : ℕ
  pub depends_on : List ℕ

pub record PlanStage : Type 0 where
  pub stage_id : ℕ
  pub calls : List PlanCall

pub data PlanError : Type 0 where
  empty_call_id : PlanError
  missing_tool : PlanError
  duplicate_call_id : PlanError
  unknown_call_id : PlanError
  dependency_cycle : PlanError

abbrev pub elem : ℕ → List ℕ → Bool
elem n xs = exists (λ x. x == n) xs

abbrev pub discard : ℕ → List ℕ → List ℕ
discard n xs = select (λ x. not (x == n)) xs

-- [call for stage in plan.stages for call in stage.calls]
unfoldable pub all_calls : List PlanStage → List PlanCall
all_calls [] = []
all_calls (s ∷ ss) = s.calls ++ all_calls ss

-- The first loop, with the ids seen so far.
unfoldable pub check_calls : List ℕ → List PlanCall → Option PlanError
check_calls call_ids [] = none
check_calls call_ids (c ∷ cs) =
    let rest = check_calls (call_ids ++ c.call_id ∷ []) cs in
    if c.call_id == 0
    then some empty_call_id
    else if c.tool == 0
    then some missing_tool
    else if elem c.call_id call_ids
    then some duplicate_call_id
    else rest

unfoldable pub check_depends_on : List ℕ → List PlanCall → Option PlanError
check_depends_on call_ids [] = none
check_depends_on call_ids (c ∷ cs) =
    let rest = check_depends_on call_ids cs in
    if exists (λ d. not (elem d call_ids)) c.depends_on then some unknown_call_id else rest

-- {call.call_id: list(call.depends_on) for call in all_calls}
unfoldable pub graph_of : Keyed (List ℕ) → List PlanCall → Keyed (List ℕ)
graph_of graph [] = graph
graph_of graph (c ∷ cs) = graph_of (upsert c.call_id c.depends_on graph) cs

-- graph.get(node, [])
abbrev pub deps : Keyed (List ℕ) → ℕ → List ℕ
deps graph node = elim (lookup node graph) [ none ↦ [] | some ds ↦ ds ]

pub data Visit : Type 0 where
  visits : List ℕ → List ℕ → Visit
  cycle : Visit
  out_of_fuel : Visit

-- A search of each node of a list, until one fails.
abbrev pub each : (ℕ → List ℕ → List ℕ → Visit) → List ℕ → List ℕ → List ℕ → Visit
each go [] visiting visited = visits visiting visited
each go (d ∷ ds) visiting visited = elim (go d visiting visited) [
  | visits visiting' visited' ↦ each go ds visiting' visited'
  | cycle ↦ cycle
  | out_of_fuel ↦ out_of_fuel
]

abbrev pub leave : ℕ → Visit → Visit
leave node (visits visiting visited) = visits (discard node visiting) (node ∷ visited)
leave node cycle = cycle
leave node out_of_fuel = out_of_fuel

-- _dfs, on fuel for the depth of the recursion.
unfoldable pub dfs : ℕ → Keyed (List ℕ) → ℕ → List ℕ → List ℕ → Visit
dfs zero graph node visiting visited = out_of_fuel
dfs (suc f) graph node visiting visited = elim (elem node visited) [
  | true ↦ visits visiting visited
  | false ↦ elim (elem node visiting) [
    | true ↦ cycle
    | false ↦
        leave node
          (each (λ d xs ys. dfs f graph d xs ys) (deps graph node) (node ∷ visiting) visited)
  ]
]

pub data Validity : Type 0 where
  valid : Validity
  invalid : PlanError → Validity
  no_fuel : Validity

-- One more level than there are calls is enough.
unfoldable pub validate_plan_dag : List PlanStage → Validity
unfolding all_calls check_calls check_depends_on graph_of dfs
validate_plan_dag stages =
    let calls = all_calls stages in
    let graph = graph_of [] calls in
    let call_ids = map (λ c. c.call_id) calls in
    elim (check_calls [] calls) [
      | some e ↦ invalid e
      | none ↦ elim (check_depends_on call_ids calls) [
        | some e ↦ invalid e
        | none ↦ elim (each (dfs (suc (length graph)) graph) (map (λ n. n.0) graph) [] []) [
          | visits _ _ ↦ valid
          | cycle ↦ invalid dependency_cycle
          | out_of_fuel ↦ no_fuel
        ]
      ]
    ]
