-- ===== src/Agent/Plan/Valid.antt =====
-- The graph of a plan, and what its validation answers.
use teardrop.Agent.Plan.{
  PlanCall, PlanError, PlanStage, all_calls, check_calls, check_depends_on, dependency_cycle, deps,
  dfs, each, elem, graph_of, invalid, valid, validate_plan_dag,
}
use teardrop.Agent.Plan.Members.{Within}
use teardrop.Agent.Plan.Order.{DependsOn, IsOrder}
use teardrop.Agent.Plan.Search.{Finds, dfs-Finds, each-Finds, elem-cons}
use teardrop.Common.{
  All, Bool-cases, Keyed, List, Option-cases, [], ap, arith, exists, false, if◌then◌else◌, inl, inr,
  length, lookup-upsert, map, none, not, refl, some, suc, true, upsert, ℕ, ◌==◌, ◌∷◌, ◌≡◌, ◌⊎◌,
}

abbrev keys : Keyed (List ℕ) → List ℕ
keys t = map (λ n. n.0) t

-- The graph of a plan, as the validation builds it.
abbrev pub plan_graph : List PlanStage → Keyed (List ℕ)
plan_graph stages = graph_of [] (all_calls stages)

length-keys : (t : Keyed (List ℕ)) → length (keys t) ≡ length t
length-keys [] = refl
length-keys (e ∷ t) = ap suc (length-keys t)

keys-upsert :
    (k j : ℕ) (ds : List ℕ) (t : Keyed (List ℕ))
    → elem j (keys (upsert k ds t)) ≡ (if k == j then true else elem j (keys t))
keys-upsert k j ds [] = refl
keys-upsert k j ds ((i, es) ∷ t) = ground (arith, keys-upsert k j ds t)

keys-graph_of :
    (j : ℕ) (t : Keyed (List ℕ)) (cs : List PlanCall)
    → elem j (keys t) ≡ true
    → elem j (keys (graph_of t cs)) ≡ true
unfolding graph_of
keys-graph_of j t [] h = h
keys-graph_of j t (c ∷ cs) h =
    let put = keys-upsert c.call_id j c.depends_on t in
    keys-graph_of j (upsert c.call_id c.depends_on t) cs (ground (arith, put))

call_ids-graph_of :
    (j : ℕ) (t : Keyed (List ℕ)) (cs : List PlanCall)
    → elem j (map (λ c. c.call_id) cs) ≡ true
    → elem j (keys (graph_of t cs)) ≡ true
unfolding graph_of
call_ids-graph_of j t [] h = cc
call_ids-graph_of j t (c ∷ cs) h =
    let next = upsert c.call_id c.depends_on t in
    elim (Bool-cases (c.call_id == j)) [
      | inl same ↦ keys-graph_of j next cs (rw (keys-upsert c.call_id j c.depends_on t, same) refl)
      | inr differ ↦ call_ids-graph_of j next cs (rw differ at h)
    ]

all_known : (ids ds : List ℕ) → exists (λ d. not (elem d ids)) ds ≡ false → Within ds ids
all_known ids [] known x h = cc
all_known ids (d ∷ ds) known x h = elim (Bool-cases (elem d ids)) [
  | inr missing ↦ cc (rw missing at known)
  | inl there ↦ elem-cons x d ds ids there (all_known ids ds (rw there at known) x) h
]

check_depends_on-none :
    (ids : List ℕ) (cs : List PlanCall)
    → check_depends_on ids cs ≡ none
    → All (λ c. Within c.depends_on ids) cs
unfolding check_depends_on
check_depends_on-none ids [] h = tt
check_depends_on-none ids (c ∷ cs) h =
    elim (Bool-cases (exists (λ d. not (elem d ids)) c.depends_on)) [
      | inl unknown ↦ cc (rw unknown at h)
      | inr known ↦ (all_known ids c.depends_on known, check_depends_on-none ids cs (rw known at h))
    ]

deps-graph_of :
    (ids : List ℕ) (t : Keyed (List ℕ)) (cs : List PlanCall)
    → All (λ c. Within c.depends_on ids) cs
    → ((v : ℕ) → Within (deps t v) ids)
    → (v : ℕ) → Within (deps (graph_of t cs) v) ids
unfolding graph_of
deps-graph_of ids t [] all old v = old v
deps-graph_of ids t (c ∷ cs) (first, all) old v =
    deps-graph_of ids (upsert c.call_id c.depends_on t) cs all
      (λ w. elim (Bool-cases (c.call_id == w)) [
        | inl same ↦ rw (lookup-upsert c.call_id w c.depends_on t, same, deps) first
        | inr differ ↦ rw (lookup-upsert c.call_id w c.depends_on t, differ, deps) (old w)
      ])
      v

-- The search of every id of a graph whose dependencies are all ids of it.
pub roots_Finds :
    (graph : Keyed (List ℕ))
    → ((v : ℕ) → Within (deps graph v) (keys graph))
    → Finds graph (keys graph) [] [] (each (dfs (suc (length graph)) graph) (keys graph) [] [])
roots_Finds graph known =
    each-Finds graph (dfs (suc (length graph)) graph) (keys graph) [] []
      (λ d seen root order.
        dfs-Finds (suc (length graph)) graph (keys graph) d [] seen known
          (omega (arith, length-keys graph)) tt (λ x h. cc) root (λ x h. cc) order)
      tt

-- The three outcomes: an early error, a cycle that is one, or an order of all the calls.
pub validate_plan_dag-cases :
    (stages : List PlanStage)
    → ((e : PlanError) × (validate_plan_dag stages ≡ invalid e)
        × ((check_calls [] (all_calls stages) ≡ some e)
            ⊎ (check_depends_on (map (λ c. c.call_id) (all_calls stages)) (all_calls stages)
                ≡ some e)))
      ⊎ (((validate_plan_dag stages ≡ invalid dependency_cycle)
            × ((v : ℕ) × DependsOn (plan_graph stages) v v))
          ⊎ ((order : List ℕ) × (validate_plan_dag stages ≡ valid)
              × IsOrder (plan_graph stages) order
              × Within (map (λ c. c.call_id) (all_calls stages)) order
              × ((v : ℕ)
                  → Within (deps (plan_graph stages) v) (map (λ c. c.call_id) (all_calls stages)))))
unfolding validate_plan_dag
validate_plan_dag-cases stages =
    let calls = all_calls stages in
    let ids = map (λ c. c.call_id) calls in
    elim (Option-cases (check_calls [] calls)) [
      | inr (e, bad) ↦ inl (e, rw (bad, validate_plan_dag) refl, inl bad)
      | inl good ↦ elim (Option-cases (check_depends_on ids calls)) [
        | inr (e, bad) ↦ inl (e, rw (good, bad, validate_plan_dag) refl, inr bad)
        | inl known ↦
            let all = check_depends_on-none ids calls known in
            let graph = plan_graph stages in
            let closed : (v : ℕ) → Within (deps graph v) (keys graph) = λ v x h.
              call_ids-graph_of x [] calls (deps-graph_of ids [] calls all (λ w y out. cc) v x h) in
            elim (roots_Finds graph closed) [
              | inl (stops, found) ↦
                  inr (inl (rw (good, known, stops, validate_plan_dag) refl, found))
              | inr (order, ends, ordered, has_keys, _) ↦ inr (
                  inr (
                    order,
                    rw (good, known, ends, validate_plan_dag) refl,
                    ordered,
                    (λ x h. has_keys x (call_ids-graph_of x [] calls h)),
                    deps-graph_of ids [] calls all (λ w y out. cc),
                  ))
            ]
      ]
    ]
