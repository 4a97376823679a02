-- ===== src/Agent/Plan/Order.antt =====
-- Chains of dependencies, and orders in which every call comes after what it depends on.
use teardrop.Agent.Plan.{deps, elem}
use teardrop.Agent.Plan.Members.{Within, elem_more}
use teardrop.Common.{Bool-cases, Keyed, List, [], arith, inl, inr, sym, true, ℕ, ◌==◌, ◌∷◌, ◌≡◌}

-- A chain of one or more dependencies from a call to another.
pub data DependsOn (graph : Keyed (List ℕ)) : ℕ → ℕ → Type 0 where
  edge : {v w : ℕ} → elem w (deps graph v) ≡ true → DependsOn graph v w
  longer : {v w x : ℕ} → DependsOn graph v w → elem x (deps graph w) ≡ true → DependsOn graph v x

-- In the list, every id stands before all that it depends on, the last to be run first.
abbrev pub IsOrder : Keyed (List ℕ) → List ℕ → Type 0
IsOrder graph [] = Unit
IsOrder graph (v ∷ vs) = Within (deps graph v) vs × IsOrder graph vs

-- The dependencies of a member are members.
dep-IsOrder :
    (graph : Keyed (List ℕ)) (vs : List ℕ) (v d : ℕ)
    → IsOrder graph vs
    → elem v vs ≡ true
    → elem d (deps graph v) ≡ true
    → elem d vs ≡ true
dep-IsOrder graph [] v d ordered member dep = member
dep-IsOrder graph (x ∷ vs) v d (first, ordered) member dep = elim (Bool-cases (x == v)) [
  | inl same ↦ let e : x ≡ v = ground arith in elem_more d x vs (first d (rw (sym e) at dep))
  | inr differ ↦ elem_more d x vs (dep-IsOrder graph vs v d ordered (rw differ at member) dep)
]

DependsOn-IsOrder :
    (graph : Keyed (List ℕ)) (vs : List ℕ) {v w : ℕ}
    → IsOrder graph vs
    → elem v vs ≡ true
    → DependsOn graph v w
    → elem w vs ≡ true
DependsOn-IsOrder graph vs {v} {w} ordered member (edge e) =
    dep-IsOrder graph vs v w ordered member e
DependsOn-IsOrder graph vs {v} {w = x} ordered member (longer {w = w} c e) =
    dep-IsOrder graph vs w x ordered (DependsOn-IsOrder graph vs ordered member c) e

-- A chain from the first leads into the rest.
DependsOn-first :
    (graph : Keyed (List ℕ)) (vs : List ℕ) {v w : ℕ}
    → IsOrder graph (v ∷ vs)
    → DependsOn graph v w
    → elem w vs ≡ true
DependsOn-first graph vs {v} {w} (first, ordered) (edge e) = first w e
DependsOn-first graph vs {v} {w = x} (first, ordered) (longer {w = w} c e) =
    dep-IsOrder graph vs w x ordered (DependsOn-first graph vs (first, ordered) c) e

-- No member of an order depends on itself.
pub IsOrder-acyclic :
    (graph : Keyed (List ℕ)) (vs : List ℕ) (v : ℕ)
    → IsOrder graph vs
    → elem v vs ≡ true
    → ¬ DependsOn graph v v
IsOrder-acyclic graph [] v ordered member c = cc
IsOrder-acyclic graph (x ∷ vs) v (first, ordered) member c = elim (Bool-cases (x == v)) [
  | inl same ↦
      let e : x ≡ v = ground arith in
      let first' : Within (deps graph v) vs = rw e at first in
      IsOrder-acyclic graph vs v ordered (DependsOn-first graph vs (first', ordered) c) c
  | inr differ ↦ IsOrder-acyclic graph vs v ordered (rw differ at member) c
]
